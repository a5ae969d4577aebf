-- ===== src/Access/Tests.antt =====
-- Runs of the request check, and the theorems of this folder at concrete inputs.
use klams.Common.{
  ℕ, zero, suc, ◌≡◌, refl, ◌↔◌, true, false, Option, none, some, [], ◌∷◌, err, ok, Text, codes,
  text_eq, trim, here,
}
use klams.Auth.{
  read, write, IdentityConfig, AuthConfig, validate_agent_name, validate, row_errors, errors,
}
use klams.Access.{
  Identity, AuthState, Request, Extensions, node_not_allowed, admit, check_declared,
  resolve_identity, caller_addr, require_bearer, sighup, sighups, with_tables, with_whois, Registry,
}
use klams.Access.Checks.{Distinct, Accepted, require_bearer-Accepted}
use klams.Access.Reload.{sighups-Distinct, sighup_serves}

abbrev claude : IdentityConfig
claude = record {
  agent_name = codes "claude";
  scopes = read ∷ write ∷ [];
  label = none;
  nodes = [];
}

abbrev config : AuthConfig
config = record {
  identities = claude ∷ [];
  whois = record { enabled = true; enforce = false; cache_ttl_secs = 300 };
}

abbrev registry : Registry
registry id = some 7

abbrev pinned : Identity
pinned = record {
  agent_name = codes "scanner";
  scopes = write ∷ [];
  label = none;
  author_id = 9;
  nodes = codes "kai" ∷ [];
}

abbrev parse_ip : Text → Option ℕ
parse_ip t = none

-- Address 1 is the node `kai`.
abbrev whois : ℕ → Option Text
whois zero = none
whois (suc n) = some (codes "kai")

abbrev served : AuthState
served = with_whois (with_tables (pinned ∷ [])) whois true

abbrev request : Option ℕ → Request
request peer = record {
  agent_header = some (codes " scanner ");
  has_authorization = false;
  forwarded_for = none;
  peer = peer;
}

abbrev seen : Extensions
seen = record {
  scopes = write ∷ [];
  author_id = 9;
  agent_name = codes "scanner";
  addr = some 1;
  node = some (codes "kai");
}

passes : require_bearer parse_ip served (request (some 1)) ≡ ok seen
unfolding require_bearer check_declared admit resolve_identity caller_addr text_eq trim with_whois
    with_tables
passes = refl

refused :
    require_bearer parse_ip served (request (some 0))
    ≡ err (node_not_allowed (codes "scanner") none (codes "kai" ∷ []))
unfolding require_bearer check_declared admit resolve_identity caller_addr text_eq trim with_whois
    with_tables
refused = refl

require_bearer-Accepted_example :
    (require_bearer parse_ip served (request (some 1)) ≡ ok seen)
    ↔ Accepted parse_ip served (request (some 1)) seen
unfolding with_whois with_tables
require_bearer-Accepted_example =
    require_bearer-Accepted parse_ip served (request (some 1)) seen (tt, tt)

abbrev recorded : AuthState
recorded = with_whois (with_tables (pinned ∷ [])) whois false

sighups-Distinct_example :
    Distinct (sighups served ((registry, some config) ∷ (registry, none) ∷ [])).tables
unfolding with_whois with_tables
sighups-Distinct_example =
    (sighups-Distinct served ((registry, some config) ∷ (registry, none) ∷ []) (tt, tt)).0

clean : errors config ≡ []
unfolding errors row_errors validate validate_agent_name
clean = refl

sighup_serves_example :
    (e : Extensions) × (require_bearer parse_ip
        (sighup recorded (λ j. some 7) (some config))
        (record (request none) { agent_header = some (codes "claude") })
      ≡ ok e)
    × (e.scopes ≡ read ∷ write ∷ [])
    × (e.author_id ≡ 7)
unfolding with_whois with_tables trim
sighup_serves_example =
    sighup_serves parse_ip recorded (λ j. 7) config claude
      (record (request none) { agent_header = some (codes "claude") }) clean (here refl) refl refl
