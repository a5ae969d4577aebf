-- ===== src/Auth/Tests.antt =====
-- Runs of the `[auth]` checks, and the theorems of this folder at concrete inputs.
use klams.Common.{◌≡◌, refl, ◌↔◌, true, none, some, [], ◌∷◌, err, ok, codes, text_eq, All, ◌≢◌}
use klams.Auth.Config.{IsValid, Distinct, errors-IsValid}
use klams.Auth.{
  read, write, IdentityConfig, AuthConfig, WhoisConfig, validate_agent_name, validate, row_errors,
  errors, warnings, bad_length, bad_charset, labelled, row, invalid_agent_name, duplicate_identity,
}

abbrev whois : WhoisConfig
whois = record { enabled = true; enforce = true; cache_ttl_secs = 300 }

abbrev claude : IdentityConfig
claude = record {
  agent_name = codes "claude";
  scopes = read ∷ write ∷ [];
  label = none;
  nodes = [];
}

abbrev odd_name : IdentityConfig
odd_name = record {
  agent_name = codes "Kai";
  scopes = read ∷ [];
  label = some (codes "kai");
  nodes = codes "kubs0" ∷ [];
}

abbrev doubled : AuthConfig
doubled = record { identities = claude ∷ odd_name ∷ claude ∷ []; whois = whois }

name_rules :
    (validate_agent_name (codes "a") ≡ err bad_length)
    × (validate_agent_name (codes "Kai") ≡ err bad_charset)
    × (validate_agent_name (codes "k-homelab_2") ≡ ok tt)
unfolding validate_agent_name
name_rules = (refl, refl, refl)

all_errors :
    errors doubled
    ≡ labelled 1 (codes "kai") (invalid_agent_name bad_charset)
      ∷ row 2 (duplicate_identity (codes "claude"))
      ∷ []
unfolding errors row_errors validate validate_agent_name text_eq
all_errors = refl

one_warning : warnings doubled ≡ some (codes "claude" ∷ codes "claude" ∷ [])
unfolding warnings
one_warning = refl

abbrev config : AuthConfig
config = record { identities = claude ∷ []; whois = whois }

errors-IsValid_example :
    (errors config ≡ [])
    ↔ ((config.identities ≢ []) × All IsValid config.identities × Distinct config.identities)
errors-IsValid_example = errors-IsValid config
