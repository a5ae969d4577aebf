-- ===== src/Access.antt =====
-- crates/klams-api/src/auth.rs and the reload of crates/klams-service/src/main.rs: the identity
-- table, the check of a request, the scope gate, and the swap of the table on SIGHUP.
-- The author registry, `IpAddr` parsing and the tailnet resolver are arguments. The shared, locked
-- table is a field of the state: a check reads one snapshot, so it is one step.
pub mod Checks
pub mod Reload
mod Tests
use klams.Common.{
  ℕ, Bool, true, false, not, ◌&&◌, Option, none, some, List, [], ◌∷◌, Result, ok, err,
  if◌then◌else◌, any, is_empty, is_some, unwrap_or, Text, text_eq, trim, split_char,
}
use klams.Auth.{Scope, satisfies, IdentityConfig, AuthConfig, errors}

-- `Identity`
pub record Identity : Type 0 where
  pub agent_name : Text
  pub scopes : List Scope
  pub label : Option Text
  pub author_id : ℕ
  pub nodes : List Text

-- `AuthState`: `whois` is the installed resolver.
pub record AuthState : Type 0 where
  pub tables : List Identity
  pub whois : Option (ℕ → Option Text)
  pub enforce_nodes : Bool

-- What the check reads of a request. A header is `none` if it is absent or is no visible ASCII;
-- addresses are numbers.
pub record Request : Type 0 where
  pub agent_header : Option Text
  pub has_authorization : Bool
  pub forwarded_for : Option Text
  pub peer : Option ℕ

pub data ApiError : Type 0 where
  unauthorized bearer_retired : ApiError
  node_not_allowed : Text → Option Text → List Text → ApiError
  scope_insufficient : Scope → ApiError

-- The three extensions that a checked request carries.
pub record Extensions : Type 0 where
  pub scopes : List Scope
  pub author_id : ℕ
  pub agent_name : Text
  pub addr : Option ℕ
  pub node : Option Text

pub with_tables : List Identity → AuthState
with_tables tables = record { tables = tables; whois = none; enforce_nodes = false }

pub with_whois : AuthState → (ℕ → Option Text) → Bool → AuthState
with_whois s resolver enforce = record s { whois = some resolver; enforce_nodes = enforce }

pub replace_tables : AuthState → List Identity → AuthState
replace_tables s tables = record s { tables = tables }

-- `.map(str::trim).filter(|d| !d.is_empty())`
abbrev pub non_empty : Option Text → Option Text
non_empty none = none
non_empty (some d) = let t = trim d in if is_empty t then none else some t

abbrev first_piece : List Text → Text
first_piece [] = []
first_piece (p ∷ ps) = p

abbrev forwarded_addr : (Text → Option ℕ) → Option Text → Option ℕ
forwarded_addr parse_ip none = none
forwarded_addr parse_ip (some v) = parse_ip (trim (first_piece (split_char b',' v)))

abbrev or_else : Option ℕ → Option ℕ → Option ℕ
or_else none b = b
or_else (some a) b = some a

-- The first entry of `X-Forwarded-For`, else the socket peer.
pub caller_addr : (Text → Option ℕ) → Request → Option ℕ
caller_addr parse_ip req = or_else (forwarded_addr parse_ip req.forwarded_for) req.peer

-- `.find(|i| i.agent_name == declared)`
pub resolve_identity : List Identity → Text → Option Identity
resolve_identity [] declared = none
resolve_identity (i ∷ is) declared =
    if text_eq i.agent_name declared then some i else resolve_identity is declared

abbrev pub resolve_node : Option (ℕ → Option Text) → Option ℕ → Option Text
resolve_node none addr = none
resolve_node (some whois) none = none
resolve_node (some whois) (some ip) = whois ip

-- `node.is_some_and(|n| nodes.iter().any(|a| a == n))`
abbrev pub node_allowed : Option Text → List Text → Bool
node_allowed none nodes = false
node_allowed (some n) nodes = any (λ a. text_eq a n) nodes

-- The check from the resolved identity on.
pub admit : Bool → Option Identity → Option ℕ → Option Text → Result ApiError Extensions
admit enforce none addr from = err unauthorized
admit enforce (some id) addr from =
    if enforce && not (is_empty id.nodes) && not (node_allowed from id.nodes)
    then err (node_not_allowed id.agent_name from id.nodes)
    else ok (record {
      scopes = id.scopes;
      author_id = id.author_id;
      agent_name = id.agent_name;
      addr = addr;
      node = from;
    })

pub check_declared :
    (Text → Option ℕ) → AuthState → Request → Option Text → Result ApiError Extensions
unfolding admit
check_declared parse_ip s req none =
    err (if req.has_authorization then bearer_retired else unauthorized)
check_declared parse_ip s req (some name) =
    let addr = caller_addr parse_ip req in
    admit s.enforce_nodes (resolve_identity s.tables name) addr (resolve_node s.whois addr)

-- The middleware up to `next.run`.
pub require_bearer : (Text → Option ℕ) → AuthState → Request → Result ApiError Extensions
unfolding check_declared
require_bearer parse_ip s req = check_declared parse_ip s req (non_empty req.agent_header)

-- `require_scope(needed)`; the extension is absent if `require_bearer` was not layered before.
pub require_scope : Scope → Option Extensions → Result ApiError Unit
require_scope needed none = err unauthorized
require_scope needed (some e) =
    if any (λ s. satisfies s needed) e.scopes then ok tt else err (scope_insufficient needed)

-- The author binding of one row: the registry's id, or `none` if it cannot be reached.
abbrev pub Registry : Type 0
Registry = IdentityConfig → Option ℕ

abbrev bind_row : IdentityConfig → Option ℕ → Option (List Identity) → Option (List Identity)
bind_row id none rest = none
bind_row id (some author) none = none
bind_row id (some author) (some rows) = some (
    record {
      agent_name = id.agent_name;
      scopes = id.scopes;
      label = id.label;
      author_id = author;
      nodes = id.nodes;
    }
    ∷ rows)

pub bind_rows : Registry → List IdentityConfig → Option (List Identity)
bind_rows registry [] = some []
bind_rows registry (id ∷ ids) = bind_row id (registry id) (bind_rows registry ids)

-- `build_auth_tables`
pub build_auth_tables : Registry → AuthConfig → Option (List Identity)
build_auth_tables registry cfg =
    if is_empty (errors cfg) then bind_rows registry cfg.identities else none

abbrev install : AuthState → Option (List Identity) → AuthState
install s none = s
install s (some tables) = replace_tables s tables

abbrev loaded : Registry → Option AuthConfig → Option (List Identity)
loaded registry none = none
loaded registry (some cfg) = build_auth_tables registry cfg

-- One SIGHUP: the config file as it was read (`none` if it does not load), and the registry.
pub sighup : AuthState → Registry → Option AuthConfig → AuthState
unfolding build_auth_tables replace_tables
sighup s registry cfg = install s (loaded registry cfg)

pub sighups : AuthState → List (Registry × Option AuthConfig) → AuthState
unfolding sighup
sighups s [] = s
sighups s ((registry, cfg) ∷ more) = sighups (sighup s registry cfg) more
