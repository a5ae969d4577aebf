-- ===== src/Auth.antt =====
-- crates/klams-types/src/auth.rs: scopes, identity rows and the check of an `[auth]` block.
-- Names are lists of bytes. Error messages are kept as the values that they are formatted from.
pub mod Config
mod Tests
use klams.Common.{
  ℕ, suc, Bool, true, false, not, ◌&&◌, ◌||◌, Option, none, some, List, [], ◌∷◌, map, Result, ok,
  err, if◌then◌else◌, leb, ◌==◌, length, all, any, is_empty, filter_by, unwrap_or, Text, text_eq,
}

pub data Scope : Type 0 where
  read write manage admin : Scope

unfoldable pub satisfies : Scope → Scope → Bool
satisfies read read = true
satisfies write write = true
satisfies manage manage = true
satisfies admin admin = true
satisfies _ _ = false

pub record IdentityConfig : Type 0 where
  pub agent_name : Text
  pub scopes : List Scope
  pub label : Option Text
  pub nodes : List Text

pub record WhoisConfig : Type 0 where
  pub enabled : Bool
  pub enforce : Bool
  pub cache_ttl_secs : ℕ

pub record AuthConfig : Type 0 where
  pub identities : List IdentityConfig
  pub whois : WhoisConfig

pub data AgentNameInvalidReason : Type 0 where
  empty_name bad_length bad_charset : AgentNameInvalidReason

pub data AuthConfigError : Type 0 where
  no_identities empty_scopes : AuthConfigError
  invalid_agent_name : AgentNameInvalidReason → AuthConfigError
  duplicate_identity : Text → AuthConfigError

-- `b.is_ascii_lowercase() || b.is_ascii_digit() || b == b'_' || b == b'-'`
abbrev pub name_byte : ℕ → Bool
name_byte b = (leb b'a' b && leb b b'z') || (leb b'0' b && leb b b'9') || b == b'_' || b == b'-'

unfoldable pub validate_agent_name : Text → Result AgentNameInvalidReason Unit
validate_agent_name name =
    if is_empty name
    then err empty_name
    else if not (leb 2 (length name) && leb (length name) 64)
    then err bad_length
    else if not (all name_byte name)
    then err bad_charset
    else ok tt

abbrev pub name_then : Result AgentNameInvalidReason Unit → List Scope → Result AuthConfigError Unit
name_then (err reason) scopes = err (invalid_agent_name reason)
name_then (ok u) scopes = if is_empty scopes then err empty_scopes else ok tt

-- `IdentityConfig::validate`
unfoldable pub validate : IdentityConfig → Result AuthConfigError Unit
unfolding validate_agent_name
validate id = name_then (validate_agent_name id.agent_name) id.scopes

-- What a message of `AuthConfig::errors` is formatted from: the block, or the row's index with its
-- label or name, or the row's index.
pub data ConfigError : Type 0 where
  block : AuthConfigError → ConfigError
  labelled : ℕ → Text → AuthConfigError → ConfigError
  row : ℕ → AuthConfigError → ConfigError

abbrev pub row_error :
    ℕ → IdentityConfig → Result AuthConfigError Unit → List ConfigError → List ConfigError
row_error i id (ok u) rest = rest
row_error i id (err e) rest = labelled i (unwrap_or id.label id.agent_name) e ∷ rest

-- The loop over the rows; `seen` is the set of names so far.
unfoldable pub row_errors : ℕ → List Text → List IdentityConfig → List ConfigError
row_errors i seen [] = []
row_errors i seen (id ∷ ids) =
    let rest = row_errors (suc i) (id.agent_name ∷ seen) ids in
    row_error i id (validate id) (
      if any (text_eq id.agent_name) seen
      then row i (duplicate_identity id.agent_name) ∷ rest
      else rest)

unfoldable pub errors : AuthConfig → List ConfigError
errors cfg =
    let rows = row_errors 0 [] cfg.identities in
    if is_empty cfg.identities then block no_identities ∷ rows else rows

-- The names in the one warning of `AuthConfig::warnings`, if it is given.
pub warnings : AuthConfig → Option (List Text)
warnings cfg =
    let unpinned = map (λ i. i.agent_name) (filter_by (λ i. is_empty i.nodes) cfg.identities) in
    if cfg.whois.enforce && not (is_empty unpinned) then some unpinned else none
