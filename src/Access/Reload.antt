-- ===== src/Access/Reload.antt =====
-- SIGHUP: what a reload installs, and what stays true over any sequence of reloads.
use klams.Common.{
  ℕ, ◌≡◌, ◌≢◌, refl, sym, ap, ◌∙◌, ◌⊎◌, inl, inr, false, Option, none, some, List, [], ◌∷◌, ok,
  is_empty, Text, arith, All, In, here, there, Bool-cases, Option-cases, unwrap_or,
}
use klams.Auth.{IdentityConfig, AuthConfig, errors}
use klams.Auth.Config
use klams.Auth.Config.{is_empty_iff, errors-IsValid, NotAmong}
use klams.Access.{
  Identity, AuthState, Request, Extensions, Registry, non_empty, bind_rows, build_auth_tables,
  install, loaded, sighup, sighups, require_bearer, resolve_node, caller_addr,
}
use klams.Access.Checks.{Distinct, require_bearer-Accepted}

-- The table row of a config row.
abbrev pub IsRowOf : Registry → IdentityConfig → Identity → Type 0
IsRowOf registry id i =
    (i.agent_name ≡ id.agent_name)
    × (i.scopes ≡ id.scopes)
    × (i.nodes ≡ id.nodes)
    × (registry id ≡ some i.author_id)

-- The rows correspond one to one, in order.
abbrev pub Rows : Registry → List IdentityConfig → List Identity → Type 0
Rows registry [] [] = Unit
Rows registry [] (i ∷ is) = ⊥
Rows registry (id ∷ ids) [] = ⊥
Rows registry (id ∷ ids) (i ∷ is) = IsRowOf registry id i × Rows registry ids is

bind_rows-Rows :
    (registry : Registry) (ids : List IdentityConfig) (t : List Identity)
    → bind_rows registry ids ≡ some t
    → Rows registry ids t
unfolding bind_rows
bind_rows-Rows registry [] [] h = tt
bind_rows-Rows registry [] (i ∷ t) h = cc
bind_rows-Rows registry (id ∷ ids) [] h = ground arith
bind_rows-Rows registry (id ∷ ids) (i ∷ t) h = ground (arith, bind_rows-Rows registry ids t)

Rows-NotAmong :
    (registry : Registry) (n : Text) (ids : List IdentityConfig) (t : List Identity)
    → Rows registry ids t
    → NotAmong n ids
    → All (λ i. i.agent_name ≢ n) t
Rows-NotAmong registry n [] [] r a = tt
Rows-NotAmong registry n [] (i ∷ t) r a = absurd r
Rows-NotAmong registry n (id ∷ ids) [] r a = absurd r
Rows-NotAmong registry n (id ∷ ids) (i ∷ t) r a =
    ((λ e. a.0 (sym r.0.0 ∙ e)), Rows-NotAmong registry n ids t r.1 a.1)

Rows-Distinct :
    (registry : Registry) (ids : List IdentityConfig) (t : List Identity)
    → Rows registry ids t
    → Config.Distinct ids
    → Distinct t
Rows-Distinct registry [] [] r d = tt
Rows-Distinct registry [] (i ∷ t) r d = absurd r
Rows-Distinct registry (id ∷ ids) [] r d = absurd r
Rows-Distinct registry (id ∷ ids) (i ∷ t) r d = (
  rw r.0.0 (Rows-NotAmong registry id.agent_name ids t r.1 d.0),
  Rows-Distinct registry ids t r.1 d.1,
)

Rows-In :
    (registry : Registry) (ids : List IdentityConfig) (t : List Identity) (id : IdentityConfig)
    → Rows registry ids t
    → In id ids
    → (i : Identity) × In i t × IsRowOf registry id i
Rows-In registry [] t id r m = elim m [ ]
Rows-In registry (x ∷ ids) [] id r m = absurd r
Rows-In registry (x ∷ ids) (i ∷ t) id r (here e) = (i, here refl, rw e r.0)
Rows-In registry (x ∷ ids) (i ∷ t) id r (there m) =
    let (j, k, q) = Rows-In registry ids t id r.1 m in (j, there k, q)

-- What a successful build is: the block has no error, and the table has its rows.
build_auth_tables-Rows :
    (registry : Registry) (cfg : AuthConfig) (t : List Identity)
    → build_auth_tables registry cfg ≡ some t
    → (errors cfg ≡ []) × Rows registry cfg.identities t
unfolding build_auth_tables
build_auth_tables-Rows registry cfg t h = elim (Bool-cases (is_empty (errors cfg))) [
  | inl e ↦ ((is_empty_iff (errors cfg)).0 e, bind_rows-Rows registry cfg.identities t (rw e at h))
  | inr e ↦ cc (e, h)
]

build_auth_tables-Distinct :
    (registry : Registry) (cfg : AuthConfig) (t : List Identity)
    → build_auth_tables registry cfg ≡ some t
    → Distinct t
build_auth_tables-Distinct registry cfg t h =
    let b = build_auth_tables-Rows registry cfg t h in
    Rows-Distinct registry cfg.identities t b.1 ((errors-IsValid cfg).0 b.0).2

sighup-Distinct :
    (s : AuthState) (registry : Registry) (cfg : Option AuthConfig)
    → Distinct s.tables
    → Distinct (sighup s registry cfg).tables
unfolding sighup
sighup-Distinct s registry none d = d
sighup-Distinct s registry (some cfg) d = elim (Option-cases (build_auth_tables registry cfg)) [
  | inl e ↦ rw e d
  | inr (t, e) ↦ rw e (build_auth_tables-Distinct registry cfg t e)
]

install_kept :
    (s : AuthState) (o : Option (List Identity))
    → ((install s o).whois ≡ s.whois) × ((install s o).enforce_nodes ≡ s.enforce_nodes)
unfolding sighup
install_kept s none = (refl, refl)
install_kept s (some t) = (refl, refl)

-- Whatever config files and registries a run of SIGHUPs meets, the names of the table stay
-- distinct, and the resolver and the enforcement setting stay as they were.
pub sighups-Distinct :
    (s : AuthState) (hups : List (Registry × Option AuthConfig))
    → Distinct s.tables
    → Distinct (sighups s hups).tables
      × ((sighups s hups).whois ≡ s.whois)
      × ((sighups s hups).enforce_nodes ≡ s.enforce_nodes)
unfolding sighups sighup
sighups-Distinct s [] d = (d, refl, refl)
sighups-Distinct s ((registry, cfg) ∷ hups) d =
    let r = sighups-Distinct (sighup s registry cfg) hups (sighup-Distinct s registry cfg d) in
    let k = install_kept s (loaded registry cfg) in (r.0, r.1 ∙ k.0, r.2 ∙ k.1)

-- A reload that fails, because the file does not load, its block has an error or the registry
-- cannot be reached for a row, leaves the state as it was.
pub sighup_fails :
    (s : AuthState) (registry : Registry) (cfg : AuthConfig) (id : IdentityConfig)
    → (errors cfg ≢ []) ⊎ (In id cfg.identities × (registry id ≡ none))
    → (sighup s registry (some cfg) ≡ s) × (sighup s registry none ≡ s)
unfolding sighup
sighup_fails s registry cfg id h = elim (Option-cases (build_auth_tables registry cfg)) [
  | inl e ↦ (rw e, refl)
  | inr (t, e) ↦
      let b = build_auth_tables-Rows registry cfg t e in
      absurd (elim h [
        | inl bad ↦ bad b.0
        | inr (m, down) ↦
            let (i, k, q) = Rows-In registry cfg.identities t id b.1 m in cc (q.3, down)
      ])
]

bind_rows_total :
    (author_of : IdentityConfig → ℕ) (ids : List IdentityConfig)
    → (t : List Identity) × (bind_rows (λ id. some (author_of id)) ids ≡ some t)
unfolding bind_rows
bind_rows_total author_of [] = ([], refl)
bind_rows_total author_of (id ∷ ids) =
    let (t, e) = bind_rows_total author_of ids in
    let first : Identity = record {
      agent_name = id.agent_name;
      scopes = id.scopes;
      label = id.label;
      author_id = author_of id;
      nodes = id.nodes;
    } in
    (first ∷ t, rw e)

-- With enforcement off, a SIGHUP with an error-free file and a registry that answers makes every
-- row of the file usable at once: a request that declares its name passes, with its scopes and
-- its registered author.
pub sighup_serves :
    (parse_ip : Text → Option ℕ) (s : AuthState) (author_of : IdentityConfig → ℕ) (cfg : AuthConfig)
    (id : IdentityConfig) (req : Request)
    → errors cfg ≡ []
    → In id cfg.identities
    → s.enforce_nodes ≡ false
    → non_empty req.agent_header ≡ some id.agent_name
    → (e : Extensions) × (require_bearer parse_ip
          (sighup s (λ j. some (author_of j)) (some cfg))
          req
        ≡ ok e)
      × (e.scopes ≡ id.scopes)
      × (e.author_id ≡ author_of id)
unfolding sighup
sighup_serves parse_ip s author_of cfg id req clean m off declared =
    let registry : Registry = λ j. some (author_of j) in
    let (t, bound) = bind_rows_total author_of cfg.identities in
    let built : build_auth_tables registry cfg ≡ some t =
      unfold build_auth_tables in rw clean bound in
    let rows = bind_rows-Rows registry cfg.identities t bound in
    let (i, k, q) = Rows-In registry cfg.identities t id rows m in
    let from = resolve_node s.whois (caller_addr parse_ip req) in
    let e : Extensions = record {
      scopes = i.scopes;
      author_id = i.author_id;
      agent_name = i.agent_name;
      addr = caller_addr parse_ip req;
      node = from;
    } in
    (
      e,
      rw built (
          (require_bearer-Accepted parse_ip (record s { tables = t }) req e
              (build_auth_tables-Distinct registry cfg t built)).1
            (record {
              identity = i;
              listed = k;
              declared = declared ∙ ap some (sym q.0);
              pinned = λ on. cc (on, off);
              stamped = refl;
            })),
      q.1,
      ap (λ o. unwrap_or o 0) (sym q.3),
    )
