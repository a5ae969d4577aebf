-- ===== src/Access/Checks.antt =====
-- Which requests `require_bearer` and `require_scope` let pass.
use klams.Common.{
  ℕ, ◌≡◌, ◌≢◌, refl, sym, ap, subst, ◌∙◌, ◌↔◌, inl, inr, Bool, true, false, not, ◌&&◌, Option, none,
  some, List, [], ◌∷◌, ok, any, is_empty, Text, text_eq, text_eq_iff, text_eq_refl, arith, All,
  All-In, In, here, there, Bool-cases,
}
use klams.Auth.{Scope, satisfies}
use klams.Auth.Config.{satisfies_iff}
use klams.Access.{
  Identity, AuthState, Request, Extensions, non_empty, resolve_identity, resolve_node, node_allowed,
  caller_addr, admit, check_declared, require_bearer, require_scope,
}

-- No two identities of the table have one name.
abbrev pub Distinct : List Identity → Type 0
Distinct [] = Unit
Distinct (i ∷ is) = All (λ j. j.agent_name ≢ i.agent_name) is × Distinct is

pub any-In :
    {A : Type 0} (p : A → Bool) (xs : List A) → any p xs ≡ true → (a : A) × In a xs × (p a ≡ true)
any-In p [] h = cc
any-In p (x ∷ xs) h = elim (Bool-cases (p x)) [
  | inl e ↦ (x, here refl, e)
  | inr e ↦ let (a, i, q) = any-In p xs (rw e at h) in (a, there i, q)
]

pub In-any :
    {A : Type 0} (p : A → Bool) (a : A) (xs : List A) → In a xs → p a ≡ true → any p xs ≡ true
In-any p a [] i h = elim i [ ]
In-any p a (x ∷ xs) (here e) h = ground (arith, ap p e)
In-any p a (x ∷ xs) (there i) h = ground (arith, In-any p a xs i h)

resolve-In :
    (t : List Identity) (n : Text) (id : Identity)
    → resolve_identity t n ≡ some id
    → In id t × (id.agent_name ≡ n)
unfolding resolve_identity
resolve-In [] n id h = cc
resolve-In (i ∷ is) n id h = elim (Bool-cases (text_eq i.agent_name n)) [
  | inl e ↦
      let q : some i ≡ some id = rw e at h in
      let same : i ≡ id = cc in
      (here (sym same), ap (λ x. x.agent_name) (sym same) ∙ (text_eq_iff _ n).0 e)
  | inr e ↦ let r = resolve-In is n id (rw e at h) in (there r.0, r.1)
]

In-resolve :
    (t : List Identity) (id : Identity)
    → Distinct t
    → In id t
    → resolve_identity t id.agent_name ≡ some id
unfolding resolve_identity
In-resolve [] id d m = elim m [ ]
In-resolve (i ∷ is) id d (here e) = rw (e, text_eq_refl i.agent_name)
In-resolve (i ∷ is) id d (there m) = elim (Bool-cases (text_eq i.agent_name id.agent_name)) [
  | inl e ↦ absurd (All-In (λ j. j.agent_name ≢ i.agent_name) d.0 m (sym ((text_eq_iff _ _).0 e)))
  | inr e ↦ rw e (In-resolve is id d.1 m)
]

-- In a table of distinct names, the lookup finds an identity exactly under its own name.
pub resolve_identity-In :
    (t : List Identity) (n : Text) (id : Identity)
    → Distinct t
    → (resolve_identity t n ≡ some id) ↔ (In id t × (id.agent_name ≡ n))
resolve_identity-In t n id d = (
  resolve-In t n id,
  (λ h. subst (λ m. resolve_identity t m ≡ some id) h.1 (In-resolve t id d h.0)),
)

-- What a passed request comes from: a declared, trimmed name, the identity under that name, and,
-- for a pinned identity under enforcement, the node that it arrived from.
pub record Accepted (parse_ip : Text → Option ℕ) (s : AuthState) (req : Request) (e : Extensions)
    : Type 0 where
  pub identity : Identity
  pub listed : In identity s.tables
  pub declared : non_empty req.agent_header ≡ some identity.agent_name
  pub pinned :
      s.enforce_nodes ≡ true
      → identity.nodes ≢ []
      → node_allowed (resolve_node s.whois (caller_addr parse_ip req)) identity.nodes ≡ true
  pub stamped : e ≡ record {
    scopes = identity.scopes;
    author_id = identity.author_id;
    agent_name = identity.agent_name;
    addr = caller_addr parse_ip req;
    node = resolve_node s.whois (caller_addr parse_ip req);
  }

-- The node test of `admit`, as a condition.
pin_test :
    (enforce : Bool) (allowed : Bool) (nodes : List Text)
    → ((enforce && not (is_empty nodes) && not allowed) ≡ false)
      ↔ (enforce ≡ true → nodes ≢ [] → allowed ≡ true)
pin_test false allowed nodes = ((λ h e. cc), (λ h. refl))
pin_test true true nodes = ((λ h e n. refl), (λ h. ground arith))
pin_test true false [] = ((λ h e n. absurd (n refl)), (λ h. refl))
pin_test true false (n ∷ ns) = ((λ h. cc), (λ h. cc (h refl (λ e. cc))))

abbrev stamp : Identity → Option ℕ → Option Text → Extensions
stamp id addr from = record {
  scopes = id.scopes;
  author_id = id.author_id;
  agent_name = id.agent_name;
  addr = addr;
  node = from;
}

abbrev Admitted : Bool → Option Identity → Option ℕ → Option Text → Extensions → Type 0
Admitted enforce o addr from e =
    (id : Identity) × (o ≡ some id)
    × (enforce ≡ true → id.nodes ≢ [] → node_allowed from id.nodes ≡ true)
    × (e ≡ stamp id addr from)

admit-Admitted :
    (enforce : Bool) (o : Option Identity) (addr : Option ℕ) (from : Option Text) (e : Extensions)
    → (admit enforce o addr from ≡ ok e) ↔ Admitted enforce o addr from e
unfolding admit
admit-Admitted enforce none addr from e = ((λ h. cc), (λ h. cc (h.1)))
admit-Admitted enforce (some id) addr from e =
    elim (Bool-cases (enforce && not (is_empty id.nodes) && not (node_allowed from id.nodes))) [
      | inl t ↦ (
        (λ h. let q = rw t at h in cc q),
        (λ h.
            let q : h.0 ≡ id = cc in
            let f =
              (pin_test enforce (node_allowed from id.nodes) id.nodes).1 (pin_of h.0 id q h.2) in
            cc (t, f)),
      )
      | inr t ↦ (
        (λ h.
            let q : ok (stamp id addr from) ≡ ok e = rw t at h in
            (id, refl, (pin_test enforce (node_allowed from id.nodes) id.nodes).0 t, cc q)),
        (λ h. let q : h.0 ≡ id = cc in rw t (ap ok (sym (h.3 ∙ ap (λ i. stamp i addr from) q)))),
      )
    ]
  where
    pin_of :
        (i j : Identity)
        → i ≡ j
        → (enforce ≡ true → i.nodes ≢ [] → node_allowed from i.nodes ≡ true)
        → enforce ≡ true
        → j.nodes ≢ []
        → node_allowed from j.nodes ≡ true
    pin_of i j q =
        subst (λ (k : Identity). enforce ≡ true → k.nodes ≢ [] → node_allowed from k.nodes ≡ true) q

module _ (parse_ip : Text → Option ℕ) (s : AuthState) (req : Request) (e : Extensions) where
  declared_sound :
      (o : Option Text)
      → check_declared parse_ip s req o ≡ ok e
      → (n : Text) × (o ≡ some n)
        × Admitted s.enforce_nodes
            (resolve_identity s.tables n)
            (caller_addr parse_ip req)
            (resolve_node s.whois (caller_addr parse_ip req))
            e
  unfolding check_declared
  declared_sound none h = cc
  declared_sound (some n) h = (n, refl, (admit-Admitted s.enforce_nodes _ _ _ e).0 h)

  -- In a table of distinct names, `require_bearer` passes a request exactly when its trimmed
  -- header is the name of an identity of the table that, under enforcement, is unpinned or pinned
  -- to the node that whois gives for the caller; it stamps that identity's scopes and author.
  pub require_bearer-Accepted :
      Distinct s.tables → (require_bearer parse_ip s req ≡ ok e) ↔ Accepted parse_ip s req e
  unfolding require_bearer
  require_bearer-Accepted d = (
    (λ h.
        let (n, o, (id, r, pin, st)) = declared_sound (non_empty req.agent_header) h in
        let m = (resolve_identity-In s.tables n id d).0 r in
        record {
          identity = id;
          listed = m.0;
          declared = o ∙ ap some (sym m.1);
          pinned = pin;
          stamped = st;
        }),
    (λ a.
        rw (a.declared, check_declared)
          ((admit-Admitted s.enforce_nodes _ _ _ e).1 (
            a.identity,
            (resolve_identity-In s.tables _ a.identity d).1 (a.listed, refl),
            a.pinned,
            a.stamped,
          ))),
  )

-- A checked request passes the gate of a scope exactly when its identity lists that scope.
pub require_scope-In :
    (needed : Scope) (e : Extensions) → (require_scope needed (some e) ≡ ok tt) ↔ In needed e.scopes
unfolding require_scope
require_scope-In needed e = (
  (λ h. elim (Bool-cases (any (λ s. satisfies s needed) e.scopes)) [
    | inl t ↦
        let (s, i, q) = any-In (λ s. satisfies s needed) e.scopes t in
        subst (λ (x : Scope). In x e.scopes) ((satisfies_iff s needed).0 q) i
    | inr t ↦ cc (t, h)
  ]),
  (λ i.
      rw (
        In-any (λ s. satisfies s needed) needed e.scopes i ((satisfies_iff needed needed).1 refl))),
)

-- With enforcement off, the resolver never decides whether a request passes.
pub require_bearer-whois :
    (parse_ip : Text → Option ℕ) (s : AuthState) (req : Request) (w : Option (ℕ → Option Text))
    (e : Extensions)
    → Distinct s.tables
    → s.enforce_nodes ≡ false
    → require_bearer parse_ip s req ≡ ok e
    → let from = resolve_node w (caller_addr parse_ip req) in
      require_bearer parse_ip (record s { whois = w }) req ≡ ok (record e { node = from })
require_bearer-whois parse_ip s req w e d off h =
    let a = (require_bearer-Accepted parse_ip s req e d).0 h in
    let from = resolve_node w (caller_addr parse_ip req) in
    (require_bearer-Accepted parse_ip (record s { whois = w }) req (record e { node = from }) d).1
      (record {
        identity = a.identity;
        listed = a.listed;
        declared = a.declared;
        pinned = λ on. cc (on, off);
        stamped = ap (λ (x : Extensions). record x { node = from }) a.stamped;
      })
