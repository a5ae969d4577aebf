-- ===== src/Auth/Config.antt =====
-- An `[auth]` block is accepted exactly when its rows are valid and their names distinct.
use klams.Common.{
  ℕ, suc, ◌≤◌, ◌≡◌, ◌≢◌, refl, ◌↔◌, inl, inr, Bool, true, false, List, [], ◌∷◌, Result, ok, err,
  if◌then◌else◌, length, all, any, is_empty, Text, text_eq, text_eq_iff, arith, All, Bool-cases,
}
use klams.Auth.{
  Scope, read, write, manage, admin, satisfies, IdentityConfig, AuthConfig, validate_agent_name,
  validate, row_errors, errors, name_byte, ConfigError, AuthConfigError, row, block,
  duplicate_identity, no_identities, row_error,
}

-- The rules for a row: 2 to 64 bytes of `[a-z0-9_-]`, and at least one scope.
pub record IsValid (id : IdentityConfig) : Type 0 where
  pub short : 2 ≤ length id.agent_name
  pub long : length id.agent_name ≤ 64
  pub charset : All (λ b. name_byte b ≡ true) id.agent_name
  pub scoped : id.scopes ≢ []

pub all-All :
    {A : Type 0} (p : A → Bool) (xs : List A) → (all p xs ≡ true) ↔ All (λ x. p x ≡ true) xs
all-All p [] = ((λ h. tt), (λ h. refl))
all-All p (x ∷ xs) =
    ((λ h. ground (arith, (all-All p xs).0)), (λ h. ground (arith, (all-All p xs).1 h.1)))

pub is_empty_iff : {A : Type 0} (xs : List A) → (is_empty xs ≡ true) ↔ (xs ≡ [])
is_empty_iff [] = ((λ h. refl), (λ h. refl))
is_empty_iff (x ∷ xs) = ((λ h. cc), (λ h. cc))

-- `IdentityConfig::validate` accepts a row exactly when it keeps the rules.
pub validate-IsValid : (id : IdentityConfig) → (validate id ≡ ok tt) ↔ IsValid id
unfolding validate validate_agent_name
validate-IsValid id = (
  (λ h. record {
    short = ground (arith, h);
    long = ground (arith, h);
    charset = (all-All name_byte id.agent_name).0 (ground (arith, h));
    scoped = λ e. ground (arith, h, e);
  }),
  (λ v. ground (arith, (all-All name_byte id.agent_name).1 v.charset, v.scoped)),
)

any-text_eq : (n : Text) (seen : List Text) → (any (text_eq n) seen ≡ false) ↔ All (λ m. n ≢ m) seen
any-text_eq n [] = ((λ h. tt), (λ h. refl))
any-text_eq n (m ∷ seen) = (
  (λ h. ((λ e. ground (arith, (text_eq_iff n m).1 e)), (any-text_eq n seen).0 (ground arith))),
  (λ h. elim (Bool-cases (text_eq n m)) [
    | inl e ↦ absurd (h.0 ((text_eq_iff n m).0 e))
    | inr e ↦ rw e ((any-text_eq n seen).1 h.1)
  ]),
)

-- No row has the name.
abbrev pub NotAmong : Text → List IdentityConfig → Type 0
NotAmong n = All (λ id. id.agent_name ≢ n)

-- No two rows have one name.
abbrev pub Distinct : List IdentityConfig → Type 0
Distinct [] = Unit
Distinct (id ∷ ids) = NotAmong id.agent_name ids × Distinct ids

add_row :
    (id : IdentityConfig) (ids : List IdentityConfig) (seen : List Text)
    → All (λ m. id.agent_name ≢ m) seen
    → All (λ m. NotAmong m ids) seen
    → All (λ m. NotAmong m (id ∷ ids)) seen
add_row id ids [] a b = tt
add_row id ids (m ∷ seen) a b = ((a.0, b.0), add_row id ids seen a.1 b.1)

drop_row :
    (id : IdentityConfig) (ids : List IdentityConfig) (seen : List Text)
    → All (λ m. NotAmong m (id ∷ ids)) seen
    → All (λ m. id.agent_name ≢ m) seen × All (λ m. NotAmong m ids) seen
drop_row id ids [] h = (tt, tt)
drop_row id ids (m ∷ seen) h = let r = drop_row id ids seen h.1 in ((h.0.0, r.0), (h.0.1, r.1))

-- One row adds no error exactly when it is valid and its name is new.
row_error_nil :
    (i : ℕ) (id : IdentityConfig) (r : Result AuthConfigError Unit) (b : Bool) (e : ConfigError)
    (rest : List ConfigError)
    → (row_error i id r (if b then e ∷ rest else rest) ≡ [])
      ↔ ((r ≡ ok tt) × (b ≡ false) × (rest ≡ []))
row_error_nil i id (ok u) true e rest = ((λ h. cc), (λ h. cc (h.1)))
row_error_nil i id (ok u) false e rest = ((λ h. (refl, refl, h)), (λ h. h.2))
row_error_nil i id (err x) b e rest = ((λ h. cc), (λ h. cc (h.0)))

row_errors_lem :
    (i : ℕ) (seen : List Text) (ids : List IdentityConfig)
    → (row_errors i seen ids ≡ [])
      ↔ (All IsValid ids × Distinct ids × All (λ m. NotAmong m ids) seen)
unfolding row_errors
row_errors_lem i seen [] = ((λ h. (tt, tt, all_seen seen)), (λ h. refl))
  where
    all_seen : (seen : List Text) → All (λ m. NotAmong m []) seen
    all_seen [] = tt
    all_seen (m ∷ ms) = (tt, all_seen ms)
row_errors_lem i seen (id ∷ ids) =
    let n = id.agent_name in
    let b = any (text_eq n) seen in
    let step =
      row_error_nil i id (validate id) b (row i (duplicate_identity n))
        (row_errors (suc i) (n ∷ seen) ids) in
    let ih = row_errors_lem (suc i) (n ∷ seen) ids in
    (
      (λ h.
          let r = step.0 h in
          let q = ih.0 r.2 in
          (
            ((validate-IsValid id).0 r.0, q.0),
            (q.2.0, q.1),
            add_row id ids seen ((any-text_eq n seen).0 r.1) q.2.1,
          )),
      (λ h.
          let d = drop_row id ids seen h.2 in
          step.1 (
            (validate-IsValid id).1 h.0.0,
            (any-text_eq n seen).1 d.0,
            ih.1 (h.0.1, h.1.1, (h.1.0, d.1)),
          )),
    )

-- `AuthConfig::errors` is empty exactly when there is a row, every row keeps the rules, and no two
-- rows have one name.
pub errors-IsValid :
    (cfg : AuthConfig)
    → (errors cfg ≡ [])
      ↔ ((cfg.identities ≢ []) × All IsValid cfg.identities × Distinct cfg.identities)
unfolding errors
errors-IsValid cfg = go cfg.identities
  where
    go :
        (ids : List IdentityConfig)
        → ((if is_empty ids then block no_identities ∷ row_errors 0 [] ids else row_errors 0 [] ids)
            ≡ [])
          ↔ ((ids ≢ []) × All IsValid ids × Distinct ids)
    go [] = ((λ h. cc), (λ h. absurd (h.0 refl)))
    go (id ∷ ids) =
        let l = row_errors_lem 0 [] (id ∷ ids) in
        ((λ h. ((λ e. cc), (l.0 h).0, (l.0 h).1)), (λ h. l.1 (h.1, h.2, tt)))

-- Scopes are independent: one grants itself only.
pub satisfies_iff : (a b : Scope) → (satisfies a b ≡ true) ↔ (a ≡ b)
unfolding satisfies
satisfies_iff read b = ground arith
satisfies_iff write b = ground arith
satisfies_iff manage b = ground arith
satisfies_iff admin b = ground arith
