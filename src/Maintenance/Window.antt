-- ===== src/Maintenance/Window.antt =====
-- Which requests pass a maintenance window, and what the others are told.
use klams.Common.{
  ℕ, suc, ◌-◌, ◌/◌, ◌*◌, ◌+◌, ◌≤◌, ◌<◌, max, ◌≡◌, ◌≢◌, refl, ap, subst, ◌∙◌, ◌↔◌, ◌⊎◌, inl, inr,
  Bool, true, false, not, ◌||◌, Option, none, some, ◌∷◌, ◌++◌, if◌then◌else◌, Text, codes, text_eq,
  text_eq_iff, arith, All, Bool-cases,
}
use klams.Common.Split.{strip_prefix, split_once, strip_prefix_iff, split_once_iff}
use klams.Maintenance.{
  critical_tail, after_prefix, MaintenanceState, RunningSnapshot, Request, is_critical_write_path,
  is_pass_through, retry_after_seconds, runs, rejected, maintenance_check,
}

-- A path `/memory/dissents/{id}/promote` or `.../discard`, where the id has no slash.
pub record CriticalPath (path : Text) : Type 0 where
  pub id : Text
  pub tail : Text
  pub split : path ≡ codes "/memory/dissents/" ++ id ++ b'/' ∷ tail
  pub no_slash : All (λ c. c ≢ b'/') id
  pub named : (tail ≡ codes "promote") ⊎ (tail ≡ codes "discard")

tail_iff :
    (t : Text)
    → ((text_eq t (codes "promote") || text_eq t (codes "discard")) ≡ true)
      ↔ ((t ≡ codes "promote") ⊎ (t ≡ codes "discard"))
tail_iff t =
    go (text_eq t (codes "promote")) (text_eq t (codes "discard")) (text_eq_iff t _)
      (text_eq_iff t _)
  where
    go : (a b : Bool) {P Q : Type 0} → (a ≡ true) ↔ P → (b ≡ true) ↔ Q → ((a || b) ≡ true) ↔ (P ⊎ Q)
    go true b p q = ((λ h. inl (p.0 refl)), (λ h. refl))
    go false b p q =
        ((λ h. inr (q.0 h)), (λ h. elim h [ inl x ↦ let k = p.1 x in cc | inr y ↦ q.1 y ]))

-- What `split_once` leaves, and `CriticalPath` asks for.
abbrev IsTail : Text → Type 0
IsTail rest =
    (id tail : Text) × (rest ≡ id ++ b'/' ∷ tail)
    × All (λ c. c ≢ b'/') id
    × ((tail ≡ codes "promote") ⊎ (tail ≡ codes "discard"))

critical_tail_iff :
    (rest : Text) (o : Option (Text × Text))
    → split_once b'/' rest ≡ o
    → (critical_tail o ≡ true) ↔ IsTail rest
critical_tail_iff rest none e =
    ((λ h. cc), (λ t. let k = (split_once_iff b'/' rest t.0 t.1).1 (t.2, t.3) in cc))
critical_tail_iff rest (some (id, tail)) e = (
  (λ h.
      let k = (split_once_iff b'/' rest id tail).0 e in (id, tail, k.0, k.1, (tail_iff tail).0 h)),
  (λ t.
      let k = (split_once_iff b'/' rest t.0 t.1).1 (t.2, t.3) in
      let same : t.1 ≡ tail = cc in
      (tail_iff tail).1 (subst (λ x. (x ≡ codes "promote") ⊎ (x ≡ codes "discard")) same t.4)),
)

after_prefix_iff :
    (path : Text) (o : Option Text)
    → strip_prefix (codes "/memory/dissents/") path ≡ o
    → (after_prefix o ≡ true) ↔ CriticalPath path
after_prefix_iff path none e = (
  (λ h. cc),
  (λ c.
      let k =
        (strip_prefix_iff (codes "/memory/dissents/") path (c.id ++ b'/' ∷ c.tail)).1 c.split in
      cc),
)
after_prefix_iff path (some rest) e =
    let i = critical_tail_iff rest (split_once b'/' rest) refl in
    let whole : path ≡ codes "/memory/dissents/" ++ rest = (strip_prefix_iff _ path rest).0 e in
    (
      (λ h.
          let (id, tail, sp, ns, nm) = i.0 h in
          record {
            id = id;
            tail = tail;
            split = whole ∙ ap (λ r. codes "/memory/dissents/" ++ r) sp;
            no_slash = ns;
            named = nm;
          }),
      (λ c.
          let k =
            (strip_prefix_iff (codes "/memory/dissents/") path (c.id ++ b'/' ∷ c.tail)).1 c.split in
          let same : rest ≡ c.id ++ b'/' ∷ c.tail = cc in
          i.1 (c.id, c.tail, same, c.no_slash, c.named)),
    )

module _ {P Q R : Type 0} where
  six_ways :
      (act get crit a b c : Bool) (n : ℕ)
      → (a ≡ true) ↔ P
      → (b ≡ true) ↔ Q
      → (c ≡ true) ↔ R
      → ((if not act || (if get then true else if crit then true else if a || b then true else c)
            then runs
            else rejected n)
          ≡ runs)
        ↔ ((act ≡ false) ⊎ (get ≡ true) ⊎ (crit ≡ true) ⊎ P ⊎ Q ⊎ R)
  six_ways false get crit a b c n p q r = ((λ h. inl refl), (λ h. refl))
  six_ways true true crit a b c n p q r = ((λ h. inr (inl refl)), (λ h. refl))
  six_ways true false true a b c n p q r = ((λ h. inr (inr (inl refl))), (λ h. refl))
  six_ways true false false true b c n p q r =
      ((λ h. inr (inr (inr (inl (p.0 refl))))), (λ h. refl))
  six_ways true false false false true c n p q r =
      ((λ h. inr (inr (inr (inr (inl (q.0 refl)))))), (λ h. refl))
  six_ways true false false false false true n p q r =
      ((λ h. inr (inr (inr (inr (inr (r.0 refl)))))), (λ h. refl))
  six_ways true false false false false false n p q r = (
    (λ h. cc),
    (λ h. elim h [
      | inl x ↦ cc
      | inr (inl x) ↦ cc
      | inr (inr (inl x)) ↦ cc
      | inr (inr (inr (inl x))) ↦ let k = p.1 x in cc
      | inr (inr (inr (inr (inl x)))) ↦ let k = q.1 x in cc
      | inr (inr (inr (inr (inr x)))) ↦ let k = r.1 x in cc
    ]),
  )

-- While the flag is up, a request runs exactly when it is a GET, is marked critical, is one of the
-- two reads that are posted, or has the path of a promotion or discard of a dissent, whatever the
-- source of the transition; while it is down, every one does.
pub maintenance_check-runs :
    (s : MaintenanceState) (now : ℕ) (req : Request)
    → (maintenance_check s now req ≡ runs) ↔ (
        (s.active ≡ false)
        ⊎ (req.is_get ≡ true)
        ⊎ (req.critical ≡ true)
        ⊎ (req.path ≡ codes "/memory/search")
        ⊎ (req.path ≡ codes "/memory/context")
        ⊎ CriticalPath req.path)
unfolding maintenance_check
maintenance_check-runs s now req =
    six_ways s.active req.is_get req.critical (text_eq req.path (codes "/memory/search"))
      (text_eq req.path (codes "/memory/context")) (is_critical_write_path req.path)
      (retry_after_seconds s now) (text_eq_iff _ _) (text_eq_iff _ _)
      (after_prefix_iff req.path _ refl)

-- What a rejected request is told to wait: 30 seconds at least, and when the end of the backup is
-- projected, so long that less than a second of it is left.
pub maintenance_check-retry :
    (s : MaintenanceState) (now seconds : ℕ) (req : Request) (snapshot : RunningSnapshot) (end : ℕ)
    → maintenance_check s now req ≡ rejected seconds
    → s.inflight ≡ some snapshot
    → snapshot.expected_end_at ≡ some end
    → (30 ≤ seconds) × (end < now + suc seconds * 1000000000)
unfolding maintenance_check
maintenance_check-retry s now seconds req snapshot end h i e =
    elim (Bool-cases (not s.active || is_pass_through req)) [
      | inl b ↦ let k : runs ≡ rejected seconds = rw b at h in cc
      | inr b ↦
          let k : rejected (retry_after_seconds s now) ≡ rejected seconds = rw b at h in
          let q : retry_after_seconds s now ≡ seconds = cc in
          let v : retry_after_seconds s now ≡ max ((end - now) / 1000000000) 30 =
            unfold retry_after_seconds in rw (i, e) in
          (omega (arith, q, v), omega (arith, q, v))
    ]
