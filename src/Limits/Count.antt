-- ===== src/Limits/Count.antt =====
-- The counter counts the permits that are alive, and no peer holds more than the cap.
use klams.Common.{
  ℕ, ◌+◌, ◌-◌, ◌≤◌, ◌<◌, ◌≡◌, refl, sym, ap, ◌∙◌, inl, inr, true, false, none, some, List, ◌∷◌,
  arith, if◌then◌else◌, leb, ◌==◌, ==_iff, unwrap_or, sum_by, sum_by-append, Bool-cases,
  Option-cases,
}
use klams.Limits.{
  Counter, try_acquire, active, release, Service, Step, acquired, refused, released, Reachable,
  started, step,
}

-- The number of a peer's permits.
abbrev pub held : ℕ → List ℕ → ℕ
held peer permits = sum_by (λ p. if peer == p then 1 else 0) permits

-- What holds of every state that the service reaches.
record Counted (cap : ℕ) (s : Service) : Type 0 where
  exact : (peer : ℕ) → active s.counter peer ≡ held peer s.permits
  capped : (peer : ℕ) → active s.counter peer ≤ cap

try_acquire-active :
    (c : Counter) (cap peer p : ℕ)
    → let r = try_acquire c peer cap in
      (r.1 ≡ true
        → (active r.0 p ≡ (if p == peer then 1 else 0) + active c p) × (active c peer < cap))
      × (r.1 ≡ false → active r.0 p ≡ active c p)
unfolding try_acquire active
try_acquire-active c cap peer p = elim (Bool-cases (leb cap (unwrap_or (c peer) 0))) [
  | inl e ↦ elim (Bool-cases (p == peer)) [
    | inl q ↦
        let same : p ≡ peer = (==_iff p peer).0 q in
        rw (e, q) ((λ h. cc), (λ h. ap (λ x. unwrap_or (c x) 0) (sym same)))
    | inr q ↦ rw (e, q) ((λ h. cc), (λ h. refl))
  ]
  | inr e ↦
      let below : unwrap_or (c peer) 0 < cap = ground (arith, e) in
      elim (Bool-cases (p == peer)) [
        | inl q ↦
            let same : p ≡ peer = (==_iff p peer).0 q in
            rw (e, q)
              (
                (λ h. let v = ap (λ x. unwrap_or (c x) 0) same in (omega (arith, v), below)),
                (λ h. cc),
              )
        | inr q ↦ rw (e, q) ((λ h. (omega arith, below)), (λ h. cc))
      ]
]

release-active :
    (c : Counter) (peer p : ℕ)
    → 0 < active c peer
    → active c p ≡ (if p == peer then 1 else 0) + active (release c peer) p
unfolding release active
release-active c peer p h = elim (Option-cases (c peer)) [
  | inl n ↦ let z : unwrap_or (c peer) 0 ≡ 0 = rw n in absurd (omega (arith, h, z))
  | inr (slot, e) ↦
      let v : unwrap_or (c peer) 0 ≡ slot = rw e in
      elim (Bool-cases (p == peer)) [
        | inl q ↦
            let same : p ≡ peer = (==_iff p peer).0 q in
            rw (e, q) (ap (λ x. unwrap_or (c x) 0) same ∙ v ∙ last slot (omega (arith, h, v)))
        | inr q ↦ rw (e, q) (omega arith)
      ]
]
  where
    last :
        (slot : ℕ)
        → 0 < slot
        → slot ≡ 1 + unwrap_or (if slot - 1 == 0 then none else some (slot - 1)) 0
    last slot k = elim (Bool-cases (slot - 1 == 0)) [
      | inl z ↦ rw z (ground (arith, k, z))
      | inr z ↦ rw z (omega (arith, k))
    ]

step-Counted : (cap : ℕ) (s t : Service) → Counted cap s → Step cap s t → Counted cap t
step-Counted cap s _ i (acquired _ peer h) = record {
  exact = λ p. omega (arith, ((try_acquire-active s.counter cap peer p).0 h).0, i.exact p);
  capped = λ p.
      let a = (try_acquire-active s.counter cap peer p).0 h in
      elim (Bool-cases (p == peer)) [
        | inl q ↦
            let same = ap (active s.counter) ((==_iff p peer).0 q) in
            let v : active (try_acquire s.counter peer cap).0 p ≡ 1 + active s.counter p =
              rw q at a.0 in
            omega (arith, v, same, a.1)
        | inr q ↦
            let v : active (try_acquire s.counter peer cap).0 p ≡ 0 + active s.counter p =
              rw q at a.0 in
            omega (arith, v, i.capped p)
      ];
}
step-Counted cap s _ i (refused _ peer h) = record {
  exact = λ p. (try_acquire-active s.counter cap peer p).1 h ∙ i.exact p;
  capped = λ p. omega (arith, (try_acquire-active s.counter cap peer p).1 h, i.capped p);
}
step-Counted cap s _ i (released _ before peer after e) = record {
  exact =
      λ p. omega (arith, alive p, dropped_one p, sum_by-append (mine p) before after, i.exact p);
  capped = λ p. omega (arith, dropped_one p, i.capped p);
}
  where
    mine : ℕ → ℕ → ℕ
    mine p x = if p == x then 1 else 0

    alive :
        (p : ℕ)
        → sum_by (mine p) s.permits ≡ sum_by (mine p) before + (mine p peer + sum_by (mine p) after)
    alive p = ap (sum_by (mine p)) e ∙ sum_by-append (mine p) before (peer ∷ after)

    itself : mine peer peer ≡ 1
    itself = rw ((==_iff peer peer).1 refl)

    some_left : 0 < active s.counter peer
    some_left = omega (arith, alive peer, itself, i.exact peer)

    dropped_one : (p : ℕ) → active s.counter p ≡ mine p peer + active (release s.counter peer) p
    dropped_one p = release-active s.counter peer p some_left

-- In every order of connections that come and go, the count of a peer is the number of its permits
-- alive, and is at most the cap.
pub Reachable-capped :
    (cap : ℕ) (s : Service) (peer : ℕ)
    → Reachable cap s
    → (active s.counter peer ≡ held peer s.permits) × (held peer s.permits ≤ cap)
Reachable-capped cap s peer r =
    let i = go s r in (i.exact peer, omega (arith, i.exact peer, i.capped peer))
  where
    go : (s : Service) → Reachable cap s → Counted cap s
    go _ started = unfold active in record { exact = λ p. refl; capped = λ p. omega arith }
    go t (step s _ r q) = step-Counted cap s t (go s r) q
