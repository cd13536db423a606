-- ===== src/Locks/Safety.antt =====
-- What the lock manager promises in every state that its callers can reach.
use redlaunch.Base.{
  ℕ, ◌<◌, ◌≡◌, ◌≢◌, arith, ◌↔◌, true, some, Option, Text, ap, subst, ==_iff, Bool-cases, none,
}
use redlaunch.Base.Assoc.{lookup}
use redlaunch.Locks.Families.{sum_member, sum_only, weight-le-sum}
use redlaunch.Locks.Manager.{Manager}
use redlaunch.Locks.Callers.{
  Pc, idle, arriving, waiting, trying, leaving, holding, releasing, System, Reach,
}
use redlaunch.Locks.Invariant.{target, refers, refers_at, holds, IsConsistent, Reach-IsConsistent}
use native.Mathlib.Decide.{dec_lt}

-- the caller that a weight of 1 stands for
holds-eq : (a : ℕ) (p : Pc) → 0 < holds a p → (k : Text) × (p ≡ holding k a)
holds-eq a (holding k b) h = (k, ground arith)
holds-eq a idle h = absurd (omega arith)
holds-eq a (arriving k b) h = absurd (omega arith)
holds-eq a (waiting k b) h = absurd (omega arith)
holds-eq a (trying k b) h = absurd (omega arith)
holds-eq a (leaving k b) h = absurd (omega arith)
holds-eq a (releasing k b) h = absurd (omega arith)

refers-eq : (a : ℕ) (o : Option (Text × ℕ)) → 0 < refers_at a o → (k : Text) × (o ≡ some (k, a))
refers-eq a none h = absurd (omega arith)
refers-eq a (some (k, b)) h = (k, ground arith)

module _ {n : ℕ} {m : Manager} {pc : ℕ → Pc} (inv : IsConsistent n m pc) where
  open inv use {counted, tokens, mapped, used, one_key, outside}

  pub moves_inside : (i : ℕ) → pc i ≢ idle → i < n
  moves_inside i h = elim (dec_lt i n) [ yes b ↦ b | no b ↦ absurd (h (outside i (omega arith))) ]

  -- a full channel has a holder, with the key of any caller at this lock
  pub full-holder :
      (i a : ℕ) {k : Text}
      → target (pc i) ≡ some (k, a)
      → (m.heap a).full ≡ true
      → (j : ℕ) × (j < n) × (pc j ≡ holding k a)
  full-holder i a {k} t h =
      let found = sum_member (holds a) n pc (ground (arith, tokens a)) in
      let held = holds-eq a (pc found.0) found.2 in
      let same = one_key held.0 k a (mapped found.0 held.0 a (ap target held.1)) (mapped i k a t) in
      (found.0, found.1, subst (λ c. pc found.0 ≡ holding c a) same held.1)

  pub holder-full : (i a : ℕ) {k : Text} → pc i ≡ holding k a → (m.heap a).full ≡ true
  holder-full i a {k} h = ground (
    arith,
    tokens a,
    weight-le-sum (holds a) n i pc (moves_inside i (λ e. ground arith)),
    ap (holds a) h,
    ==_iff a a,
    Bool-cases (m.heap a).full,
  )

  pub only_holder : (i j a b : ℕ) {k : Text} → pc i ≡ holding k a → pc j ≡ holding k b → i ≡ j
  only_holder i j a b {k} hi hj = ground (
    arith,
    mapped i k a (ap target hi),
    mapped j k b (ap target hj),
    sum_only (holds a) n i j pc (moves_inside i (λ e. ground arith))
        (moves_inside j (λ e. ground arith)),
    tokens a,
    ap (holds a) hi,
    ap (holds a) hj,
    Bool-cases (m.heap a).full,
  )

  user_of_key :
      (k : Text) (a : ℕ) → lookup k m.locks ≡ some a → (i : ℕ) × (target (pc i) ≡ some (k, a))
  user_of_key k a h =
      let found = sum_member (refers a) n pc (ground (arith, counted a, used k a h)) in
      let user = refers-eq a (target (pc found.0)) found.2 in
      let same = one_key user.0 k a (mapped found.0 user.0 a user.1) h in
      (found.0, subst (λ c. target (pc found.0) ≡ some (c, a)) same user.1)

-- Whatever the order of their steps, two callers never hold the lock of one key together.
pub locks_exclude :
    {n : ℕ} {s : System}
    → Reach n s
    → (i j : ℕ) (k : Text) (a b : ℕ) → s.pc i ≡ holding k a
    → s.pc j ≡ holding k b
    → i ≡ j
locks_exclude r i j k a b hi hj = only_holder (Reach-IsConsistent r) i j a b hi hj

-- In every state that can be reached, the map of the lock manager has an entry for a key exactly
-- while a caller uses that key, and it is the lock of every such caller: no lock is left behind, and
-- none is removed or replaced under its callers.
pub locks_match_callers :
    {n : ℕ} {s : System}
    → Reach n s
    → (k : Text) (a : ℕ)
    → (lookup k s.manager.locks ≡ some a) ↔ ((i : ℕ) × (target (s.pc i) ≡ some (k, a)))
locks_match_callers r k a =
    (user_of_key (Reach-IsConsistent r) k a, λ u. (Reach-IsConsistent r).mapped u.0 k a u.1)
