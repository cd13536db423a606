-- ===== src/Locks/Refinement.antt =====
-- The lock manager implements a table of mutexes: which caller owns which key, and nothing else.
use redlaunch.Base.{
  ℕ, ◌≡◌, ◌↔◌, refl, arith, inl, inr, true, false, Text, ap, ◌∙◌, Option, none, some, Bool,
  if◌then◌else◌, text_eq, text_eq_iff, Option-cases,
}
use redlaunch.Locks.Families.{put}
use redlaunch.Locks.Manager.{Manager}
use redlaunch.Locks.Callers.{
  Pc, Move, idle, arriving, waiting, trying, leaving, holding, releasing, refuse, acquire,
  try_acquire, go_on, ended, admit, cancel, admit_at_once, busy, give_up, release, detach, System,
  Reach,
}
use redlaunch.Locks.Invariant.{target, IsConsistent, Reach-IsConsistent}
use redlaunch.Locks.Safety.{full-holder, holder-full}

-- the owner of each key
abbrev pub Owners : Type 0
Owners = Text → Option ℕ

unfoldable pub set_owner : Text → Option ℕ → Owners → Owners
set_owner k o owners j = if text_eq k j then o else owners j

-- the key that a caller holds
abbrev pub held : Pc → Option Text
held (holding k a) = some k
held _ = none

abbrev pub is_trying : Pc → Bool
is_trying (trying k a) = true
is_trying _ = false

-- What a caller may see: it gets a key that nobody owns, gives its own key up, hears from tryAcquire
-- that a key is busy while somebody owns it, or does something that the table does not record.
pub data Event (i : ℕ) (owners : Owners) : Pc → Pc → Owners → Type 0 where
  grant :
      {p : Pc} {k : Text} {a : ℕ}
      → target p ≡ some (k, a)
      → owners k ≡ none
      → Event i owners p (holding k a) (set_owner k (some i) owners)
  free :
      {k : Text} {a : ℕ}
      → owners k ≡ some i
      → Event i owners (holding k a) (releasing k a) (set_owner k none owners)
  deny :
      {k : Text} {a : ℕ} (j : ℕ)
      → owners k ≡ some j
      → Event i owners (trying k a) (leaving k a) owners
  other :
      {p q : Pc} → held p ≡ none → held q ≡ none → is_trying p ≡ false → Event i owners p q owners

-- The table shows who holds what.
abbrev pub Shows : Owners → (ℕ → Pc) → Type 0
Shows owners pc = (k : Text) (i : ℕ) → (owners k ≡ some i) ↔ (held (pc i) ≡ some k)

held-eq : (p : Pc) (k : Text) → held p ≡ some k → (a : ℕ) × (p ≡ holding k a)
held-eq (holding j a) k h = (a, ground arith)
held-eq idle k h = absurd (ground arith)
held-eq (arriving j a) k h = absurd (ground arith)
held-eq (waiting j a) k h = absurd (ground arith)
held-eq (trying j a) k h = absurd (ground arith)
held-eq (leaving j a) k h = absurd (ground arith)
held-eq (releasing j a) k h = absurd (ground arith)

module _ {n : ℕ} {m : Manager} {pc : ℕ → Pc} (inv : IsConsistent n m pc) (i : ℕ) (owners : Owners)
    (shown : Shows owners pc) where
  Outcome : Pc → Pc → Type 0
  Outcome p q = (after : Owners) × Event i owners p q after × Shows after (put i q pc)

  silent :
      {p : Pc} (q : Pc)
      → pc i ≡ p
      → held p ≡ none
      → held q ≡ none
      → is_trying p ≡ false
      → Outcome p q
  unfolding put Outcome
  silent {p} q h hp hq ht = (
    owners,
    other hp hq ht,
    λ k j. (λ e. ground (arith, shown k j), λ e. ground (arith, shown k j)),
  )

  nobody :
      {p : Pc} (k : Text) (a : ℕ)
      → pc i ≡ p
      → target p ≡ some (k, a)
      → (m.heap a).full ≡ false
      → owners k ≡ none
  nobody k a h t e = elim (Option-cases (owners k)) [
    | inl r ↦ r
    | inr (j, r) ↦
        let (b, hj) = held-eq (pc j) k ((shown k j).0 r) in
        absurd (
          ground (
            arith,
            inv.mapped j k b (ap target hj),
            inv.mapped i k a (ap target h ∙ t),
            holder-full inv j b hj,
          ))
  ]

  granted :
      {p : Pc} (k : Text) (a : ℕ)
      → pc i ≡ p
      → target p ≡ some (k, a)
      → owners k ≡ none
      → held p ≡ none
      → Outcome p (holding k a)
  unfolding put Outcome set_owner
  granted k a h t e hp = (
    set_owner k (some i) owners,
    grant t e,
    λ c j. (
      λ r. ground (arith, shown c j, text_eq_iff k c),
      λ r. ground (arith, shown c j, text_eq_iff k c),
    ),
  )

  given_up : (k : Text) (a : ℕ) → pc i ≡ holding k a → Outcome (holding k a) (releasing k a)
  unfolding put Outcome set_owner
  given_up k a h = (
    set_owner k none owners,
    free ((shown k i).1 (ap held h)),
    λ c j. (
      λ r. ground (arith, shown c j, text_eq_iff k c),
      λ r. ground (arith, shown c j, shown k j, shown k i, text_eq_iff k c),
    ),
  )

  taken :
      {p : Pc} (k : Text) (a : ℕ)
      → pc i ≡ p
      → target p ≡ some (k, a)
      → held p ≡ none
      → (m.heap a).full ≡ false
      → Outcome p (holding k a)
  taken k a h t hp e = granted k a h t (nobody k a h t e) hp

  denied :
      (k : Text) (a : ℕ)
      → pc i ≡ trying k a
      → (m.heap a).full ≡ true
      → Outcome (trying k a) (leaving k a)
  unfolding put Outcome
  denied k a h e =
      let (j, b, hj) = full-holder inv i a (ap target h) e in
      (
        owners,
        deny j ((shown k j).1 (ap held hj)),
        λ c l. (λ r. ground (arith, shown c l), λ r. ground (arith, shown c l)),
      )

  refined : {p q : Pc} {m' : Manager} → pc i ≡ p → Move m p m' q → Outcome p q
  refined h refuse = silent _ h refl refl refl
  refined h (acquire _) = silent _ h refl refl refl
  refined h (try_acquire _) = silent _ h refl refl refl
  refined h go_on = silent _ h refl refl refl
  refined h ended = silent _ h refl refl refl
  refined h (admit {key} {a} e) = taken key a h refl refl e
  refined h cancel = silent _ h refl refl refl
  refined h (admit_at_once {key} {a} e) = taken key a h refl refl e
  refined h (busy {key} {a} e) = denied key a h e
  refined h give_up = silent _ h refl refl refl
  refined h (release {key} {a} e) = given_up key a h
  refined h detach = silent _ h refl refl refl

-- The lock manager refines a table of mutexes. Given a reachable state and a table that shows which
-- caller holds the lock of which key, each move of a caller is an event of the table: it becomes the
-- owner of a key that nobody owned, gives up a key that it owns, is told by tryAcquire that a key is
-- busy while it has an owner, or, when it is not at the select of tryAcquire, goes on without holding
-- a key before or after; and the new table shows who holds what after the move.
pub locks_refine_mutexes :
    {n : ℕ} {s : System}
    → Reach n s
    → (owners : Owners) → Shows owners s.pc
    → (i : ℕ) {m : Manager} {p : Pc} → Move s.manager (s.pc i) m p
    → (after : Owners) × Event i owners (s.pc i) p after × Shows after (put i p s.pc)
unfolding Outcome
locks_refine_mutexes r owners shown i mv = refined (Reach-IsConsistent r) i owners shown refl mv
