-- ===== src/Locks/Progress.antt =====
-- The lock manager never leaves a caller waiting for a lock that nobody can give it.
use redlaunch.Base.{
  ℕ, ◌<◌, ◌≤◌, ◌≡◌, arith, inl, inr, true, false, Text, suc, ==_iff, Bool-cases, ap, subst, sym,
  ◌≢◌,
}
use redlaunch.Locks.Families.{put}
use redlaunch.Locks.Manager.{Manager, receive, send}
use redlaunch.Locks.Callers.{
  Pc, Move, waiting, holding, releasing, admit, release, System, Step, by, Reach,
}
use redlaunch.Locks.Invariant.{target, IsConsistent, Reach-IsConsistent}
use redlaunch.Locks.Safety.{moves_inside, full-holder}

-- A number of steps, one after the other.
pub data Run (n : ℕ) (s : System) : ℕ → System → Type 0 where
  stay : Run n s 0 s
  then_step : {steps : ℕ} {t u : System} → Run n s steps t → Step n t u → Run n s (suc steps) u

receive-full : (a : ℕ) (m : Manager) → ((receive a m).heap a).full ≡ false
unfolding receive put
receive-full a m = ground arith

put_self : (i : ℕ) (p : Pc) (pc : ℕ → Pc) → put i p pc i ≡ p
unfolding put
put_self i p pc = ground arith

put_other : (i j : ℕ) (p q r : Pc) (pc : ℕ → Pc) → pc i ≡ p → pc j ≡ q → p ≢ q → put j r pc i ≡ p
unfolding put
put_other i j p q r pc hi hj d = ground (arith, ==_iff j i)

module _ (s : System) (i : ℕ) (k : Text) (a : ℕ) where
  open s use {manager, pc}

  admitted : System
  admitted = record { manager = send a manager; pc = put i (holding k a) pc }

  freed : System
  freed = record { manager = receive a manager; pc = put i (releasing k a) pc }

  admit_now :
      {n : ℕ} → i < n → pc i ≡ waiting k a → (manager.heap a).full ≡ false → Step n s admitted
  unfolding admitted
  admit_now lt h e =
      by i lt (subst (λ p. Move manager p (send a manager) (holding k a)) (sym h) (admit e))

  release_now : {n : ℕ} → i < n → pc i ≡ holding k a → (manager.heap a).full ≡ true → Step n s freed
  unfolding freed
  release_now lt h e =
      by i lt (subst (λ p. Move manager p (receive a manager) (releasing k a)) (sym h) (release e))

module _ {n : ℕ} {s : System} (inv : IsConsistent n s.manager s.pc) (i : ℕ) (k : Text) (a : ℕ)
    (h : s.pc i ≡ waiting k a) where
  inside : i < n
  inside = moves_inside inv i (λ e. ground arith)

  at_once : (s.manager.heap a).full ≡ false → (t : System) × Run n s 1 t × (t.pc i ≡ holding k a)
  unfolding admitted
  at_once e = (
    admitted s i k a,
    then_step stay (admit_now s i k a inside h e),
    put_self i (holding k a) s.pc,
  )

  after_release :
      (s.manager.heap a).full ≡ true → (t : System) × Run n s 2 t × (t.pc i ≡ holding k a)
  unfolding admitted freed
  after_release e =
      let (j, b, held) = full-holder inv i a (ap target h) e in
      let mid = freed s j k a in
      (
        admitted mid i k a,
        then_step (then_step stay (release_now s j k a b held e)) (
            admit_now mid i k a inside
              (put_other i j (waiting k a) (holding k a) (releasing k a) s.pc h held
                (λ d. ground arith))
              (receive-full a s.manager)),
        put_self i (holding k a) mid.pc,
      )

-- From every state that can be reached, a caller that waits in acquire can come to hold its lock in
-- at most two steps.
pub waiting_can_end :
    {n : ℕ} {s : System}
    → Reach n s
    → (i : ℕ) (k : Text) (a : ℕ) → s.pc i ≡ waiting k a
    → (steps : ℕ) × (steps ≤ 2) × (t : System) × Run n s steps t × (t.pc i ≡ holding k a)
waiting_can_end {s = s} r i k a h =
    let inv = Reach-IsConsistent r in
    elim (Bool-cases (s.manager.heap a).full) [
      | inl e ↦ let (t, run, held) = after_release inv i k a h e in (2, omega arith, t, run, held)
      | inr e ↦ let (t, run, held) = at_once inv i k a h e in (1, omega arith, t, run, held)
    ]
