-- ===== src/Locks/Invariant/Steps.antt =====
-- Every step keeps the memory consistent, so it is in every state that can be reached.
use redlaunch.Base.{ℕ, ◌<◌, ◌≡◌, refl, arith, Option, none, some, Text}
use redlaunch.Base.Assoc.{lookup}
use redlaunch.Locks.Families.{put, sum-zero}
use redlaunch.Locks.Manager.{Manager, attach, attach_to}
use redlaunch.Locks.Callers.{
  Pc, Move, idle, refuse, acquire, try_acquire, go_on, ended, admit, cancel, admit_at_once, busy,
  give_up, release, detach, System, init, Step, by, Reach, start, next,
}
use redlaunch.Locks.Invariant.Defs.{target, refers, holds, IsConsistent}
use redlaunch.Locks.Invariant.Moves.{Mover, mover, still, joined, opened, taken, freed, left}

module _ {n : ℕ} {m : Manager} {pc : ℕ → Pc} (inv : IsConsistent n m pc) (i : ℕ) (lt : i < n) where
  attached_to :
      {q : Pc} (k : Text) (o : Option ℕ)
      → lookup k m.locks ≡ o
      → Mover inv i lt idle q
      → target q ≡ some (k, (attach_to k o m).0)
      → ((b : ℕ) → holds b q ≡ 0)
      → IsConsistent n (attach_to k o m).1 (put i q pc)
  unfolding attach_to
  attached_to k none l f e h = opened inv i lt k f e h l
  attached_to k (some a) l f e h = joined inv i lt k a f e h l

  moved :
      {p q : Pc} {m' : Manager}
      → Mover inv i lt p q
      → Move m p m' q
      → IsConsistent n m' (put i q pc)
  unfolding attach
  moved f refuse = still inv i lt f refl (λ b. refl)
  moved f (acquire {key} _) = attached_to key (lookup key m.locks) refl f refl (λ b. refl)
  moved f (try_acquire {key} _) = attached_to key (lookup key m.locks) refl f refl (λ b. refl)
  moved f go_on = still inv i lt f refl (λ b. refl)
  moved f ended = still inv i lt f refl (λ b. refl)
  moved f (admit {key} {a} l) = taken inv i lt key a f refl (λ b. refl) l
  moved f cancel = still inv i lt f refl (λ b. refl)
  moved f (admit_at_once {key} {a} l) = taken inv i lt key a f refl (λ b. refl) l
  moved f (busy l) = still inv i lt f refl (λ b. refl)
  moved f (give_up {key} {a}) = left inv i lt key a f refl (λ b. refl)
  moved f (release {key} {a} l) = freed inv i lt key a f l
  moved f (detach {key} {a}) = left inv i lt key a f refl (λ b. refl)

-- A step of any caller keeps the memory of the lock manager consistent: the references to a lock are
-- the callers that use it, its token is in the channel while one of them holds it, and a key that a
-- caller uses stands in the map with the lock of that caller.
pub Step-IsConsistent :
    {n : ℕ} {s t : System}
    → IsConsistent n s.manager s.pc
    → Step n s t
    → IsConsistent n t.manager t.pc
Step-IsConsistent {s = s} inv (by i {m} {p} lt mv) = moved inv i lt (mover inv i lt p) mv

init-IsConsistent : (n : ℕ) → IsConsistent n init.manager init.pc
unfolding lookup
init-IsConsistent n = record {
  counted = λ a. ground (arith, sum-zero (refers a) n init.pc (λ i. refl));
  tokens = λ a. ground (arith, sum-zero (holds a) n init.pc (λ i. refl));
  mapped = λ i k a r. cc;
  used = λ k a r. ground arith;
  one_key = λ k j a r t. ground arith;
  unused = λ a r. (refl, refl);
  outside = λ i r. refl;
}

-- The memory of the lock manager is consistent in every state that its callers can reach.
pub Reach-IsConsistent : {n : ℕ} {s : System} → Reach n s → IsConsistent n s.manager s.pc
Reach-IsConsistent {n} start = init-IsConsistent n
Reach-IsConsistent (next r st) = Step-IsConsistent (Reach-IsConsistent r) st
