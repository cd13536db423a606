-- ===== src/Locks/Invariant/Defs.antt =====
-- How the memory of the lock manager and the places of its callers fit together.
use redlaunch.Base.{ℕ, ◌≤◌, ◌<◌, ◌≡◌, ◌==◌, if◌then◌else◌, false, Option, none, some, Text}
use redlaunch.Base.Assoc.{lookup}
use redlaunch.Locks.Families.{sum}
use redlaunch.Locks.Manager.{Manager}
use redlaunch.Locks.Callers.{Pc, idle, arriving, waiting, trying, leaving, holding, releasing}

-- the key and the lock that a caller works with
abbrev pub target : Pc → Option (Text × ℕ)
target idle = none
target (arriving k a) = some (k, a)
target (waiting k a) = some (k, a)
target (trying k a) = some (k, a)
target (leaving k a) = some (k, a)
target (holding k a) = some (k, a)
target (releasing k a) = some (k, a)

abbrev pub refers_at : ℕ → Option (Text × ℕ) → ℕ
refers_at a none = 0
refers_at a (some (k, b)) = if b == a then 1 else 0

-- 1 for a caller that uses the lock
abbrev pub refers : ℕ → Pc → ℕ
refers a p = refers_at a (target p)

-- 1 for a caller that holds the lock
abbrev pub holds : ℕ → Pc → ℕ
holds a (holding k b) = if b == a then 1 else 0
holds a _ = 0

-- The references to a lock are the callers that use it, and its token is in the channel while one
-- of them holds it; a key stays in the map as long as a caller uses it, with the lock of that caller.
pub record IsConsistent (n : ℕ) (m : Manager) (pc : ℕ → Pc) : Type 0 where
  pub counted : (a : ℕ) → (m.heap a).refs ≡ sum (refers a) n pc
  pub tokens : (a : ℕ) → (if (m.heap a).full then 1 else 0) ≡ sum (holds a) n pc
  pub mapped : (i : ℕ) (k : Text) (a : ℕ) → target (pc i) ≡ some (k, a) → lookup k m.locks ≡ some a
  pub used : (k : Text) (a : ℕ) → lookup k m.locks ≡ some a → 0 < (m.heap a).refs
  pub one_key : (k j : Text) (a : ℕ) → lookup k m.locks ≡ some a → lookup j m.locks ≡ some a → k ≡ j
  pub unused : (a : ℕ) → m.fresh ≤ a → ((m.heap a).refs ≡ 0) × ((m.heap a).full ≡ false)
  pub outside : (i : ℕ) → n ≤ i → pc i ≡ idle
