-- ===== src/Locks/Callers.antt =====
-- Callers of the lock manager, interleaved in any order. One caller is one call of acquire or
-- tryAcquire and the lease that it returns; a goroutine with two leases is two callers. The steps of a
-- caller are the accesses to shared memory of internal/service/project_locks.go: the critical sections
-- of `mu` and the operations on the channel. A context may end at any moment.
use redlaunch.Base.{ℕ, ◌<◌, ◌≡◌, ◌≢◌, true, false, Text, []}
use redlaunch.Locks.Families.{put}
use redlaunch.Locks.Manager.{Manager, new_manager, attach, send, receive, release_reference}

-- Where a caller stands, with the key and the address of its lock.
pub data Pc : Type 0 where
  idle : Pc  -- no lease, or one that is released
  arriving : (key : Text) (lock : ℕ) → Pc  -- acquire, before its second look at the context
  waiting : (key : Text) (lock : ℕ) → Pc  -- acquire, at its select
  trying : (key : Text) (lock : ℕ) → Pc  -- tryAcquire, at its select
  leaving : (key : Text) (lock : ℕ) → Pc  -- before the releaseReference of a failed call
  holding : (key : Text) (lock : ℕ) → Pc  -- has a lease that is not released
  releasing : (key : Text) (lock : ℕ) → Pc  -- release, before its releaseReference

pub data Move (m : Manager) : Pc → Manager → Pc → Type 0 where
  -- a call that fails at once (no key, the context has ended), or the second release of a lease
  refuse : Move m idle m idle
  acquire : {key : Text} → key ≢ [] → Move m idle (attach key m).1 (arriving key (attach key m).0)
  try_acquire : {key : Text} → key ≢ [] → Move m idle (attach key m).1 (trying key (attach key m).0)
  go_on : {key : Text} {a : ℕ} → Move m (arriving key a) m (waiting key a)
  ended : {key : Text} {a : ℕ} → Move m (arriving key a) m (leaving key a)
  admit :
      {key : Text} {a : ℕ}
      → (m.heap a).full ≡ false
      → Move m (waiting key a) (send a m) (holding key a)
  cancel : {key : Text} {a : ℕ} → Move m (waiting key a) m (leaving key a)
  admit_at_once :
      {key : Text} {a : ℕ}
      → (m.heap a).full ≡ false
      → Move m (trying key a) (send a m) (holding key a)
  busy : {key : Text} {a : ℕ} → (m.heap a).full ≡ true → Move m (trying key a) m (leaving key a)
  give_up : {key : Text} {a : ℕ} → Move m (leaving key a) (release_reference key a m) idle
  release :
      {key : Text} {a : ℕ}
      → (m.heap a).full ≡ true
      → Move m (holding key a) (receive a m) (releasing key a)
  detach : {key : Text} {a : ℕ} → Move m (releasing key a) (release_reference key a m) idle

pub record System : Type 0 where
  pub manager : Manager
  pub pc : ℕ → Pc

abbrev pub init : System
init = record { manager = new_manager; pc = λ i. idle }

-- One of the first `n` callers moves.
pub data Step (n : ℕ) (s : System) : System → Type 0 where
  by :
      (i : ℕ) {m : Manager} {p : Pc}
      → i < n
      → Move s.manager (s.pc i) m p
      → Step n s (record { manager = m; pc = put i p s.pc })

pub data Reach (n : ℕ) : System → Type 0 where
  start : Reach n init
  next : {s t : System} → Reach n s → Step n s t → Reach n t
