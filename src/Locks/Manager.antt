-- ===== src/Locks/Manager.antt =====
-- The lock manager's memory and the operations on it: projectLockManager, projectLock and the code
-- between m.mu.Lock and m.mu.Unlock of internal/service/project_locks.go, lines 15-124.
use redlaunch.Base.{
  ℕ, ◌+◌, ◌-◌, ◌==◌, if◌then◌else◌, Bool, true, false, ◌&&◌, Option, none, some, Text, [],
}
use redlaunch.Base.Assoc.{Table, lookup, insert, erase}
use redlaunch.Locks.Families.{put}

-- `refs` is an int in the source: it is counted down only by those that it counts.
pub record Lock : Type 0 where
  pub full : Bool  -- whether the token is in the channel `semaphore`, whose capacity is 1
  pub refs : ℕ

-- A `*projectLock` is an address. Addresses from `fresh` on have not been allocated.
pub record Manager : Type 0 where
  pub locks : Table ℕ
  pub heap : ℕ → Lock
  pub fresh : ℕ

abbrev pub new_lock : Lock
new_lock = record { full = false; refs = 0 }

abbrev pub new_manager : Manager
new_manager = record { locks = []; heap = λ a. new_lock; fresh = 0 }

-- `lock.refs++`
unfoldable pub add_reference : ℕ → Manager → Manager
unfolding put
add_reference a m = record m {
  heap = put a (record { full = (m.heap a).full; refs = (m.heap a).refs + 1 }) m.heap;
}

-- `lock = &projectLock{…}; m.locks[key] = lock`
unfoldable pub create : Text → Manager → Manager
unfolding put insert
create key m = record {
  locks = insert key m.fresh m.locks;
  heap = put m.fresh new_lock m.heap;
  fresh = m.fresh + 1;
}

-- the first critical section of acquire and tryAcquire
unfoldable pub attach_to : Text → Option ℕ → Manager → ℕ × Manager
unfolding add_reference create
attach_to key none m = (m.fresh, add_reference m.fresh (create key m))
attach_to key (some a) m = (a, add_reference a m)

unfoldable pub attach : Text → Manager → ℕ × Manager
unfolding attach_to lookup
attach key m = attach_to key (lookup key m.locks) m

-- `lock.semaphore <- struct{}{}` and `<-lock.semaphore`
unfoldable pub send : ℕ → Manager → Manager
unfolding put
send a m = record m { heap = put a (record { full = true; refs = (m.heap a).refs }) m.heap }

unfoldable pub receive : ℕ → Manager → Manager
unfolding put
receive a m = record m { heap = put a (record { full = false; refs = (m.heap a).refs }) m.heap }

unfoldable pub points_to : Option ℕ → ℕ → Bool
points_to none a = false
points_to (some b) a = a == b

-- `lock.refs--`
unfoldable pub drop_reference : ℕ → Manager → Manager
unfolding put
drop_reference a m = record m {
  heap = put a (record { full = (m.heap a).full; refs = (m.heap a).refs - 1 }) m.heap;
}

unfoldable pub release_reference : Text → ℕ → Manager → Manager
unfolding drop_reference erase lookup points_to
release_reference key a m =
    let counted = drop_reference a m in
    if (counted.heap a).refs == 0 && points_to (lookup key counted.locks) a
    then record counted { locks = erase key counted.locks }
    else counted
