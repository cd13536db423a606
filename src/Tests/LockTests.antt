-- ===== src/Tests/LockTests.antt =====
-- The lock manager's theorems at two callers that want the lock of one key.
use redlaunch.Base.{
  ℕ, ◌≤◌, ◌≡◌, ◌↔◌, refl, arith, Text, [], none, some, codes, ◌≢◌, text_eq, text_eq_iff,
  if◌then◌else◌, subst, sym, true,
}
use redlaunch.Base.Assoc.{lookup, insert, erase}
use redlaunch.Locks.Families.{put}
use redlaunch.Locks.Manager.{
  Manager, new_manager, attach, attach_to, add_reference, create, send, receive,
}
use redlaunch.Locks.Callers.{
  Pc, Move, arriving, waiting, holding, releasing, acquire, go_on, admit, release, System, init, by,
  Reach, start, next,
}
use redlaunch.Locks.Invariant.{target}
use redlaunch.Locks.Safety.{locks_exclude, locks_match_callers}
use redlaunch.Locks.Progress.{Run, waiting_can_end}
use redlaunch.Locks.Refinement.{Owners, Event, Shows, locks_refine_mutexes}

abbrev key : Text
key = codes "application:7"

key_given : key ≢ []
key_given e = ground arith

module _ (m : Manager) (pc : ℕ → Pc) where
  abbrev arrive : ℕ → System
  arrive i = record { manager = (attach key m).1; pc = put i (arriving key 0) pc }

  abbrev wait : ℕ → System
  wait i = record { manager = m; pc = put i (waiting key 0) pc }

  abbrev hold : ℕ → System
  hold i = record { manager = send 0 m; pc = put i (holding key 0) pc }

-- Caller 0 has the lock, and caller 1 waits for it.
abbrev arrived : System
arrived = arrive new_manager init.pc 0

abbrev queued : System
queued = wait arrived.manager arrived.pc 0

abbrev held_by_first : System
held_by_first = hold queued.manager queued.pc 0

abbrev second_arrived : System
second_arrived = arrive held_by_first.manager held_by_first.pc 1

abbrev contended : System
contended = wait second_arrived.manager second_arrived.pc 1

held_by_first_reached : Reach 2 held_by_first
unfolding attach attach_to add_reference create put insert erase lookup
held_by_first_reached =
    next
      (next (next start (by 0 (omega arith) (acquire {key = key} key_given)))
        (by 0 (omega arith) go_on))
      (by 0 (omega arith) (admit refl))

contended_reached : Reach 2 contended
unfolding attach attach_to add_reference create put insert erase lookup send text_eq
contended_reached =
    next (next held_by_first_reached (by 1 (omega arith) (acquire {key = key} key_given)))
      (by 1 (omega arith) go_on)

contended_holder : contended.pc 0 ≡ holding key 0
unfolding put
contended_holder = refl

contended_waiter : contended.pc 1 ≡ waiting key 0
unfolding put
contended_waiter = refl

locks_exclude_example : ◌≡◌ {A = ℕ} 0 0
locks_exclude_example =
    locks_exclude contended_reached 0 0 key 0 0 contended_holder contended_holder

contended_full : (contended.manager.heap 0).full ≡ true
unfolding attach attach_to add_reference create put insert erase lookup send text_eq
contended_full = refl

locks_match_callers_example :
    (lookup key contended.manager.locks ≡ some 0)
    ↔ ((i : ℕ) × (target (contended.pc i) ≡ some (key, 0)))
locks_match_callers_example = locks_match_callers contended_reached key 0

waiting_can_end_example :
    (steps : ℕ) × (steps ≤ 2) × (t : System) × Run 2 contended steps t × (t.pc 1 ≡ holding key 0)
waiting_can_end_example = waiting_can_end contended_reached 1 key 0 contended_waiter

-- The first caller gives its lock up in the table in which it owns the key.
abbrev owned_by_first : Owners
owned_by_first k = if text_eq key k then some 0 else none

owned_by_first_shown : Shows owned_by_first contended.pc
unfolding put
owned_by_first_shown k i =
    (λ e. ground (arith, text_eq_iff key k), λ e. ground (arith, text_eq_iff key k))

locks_refine_mutexes_example :
    (after : Owners) × Event 0 owned_by_first (contended.pc 0) (releasing key 0) after
    × Shows after (put 0 (releasing key 0) contended.pc)
locks_refine_mutexes_example =
    locks_refine_mutexes contended_reached owned_by_first owned_by_first_shown 0 (
      subst (λ p. Move contended.manager p (receive 0 contended.manager) (releasing key 0))
        (sym contended_holder) (release contended_full))
