-- ===== src/Update/Exclusion.antt =====
-- Sequences of calls on the lock of the installation, by any operation and in any order. Each call holds
-- withStoreLock throughout, in the manager and in the helper alike.
use redlaunch.Base.{
  ◌≡◌, ◌≢◌, refl, sym, ap, inl, inr, Bool, true, false, not, ◌||◌, if◌then◌else◌, Text, [], ◌∷◌,
  text_eq, text_eq_iff, List, some, Result, ok, err, All, Bool-cases, trim_space,
}
use redlaunch.Update.Validation.{
  Error, busy, operation_invalid, lock_foreign, valid_update_operation_id,
}
use redlaunch.Update.Files.{File, absent, regular, irregular, Disk}
use redlaunch.Update.Lock.{
  Creation, acquire, create_lock, read_lock, require_update_lock, held_by, ensure_update_lock,
  ensured, release, released, remove_orphaned_update_lock, cleared, is_update_owner,
  valid_update_lock_owner,
}

pub data Call : Type 0 where
  acquire_call : Creation → Text → Text → Call
  ensure_call : Creation → Text → Text → Call
  require_call : Text → Call
  release_call : Disk → Text → Call
  remove_call : Disk → Call

unfoldable pub answer : Call → File → Result Error Unit × File
answer (acquire_call disk id owner) file = acquire disk id owner file
answer (ensure_call disk id owner) file = ensure_update_lock disk id owner file
answer (require_call id) file = (require_update_lock id file, file)
answer (release_call disk id) file = release disk id file
answer (remove_call disk) file = remove_orphaned_update_lock disk file

unfoldable pub run : List Call → File → File
run [] file = file
run (call ∷ calls) file = run calls (answer call file).1

-- an error, and the file as it was
abbrev pub Refused : File → Result Error Unit × File → Type 0
Refused file r = (e : Error) × (r ≡ (err e, file))

Refused-if :
    {file : File} {r r' : Result Error Unit × File} (b : Bool)
    → Refused file r
    → Refused file r'
    → Refused file (if b then r else r')
Refused-if true h h' = h
Refused-if false h h' = h'

Refused-same : {file : File} {r : Result Error Unit × File} → Refused file r → r.1 ≡ file
Refused-same (e, h) = ap (λ r. r.1) h

text_eq-differ : (s t : Text) → t ≢ s → text_eq s t ≡ false
text_eq-differ s t d = elim (Bool-cases (text_eq s t)) [
  | inl e ↦ absurd (d (sym ((text_eq_iff s t).0 e)))
  | inr e ↦ e
]

if_same :
    (r r' : Result Error Unit) {file : File} (b : Bool)
    → (if◌then◌else◌ {A = Result Error Unit × File} b (r, file) (r', file)).1 ≡ file
if_same r r' true = refl
if_same r r' false = refl

module _ (id owner : Text) where
  -- a call that has no right to end the lock of `id` and `owner`
  abbrev pub KeepsOff : Call → Type 0
  KeepsOff (acquire_call disk j o) = Unit
  KeepsOff (ensure_call disk j o) = Unit
  KeepsOff (require_call j) = Unit
  KeepsOff (release_call disk j) = j ≢ id
  KeepsOff (remove_call disk) = is_update_owner owner ≡ false

  -- a call that asks for the lock anew, or for what belongs to another operation
  abbrev pub IsOthers : Call → Type 0
  IsOthers (acquire_call disk j o) = Unit
  IsOthers (ensure_call disk j o) = j ≢ id
  IsOthers (require_call j) = j ≢ id
  IsOthers (release_call disk j) = j ≢ id
  IsOthers (remove_call disk) = ⊥

  create_lock-locked :
      (disk : Creation) (j o : Text) (file : File)
      → read_lock file ≡ ok (some (id, owner))
      → Refused file (create_lock disk j o file)
  unfolding create_lock read_lock
  create_lock-locked disk j o absent h = cc
  create_lock-locked disk j o (regular contents) h = (busy, refl)
  create_lock-locked disk j o irregular h = cc

  module _ (file : File) (h : read_lock file ≡ ok (some (id, owner))) where
    acquire-locked : (disk : Creation) (j o : Text) → Refused file (acquire disk j o file)
    unfolding acquire
    acquire-locked disk j o =
        Refused-if (text_eq (trim_space j) [] || not (valid_update_lock_owner o))
          (operation_invalid, refl) (create_lock-locked disk j o file h)

    ensured-locked :
        (disk : Creation) (j o : Text)
        → j ≢ id
        → Refused file (ensured disk j o file (ok (some (id, owner))))
    unfolding ensured held_by
    ensured-locked disk j o d = rw (text_eq-differ id j d) (busy, refl)

    ensure-locked :
        (disk : Creation) (j o : Text) → j ≢ id → Refused file (ensure_update_lock disk j o file)
    unfolding ensure_update_lock
    ensure-locked disk j o d =
        Refused-if (not (valid_update_operation_id j) || not (is_update_owner o))
          (operation_invalid, refl) (rw h (ensured-locked disk j o d))

    ensure_keeps : (disk : Creation) (j o : Text) → (ensure_update_lock disk j o file).1 ≡ file
    unfolding ensure_update_lock ensured
    ensure_keeps disk j o =
        rw h (if_same _ _ (not (valid_update_operation_id j) || not (is_update_owner o)))

    require-locked : (j : Text) → j ≢ id → Refused file (require_update_lock j file, file)
    unfolding require_update_lock held_by
    require-locked j d = rw (h, text_eq-differ id j d) (busy, refl)

    release-locked : (disk : Disk) (j : Text) → j ≢ id → Refused file (release disk j file)
    unfolding release released
    release-locked disk j d = rw (h, text_eq-differ id j d) (lock_foreign, refl)

    remove_keeps :
        (disk : Disk)
        → is_update_owner owner ≡ false
        → (remove_orphaned_update_lock disk file).1 ≡ file
    unfolding remove_orphaned_update_lock cleared
    remove_keeps disk d = rw (h, d) refl

    answer_keeps : (call : Call) → KeepsOff call → (answer call file).1 ≡ file
    unfolding answer
    answer_keeps (acquire_call disk j o) k = Refused-same (acquire-locked disk j o)
    answer_keeps (ensure_call disk j o) k = ensure_keeps disk j o
    answer_keeps (require_call j) k = refl
    answer_keeps (release_call disk j) k = Refused-same (release-locked disk j k)
    answer_keeps (remove_call disk) k = remove_keeps disk k

    answer-Refused : (call : Call) → IsOthers call → Refused file (answer call file)
    unfolding answer
    answer-Refused (acquire_call disk j o) k = acquire-locked disk j o
    answer-Refused (ensure_call disk j o) k = ensure-locked disk j o k
    answer-Refused (require_call j) k = require-locked j k
    answer-Refused (release_call disk j) k = release-locked disk j k
    answer-Refused (remove_call disk) k = elim k [ ]

    run_keeps : (calls : List Call) → All KeepsOff calls → run calls file ≡ file
    unfolding run
    run_keeps [] k = refl
    run_keeps (call ∷ calls) k = rw (answer_keeps call k.0) (run_keeps calls k.1)

-- While an operation holds the lock of the installation, it keeps it: after any calls among which it
-- does not release it, and which do not remove an orphaned lock if the owner is the manager or the
-- helper, the lock file is the same, and every further acquire fails, as does another operation's
-- ensureUpdateLock, requireUpdateLock or release, and leaves the file alone.
pub lock_exclusive :
    (id owner : Text) (file : File) (calls : List Call)
    → read_lock file ≡ ok (some (id, owner))
    → All (KeepsOff id owner) calls
    → (run calls file ≡ file)
      × ((call : Call) → IsOthers id owner call → Refused file (answer call (run calls file)))
lock_exclusive id owner file calls h k =
    let same = run_keeps id owner file h calls k in
    (same, λ call o. rw same (answer-Refused id owner file h call o))
