-- ===== src/Update/Lock.antt =====
-- The lock of the installation, a file that names the operation that holds it: acquire to
-- operationRunning of internal/service/update_state.go, lines 387-573, under withStoreLock.
use redlaunch.Base.{
  ℕ, Bool, true, false, not, ◌||◌, ltb, if◌then◌else◌, Text, [], ◌∷◌, ◌++◌, List, codes, text_eq,
  len, trim_space, split, has, Option, none, some, Result, ok, err, ◌>>=◌,
}
use redlaunch.Update.Validation.{
  Error, input_output, operation_invalid, busy, lock_invalid, lock_foreign,
  valid_update_operation_id, manager, helper,
}
use redlaunch.Update.Files.{File, absent, regular, irregular, Disk, change}

abbrev pub prune : Text
prune = codes "prune"

abbrev pub management_access : Text
management_access = codes "management-access"

unfoldable pub valid_update_lock_owner : Text → Bool
valid_update_lock_owner owner = has owner (manager ∷ helper ∷ prune ∷ management_access ∷ [])

-- `owner == "manager" || owner == "helper"`
unfoldable pub is_update_owner : Text → Bool
is_update_owner owner = text_eq owner manager || text_eq owner helper

abbrev pub newline : ℕ
newline = b'\n'

-- How the creation of the lock file ends: as asked; with an error when the file is opened; with one
-- when it is written, synced or closed, after which it is removed, or is left with what it holds where
-- the removal fails too; or with an error of the last step, the sync of the directory.
pub data Creation : Type 0 where
  created : Creation
  unopened : Creation
  undone : Creation
  unfinished : Text → Creation
  unsynced_lock : Creation

abbrev pub lock_text : Text → Text → Text
lock_text operation_id owner = operation_id ++ newline ∷ owner ++ newline ∷ []

abbrev pub lock_created : Creation → Text → Result Error Unit × File
lock_created created contents = (ok tt, regular contents)
lock_created unopened contents = (err input_output, absent)
lock_created undone contents = (err input_output, absent)
lock_created (unfinished partial) contents = (err input_output, regular partial)
lock_created unsynced_lock contents = (err input_output, regular contents)

unfoldable pub create_lock : Creation → Text → Text → File → Result Error Unit × File
create_lock disk operation_id owner absent = lock_created disk (lock_text operation_id owner)
create_lock disk operation_id owner (regular contents) = (err busy, regular contents)
create_lock disk operation_id owner irregular = (err busy, irregular)

unfoldable pub acquire : Creation → Text → Text → File → Result Error Unit × File
acquire disk operation_id owner file =
    if text_eq (trim_space operation_id) [] || not (valid_update_lock_owner owner)
    then (err operation_invalid, file)
    else create_lock disk operation_id owner file

-- the owner on the second line, or none
unfoldable pub owner_line : List Text → Result Error Text
owner_line [] = ok []
owner_line (line ∷ lines) =
    if valid_update_lock_owner (trim_space line) then ok (trim_space line) else err lock_invalid

unfoldable pub lock_lines : List Text → Result Error (Option (Text × Text))
lock_lines [] = err lock_invalid
lock_lines (line ∷ second ∷ third ∷ lines) = err lock_invalid
lock_lines (line ∷ lines) =
    if valid_update_operation_id (trim_space line)
    then (owner_line lines >>= λ owner. ok (some (trim_space line, owner)))
    else err lock_invalid

unfoldable pub read_lock : File → Result Error (Option (Text × Text))
read_lock absent = ok none
read_lock irregular = err lock_invalid
read_lock (regular contents) =
    if ltb 512 (len contents)
    then err lock_invalid
    else lock_lines (split newline (trim_space contents))

unfoldable pub held_by : Text → Option (Text × Text) → Result Error Unit
held_by operation_id none = err busy
held_by operation_id (some (current, owner)) =
    if not (text_eq current operation_id) || not (is_update_owner owner) then err busy else ok tt

unfoldable pub require_update_lock : Text → File → Result Error Unit
require_update_lock operation_id file = read_lock file >>= held_by operation_id

unfoldable pub ensured :
    Creation → Text → Text → File → Result Error (Option (Text × Text)) → Result Error Unit × File
ensured disk operation_id owner file (err e) = (err e, file)
ensured disk operation_id owner file (ok none) = create_lock disk operation_id owner file
ensured disk operation_id owner file (ok (some lock)) = (held_by operation_id (some lock), file)

unfoldable pub ensure_update_lock : Creation → Text → Text → File → Result Error Unit × File
ensure_update_lock disk operation_id owner file =
    if not (valid_update_operation_id operation_id) || not (is_update_owner owner)
    then (err operation_invalid, file)
    else ensured disk operation_id owner file (read_lock file)

unfoldable pub released :
    Disk → Text → File → Result Error (Option (Text × Text)) → Result Error Unit × File
released disk operation_id file (err e) = (err e, file)
released disk operation_id file (ok none) = (ok tt, file)
released disk operation_id file (ok (some (current, owner))) =
    if not (text_eq current operation_id) then (err lock_foreign, file) else change disk file absent

unfoldable pub release : Disk → Text → File → Result Error Unit × File
release disk operation_id file = released disk operation_id file (read_lock file)

unfoldable pub cleared :
    Disk → File → Result Error (Option (Text × Text)) → Result Error Unit × File
cleared disk file (err e) = (err e, file)
cleared disk file (ok none) = (ok tt, file)
cleared disk file (ok (some (current, owner))) =
    if not (is_update_owner owner) then (ok tt, file) else change disk file absent

unfoldable pub remove_orphaned_update_lock : Disk → File → Result Error Unit × File
remove_orphaned_update_lock disk file = cleared disk file (read_lock file)

unfoldable pub operation_running : File → Bool
operation_running absent = false
operation_running (regular contents) = true
operation_running irregular = true
