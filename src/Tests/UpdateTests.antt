-- ===== src/Tests/UpdateTests.antt =====
-- internal/service/update_state.go at one operation: two writers, and the lock.
use redlaunch.Base.{
  some_injective, ◌≤◌, ◌≡◌, refl, arith, false, Text, [], ◌∷◌, List, codes, text_eq, len, rune_len,
  every_char, trim_space, split, has, some, ok, err, if◌then◌else◌, All, subst, ◌++◌,
}
use redlaunch.Base.Number.{int_eq, pos}
use redlaunch.Update.Phase
use redlaunch.Update.State.{UpdateState, terminal}
use redlaunch.Update.Validation.{
  input_output, changed_concurrently, busy, revision_in_range, id_character,
  valid_update_operation_id, manager, operation_type, known_phase, owns_phase,
  validate_update_state,
}
use redlaunch.Update.Files.{File, absent, regular, done, unsynced, change, write_managed_file}
use redlaunch.Update.Store.{
  Codec, read_state, decoded, prepared, increment, next_revision, sized, planned, written, commit,
  write_state, max_bytes,
}
use redlaunch.Update.Lock.{
  created, unsynced_lock, acquire, create_lock, read_lock, lock_lines, owner_line,
  valid_update_lock_owner, prune, is_update_owner,
}
use redlaunch.Update.Writers.{Outcome, write_state_outcomes}
use redlaunch.Update.Races.{ReadsBack, second_writer_fails}
use redlaunch.Update.Validity.{IsValid, read_state-IsValid}
use redlaunch.Update.LockTexts.{read_lock-acquire}
use redlaunch.Update.Exclusion.{
  Call, acquire_call, release_call, remove_call, answer, run, KeepsOff, IsOthers, Refused,
  lock_exclusive,
}

abbrev current : UpdateState
current = record {
  schema = pos 1;
  revision = pos 1;
  operation_id = codes "op-1";
  owner = manager;
  kind = operation_type;
  phase = Phase.preparing;
  version = codes "v1.2.0";
  commit = [];
  deployment_contract = pos 1;
  previous_image_id = [];
  target_image_id = [];
  runtime_image = [];
  install_dir = [];
  compose_file = [];
  project_name = [];
  manager_container = [];
  helper_name = [];
  download_path = [];
  started_at = 5;
  updated_at = 5;
  finished_at = 0;
  failure = [];
  notified = false;
  acknowledged = false;
}

-- The one goes on with the download, the other gives up.
abbrev downloading : UpdateState
downloading = record current { phase = Phase.downloading }

abbrev giving_up : UpdateState
giving_up = record current { phase = Phase.failed }

abbrev downloading_stored : UpdateState
downloading_stored = record downloading { revision = pos 2 }

abbrev first_text : Text
first_text = codes "1"

abbrev codec : Codec
codec = record {
  marshal = λ s. some (codes "2");
  unmarshal = λ t. if text_eq t first_text then some current else some downloading_stored;
}

abbrev before : File
before = regular first_text

abbrev after : File
after = regular (codes "2\n")

first_write : write_state codec 9 done downloading before ≡ (ok downloading_stored, after)
unfolding write_state commit read_state len decoded text_eq validate_update_state int_eq
    revision_in_range valid_update_operation_id every_char id_character known_phase has owns_phase
    next_revision prepared planned rune_len change write_managed_file terminal increment sized
    written
first_write = refl

before_read : read_state codec before ≡ ok (some current)
unfolding read_state len rune_len decoded text_eq validate_update_state int_eq revision_in_range
    valid_update_operation_id every_char id_character known_phase has owns_phase
before_read = refl

downloading-ReadsBack : ReadsBack codec downloading_stored
unfolding len rune_len text_eq
downloading-ReadsBack contents e =
    subst
      (λ c.
        (len (c ++ b'\n' ∷ []) ≤ max_bytes)
        × (codec.unmarshal (c ++ b'\n' ∷ []) ≡ some downloading_stored))
      (some_injective e) (ground arith, refl)

second_writer_fails_example :
    write_state codec 9 done giving_up after ≡ (err changed_concurrently, after)
second_writer_fails_example =
    second_writer_fails codec before after current downloading giving_up downloading_stored 9 9 done
      done before_read refl refl refl first_write downloading-ReadsBack

write_state_outcomes_example :
    Outcome codec 9 unsynced downloading before (write_state codec 9 unsynced downloading before)
write_state_outcomes_example = write_state_outcomes codec 9 unsynced downloading before

read_state-IsValid_example : IsValid current
read_state-IsValid_example = read_state-IsValid codec before current before_read

-- Another operation is refused while this one is not over.
other_operation :
    (write_state codec 9 done (record current { operation_id = codes "op-2" }) before).0 ≡ err busy
unfolding write_state commit read_state len decoded text_eq validate_update_state int_eq
    revision_in_range valid_update_operation_id every_char id_character known_phase has owns_phase
    next_revision prepared planned rune_len change write_managed_file terminal increment sized
    written
other_operation = refl

read_lock-acquire_example :
    ((acquire created (codes "op-1") manager absent).0 ≡ ok tt)
    × (read_lock (acquire created (codes "op-1") manager absent).1
        ≡ ok (some (codes "op-1", manager)))
unfolding valid_update_operation_id valid_update_lock_owner every_char id_character has text_eq len
    rune_len
read_lock-acquire_example = read_lock-acquire (codes "op-1") manager refl refl

abbrev prune_lock : File
prune_lock = regular (codes "op-7\nprune\n")

abbrev attempts : List Call
attempts =
    acquire_call created (codes "op-1") manager
    ∷ remove_call done
    ∷ release_call done (codes "op-1")
    ∷ []

prune_lock_read : read_lock prune_lock ≡ ok (some (codes "op-7", prune))
unfolding read_lock lock_lines len split trim_space valid_update_operation_id text_eq every_char
    id_character owner_line valid_update_lock_owner has
prune_lock_read = refl

keep_off : All (KeepsOff (codes "op-7") prune) attempts
unfolding is_update_owner text_eq
keep_off = (tt, (refl, (λ e. ground arith, tt)))

lock_exclusive_example :
    (run attempts prune_lock ≡ prune_lock)
    × ((call : Call)
        → IsOthers (codes "op-7") prune call
        → Refused prune_lock (answer call (run attempts prune_lock)))
lock_exclusive_example =
    lock_exclusive (codes "op-7") prune prune_lock attempts prune_lock_read keep_off

-- Where the directory cannot be synced, acquire fails and the lock stays.
acquire_unsynced :
    acquire unsynced_lock (codes "op-7") prune absent ≡ (err input_output, prune_lock)
unfolding acquire create_lock change text_eq trim_space valid_update_lock_owner has
acquire_unsynced = refl
