-- ===== src/Update/Store.antt =====
-- The state file: readState and writeState of internal/service/update_state.go, lines 179-313, under
-- withStoreLock. encoding/json is a parameter.
use redlaunch.Base.{
  ℕ, zero, suc, ◌+◌, ◌-◌, ◌*◌, not, ◌&&◌, ◌==◌, leb, ltb, if◌then◌else◌, Text, [], ◌∷◌, ◌++◌,
  text_eq, len, rune_len, Option, none, some, Result, ok, err, ◌>>=◌,
}
use redlaunch.Base.Number.{int_eq, ℤ, pos, negsuc}
use redlaunch.Update.State.{UpdateState, terminal}
use redlaunch.Update.Validation.{
  Error, not_regular, too_large, state_invalid, changed_concurrently, busy, schema_version,
  validate_update_state,
}
use redlaunch.Update.Files.{File, absent, regular, irregular, Disk, write_managed_file, change}

-- json.Marshal and json.Unmarshal at UpdateState
pub record Codec : Type 0 where
  pub marshal : UpdateState → Option Text
  pub unmarshal : Text → Option UpdateState

abbrev pub max_bytes : ℕ
max_bytes = 64 * 1024

unfoldable pub decoded : Option UpdateState → Result Error (Option UpdateState)
decoded none = err state_invalid
decoded (some s) = validate_update_state s >>= λ _. ok (some s)

unfoldable pub read_state : Codec → File → Result Error (Option UpdateState)
read_state codec absent = ok none
read_state codec irregular = err not_regular
read_state codec (regular contents) =
    if ltb max_bytes (len contents) then err too_large else decoded (codec.unmarshal contents)

unfoldable pub repeat : ℕ → ℕ → Text
repeat zero c = []
repeat (suc n) c = c ∷ repeat n c

-- `s[:n]` as json.Marshal writes it: each byte of a character that is cut becomes U+FFFD.
unfoldable pub cut_bytes : ℕ → Text → Text
cut_bytes n [] = []
cut_bytes n (c ∷ s) =
    let rest = cut_bytes (n - rune_len c) s in
    if leb (rune_len c) n then c ∷ rest else repeat n 0xFFFD

-- what a call to writeState fills in
unfoldable pub prepared : ℕ → UpdateState → UpdateState
prepared now s = record s {
  schema = if int_eq s.schema (pos 0) then schema_version else s.schema;
  updated_at = if s.updated_at == 0 then now else s.updated_at;
  failure = if ltb 2048 (len s.failure) then cut_bytes 2048 s.failure else s.failure;
}

unfoldable pub increment : ℤ → ℤ
increment (pos n) = pos (n + 1)
increment (negsuc zero) = pos 0
increment (negsuc (suc n)) = negsuc n

unfoldable pub first_revision : ℤ → Result Error ℤ
first_revision r =
    if not (int_eq r (pos 0)) && not (int_eq r (pos 1))
    then err changed_concurrently
    else ok (pos 1)

-- the switch of writeStateLocked
unfoldable pub next_revision : Option UpdateState → UpdateState → Result Error ℤ
next_revision none next = first_revision next.revision
next_revision (some current) next =
    if not (text_eq current.operation_id next.operation_id)
    then (if not (terminal current) then err busy else first_revision next.revision)
    else if not (int_eq next.revision current.revision)
    then err changed_concurrently
    else ok (increment current.revision)

unfoldable pub sized : Option Text → Result Error Text
sized none = err state_invalid
sized (some contents) = if ltb max_bytes (len contents) then err state_invalid else ok contents

-- the state to be written and its text
unfoldable pub planned : Codec → UpdateState → ℤ → Result Error (UpdateState × Text)
planned codec s revision =
    let next = record s { revision = revision } in
    validate_update_state next >>= λ _.
    sized (codec.marshal next) >>= λ contents. ok (next, contents)

unfoldable pub written : UpdateState → Result Error Unit × File → Result Error UpdateState × File
written next (err e, file) = (err e, file)
written next (ok _, file) = (ok next, file)

unfoldable pub commit :
    Disk → File → Result Error (UpdateState × Text) → Result Error UpdateState × File
commit disk file (err e) = (err e, file)
commit disk file (ok (next, contents)) =
    written next (write_managed_file disk (contents ++ b'\n' ∷ []) file)

-- On success the caller's state becomes the one that is returned.
unfoldable pub write_state :
    Codec → (now : ℕ) → Disk → UpdateState → File → Result Error UpdateState × File
write_state codec now disk s file =
    let next = prepared now s in
    commit disk file (
      read_state codec file >>= λ current.
      next_revision current next >>= λ revision. planned codec next revision)

unfoldable pub clear_state : Disk → File → Result Error Unit × File
clear_state disk absent = (ok tt, absent)
clear_state disk file = change disk file absent
