-- ===== src/Update/Validation.antt =====
-- validateUpdateState and validUpdateOperationID of internal/service/update_state.go, lines 318-385.
-- At its end the source cuts the error text of its own copy of the state, which has no effect.
use redlaunch.Base.{
  ℕ, Bool, true, false, not, ◌&&◌, ◌||◌, ◌==◌, leb, if◌then◌else◌, Text, [], ◌∷◌, List, codes,
  text_eq, len, every_char, has, Result, ok, err,
}
use redlaunch.Base.Number.{int_eq, ℤ, pos, negsuc}
use redlaunch.Update.State.{UpdateState}
use redlaunch.Update.Phase

-- the errors of update_state.go, by their texts
pub data Error : Type 0 where
  schema_unsupported : Error
  revision_invalid : Error
  operation_invalid : Error
  owner_invalid : Error
  type_invalid : Error
  phase_invalid : Error
  phase_not_owned : Error
  incomplete : Error
  not_regular : Error
  too_large : Error
  state_invalid : Error
  changed_concurrently : Error
  busy : Error  -- ErrUpdateBusy
  lock_invalid : Error
  lock_foreign : Error
  input_output : Error  -- from package os

abbrev pub schema_version : ℤ
schema_version = pos 1

abbrev pub max_revision : ℕ
max_revision = 1000000

unfoldable pub revision_in_range : ℤ → Bool
revision_in_range (pos n) = leb 1 n && leb n max_revision
revision_in_range (negsuc n) = false

unfoldable pub id_character : ℕ → Bool
id_character c =
    (leb b'a' c && leb c b'z')
    || (leb b'A' c && leb c b'Z')
    || (leb b'0' c && leb c b'9')
    || c == b'-'
    || c == b'_'

unfoldable pub valid_update_operation_id : Text → Bool
valid_update_operation_id value =
    not (text_eq value []) && leb (len value) 128 && every_char id_character value

abbrev pub manager : Text
manager = codes "manager"

abbrev pub helper : Text
helper = codes "helper"

abbrev pub operation_type : Text
operation_type = codes "release-update"

abbrev pub manager_phases : List Text
manager_phases = Phase.preparing ∷ Phase.downloading ∷ Phase.verified ∷ Phase.loaded ∷ []

abbrev pub helper_phases : List Text
helper_phases = Phase.restart_queued ∷ Phase.recreating ∷ Phase.verifying ∷ []

abbrev pub final_phases : List Text
final_phases = Phase.complete ∷ Phase.failed ∷ Phase.uncertain ∷ []

unfoldable pub known_phase : Text → Bool
known_phase phase = has phase manager_phases || has phase helper_phases || has phase final_phases

-- the second switch on the phase
unfoldable pub owns_phase : Text → Text → Bool
owns_phase owner phase =
    if has phase manager_phases
    then text_eq owner manager
    else if has phase helper_phases
    then text_eq owner helper
    else true

unfoldable pub validate_update_state : UpdateState → Result Error Unit
validate_update_state s =
    if not (int_eq s.schema schema_version)
    then err schema_unsupported
    else if not (revision_in_range s.revision)
    then err revision_invalid
    else if not (valid_update_operation_id s.operation_id)
    then err operation_invalid
    else if not (text_eq s.owner manager) && not (text_eq s.owner helper)
    then err owner_invalid
    else if not (text_eq s.kind operation_type)
    then err type_invalid
    else if not (known_phase s.phase)
    then err phase_invalid
    else if not (owns_phase s.owner s.phase)
    then err phase_not_owned
    else if text_eq s.phase Phase.complete && (text_eq s.target_image_id [] || text_eq s.version [])
    then err incomplete
    else ok tt
