-- ===== src/Update/State.antt =====
-- UpdateState of internal/application/update.go, lines 91-123. A phase is a text, as in the file.
use redlaunch.Base.{ℕ, Bool, ◌||◌, Text, text_eq}
use redlaunch.Update.Phase
use redlaunch.Base.Number.{ℤ}

-- A time is the nanoseconds since the zero time.
pub record UpdateState : Type 0 where
  pub schema : ℤ
  pub revision : ℤ
  pub operation_id : Text
  pub owner : Text
  pub kind : Text  -- Type
  pub phase : Text
  pub version : Text
  pub commit : Text
  pub deployment_contract : ℤ
  pub previous_image_id : Text
  pub target_image_id : Text
  pub runtime_image : Text
  pub install_dir : Text
  pub compose_file : Text
  pub project_name : Text
  pub manager_container : Text
  pub helper_name : Text
  pub download_path : Text
  pub started_at : ℕ
  pub updated_at : ℕ
  pub finished_at : ℕ
  pub failure : Text  -- Error
  pub notified : Bool
  pub acknowledged : Bool

unfoldable pub terminal : UpdateState → Bool
terminal s =
    text_eq s.phase Phase.complete
    || text_eq s.phase Phase.failed
    || text_eq s.phase Phase.uncertain
