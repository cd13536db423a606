-- ===== src/Update.antt =====
-- The durable state of a self-update and the lock of the installation:
-- internal/service/update_state.go, with the record of internal/application/update.go.
pub mod Phase
pub mod State
pub mod Validation
pub mod Files
pub mod Store
pub mod Lock
pub mod Writers
pub mod Races
pub mod Validity
pub mod LockTexts
pub mod Exclusion
