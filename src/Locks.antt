-- ===== src/Locks.antt =====
-- Project locks: internal/service/project_locks.go.
pub mod Families
pub mod Manager
pub mod Callers
pub mod Invariant
pub mod Safety
pub mod Progress
pub mod Refinement
