-- ===== src/Registry/Retention.antt =====
-- registry_retention.go. A map to bool is a list of its true keys where the code ranges over it, and
-- a function from keys to values where it does not; a missing key has the zero value.
pub mod Select
pub mod Graph
pub mod Sweep
pub mod Plan
