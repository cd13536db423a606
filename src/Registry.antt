-- ===== src/Registry.antt =====
-- internal/application: the managed local registry. Its names (registry.go), the grouping of its
-- images into versions (versions.go) and the retention policy (registry_retention.go).
pub mod Types
pub mod Names
pub mod Versions
pub mod Retention
