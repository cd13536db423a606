-- ===== src/Proxy.antt =====
-- The policies of the reverse proxy: internal/application/proxy_settings.go.
pub mod Settings
pub mod Inheritance
pub mod Validation
pub mod Validity
