-- ===== src/Auth.antt =====
-- Login with a password and signed sessions: internal/auth.
pub mod Limiter
pub mod Attempts
pub mod Throttle
pub mod Platform
pub mod Passwords
pub mod Hashes
pub mod Users
pub mod Sessions
pub mod Validation
pub mod Current
pub mod SessionTexts
pub mod AccountTexts
pub mod Acceptance
pub mod Login
