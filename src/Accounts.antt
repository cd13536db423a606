-- ===== src/Accounts.antt =====
-- The users of the management interface: internal/store/local_users.go and
-- internal/service/users.go.
pub mod Table
pub mod Calls
pub mod Soundness
pub mod Moves
pub mod Keeping
pub mod Endings
