-- ===== src/OAuth/Store.antt =====
-- internal/store/oauth.go and api_tokens.go: the tables, with the constraints and the cascades of the
-- schema (internal/store/store.go). A transaction that fails leaves the tables as they were.
pub mod Tables
pub mod Tokens
pub mod Grants
pub mod Rows
pub mod Distinct
pub mod Sound
pub mod Granting
pub mod Transactions
