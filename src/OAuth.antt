-- ===== src/OAuth.antt =====
-- The authorization server for MCP clients and the API tokens: internal/application/oauth.go and
-- api_tokens.go (types and texts), internal/store/oauth.go and api_tokens.go (tables),
-- internal/service/oauth.go (the server) and internal/service/api_tokens.go.
pub mod Types
pub mod Texts
pub mod Store
pub mod Server
pub mod ApiTokens
