-- ===== src/Config.antt =====
-- The configuration file: internal/config/dotenv.go.
pub mod DotEnv
pub mod Quoting
pub mod Precedence
