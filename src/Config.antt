-- ===== src/Config.antt =====
-- internal/config/dotenv.go and cmd/initproject/main.go: how a setting is written to `.env` and read again.
pub mod Dotenv
pub mod Laws
pub mod Lines
