-- ===== src/Logging.antt =====
-- logging/logger.go
pub mod Logger
pub mod Laws
