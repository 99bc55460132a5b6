-- ===== src/Storage.antt =====
-- The journal on its way to the database: fmtp_log, and the logger of ora_logger.
pub mod Decimal
pub mod Parts
pub mod Message
pub mod State
pub mod Oracle
pub mod Redis
pub mod Logger
pub mod Configurator
