-- ===== src/Log.antt =====
-- components/log and internal/log: the loggers.
pub mod Default
pub mod Zap
