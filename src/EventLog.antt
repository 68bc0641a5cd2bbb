-- ===== src/EventLog.antt =====
-- backend/src/jsonl_logger.cpp: the lines of the log (`Lines`), the files (`Logger`), and what holds
-- of these.
pub mod Lines
pub mod Logger
pub mod Reading
pub mod Rotation
