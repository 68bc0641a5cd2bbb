-- ===== src/TrackDatabase.antt =====
-- backend/src/track_database.cpp: the two maps in memory and the statements that go to SQLite
-- (`Store`), what holds of the INSERTs and of the names (`Rows`, `Labels`), and of the tables (`Tables`).
pub mod Store
pub mod Rows
pub mod Tables
pub mod Labels
