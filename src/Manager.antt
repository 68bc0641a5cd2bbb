-- ===== src/Manager.antt =====
-- backend/src/receiver_manager.cpp: the calls on the receivers (`Calls`), the way to a worker (`Lookup`)
-- and what the calls leave alone (`Isolation`).
pub mod Calls
pub mod Lookup
pub mod Isolation
