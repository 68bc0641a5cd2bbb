-- ===== src/Tracker.antt =====
-- backend/src/target_tracker.cpp: the targets (`Target`), the calls (`Calls`), what a message changes
-- (`Updates`) and what a snapshot leaves (`Snapshots`).
pub mod Target
pub mod Calls
pub mod Updates
pub mod Snapshots
