-- ===== src/Names.antt =====
-- backend/src/name_database.cpp: the table from an ICAO address or MMSI to a name, kept in a flat
-- JSON file.
pub mod Json
pub mod Database
pub mod Quoting
pub mod Reload
pub mod Roundtrip
pub mod History
pub mod Fuel
