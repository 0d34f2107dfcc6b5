-- ===== src/Data/Gtfs.antt =====
-- services/data/src/static: GTFS files, from their text to tables that are checked.
pub mod Csv
pub mod Parse
pub mod Validate
mod Tests
