-- ===== src/Data.antt =====
-- services/data/src: the state of the data service, from which routing takes its snapshots.
pub mod Types
pub mod Freshness
pub mod Realtime
pub mod Merge
pub mod Static
pub mod Gtfs
pub mod Lines
pub mod Import
pub mod Versions
pub mod Poller
pub mod Handle
mod Samples
