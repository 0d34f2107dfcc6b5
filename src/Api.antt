-- ===== src/Api.antt =====
-- apps/api/src: the caches and the histogram of the API.
pub mod MemoryCache
pub mod Latency
pub mod SwrCache
