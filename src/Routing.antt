-- ===== src/Routing.antt =====
-- services/routing/src: the constraint layer over a candidate provider.
pub mod Types
pub mod Satisfaction
pub mod Validate
pub mod Ranking
pub mod Fingerprint
pub mod Explanation
pub mod Otp
pub mod Search
pub mod Samples
