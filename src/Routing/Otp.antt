-- ===== src/Routing/Otp.antt =====
-- services/routing/src/otp-provider: candidates from OpenTripPlanner.
pub mod Types
pub mod Times
pub mod Legs
pub mod Map
pub mod Provider
pub mod Dates
pub mod Readable
pub mod Measured
pub mod Passes
pub mod Laws
pub mod Counts
pub mod Answers
pub mod Search
mod Tests
