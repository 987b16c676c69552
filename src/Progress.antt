-- ===== src/Progress.antt =====
-- game_service/progress.py: the policies of stored campaign progress.
pub mod Policy
pub mod Canonical
pub mod Read
pub mod RoundTrip
pub mod Validate
pub mod Keep
pub mod Merge
pub mod Joins
pub mod Replay
mod Tests
