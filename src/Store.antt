-- ===== src/Store.antt =====
-- game_service/store.py: `LocalGameStore`, its scores.
pub mod Attempts
pub mod Record
pub mod Rows
pub mod Ledger
pub mod Retry
mod Tests
