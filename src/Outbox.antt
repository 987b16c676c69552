-- ===== src/Outbox.antt =====
-- game_service/local_backend.py: the journal of pending local state, `PersistentStateOutbox`.
pub mod Shape
pub mod Values
pub mod Operation
pub mod Resolve
pub mod Components
pub mod Absorb
pub mod Dominance
pub mod Kept
pub mod Again
mod Tests
pub mod Order
pub mod Latest
