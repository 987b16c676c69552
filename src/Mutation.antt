-- ===== src/Mutation.antt =====
-- game_service/mutation.py and game_service/profile.py: a submitted score, checked and normalized.
pub mod Normalize
pub mod Bounds
pub mod Normal
mod Tests
