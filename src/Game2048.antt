-- ===== src/Game2048.antt =====
-- client/games/game_2048.py: the sliding-tile game.
pub mod Board
pub mod Line
pub mod Slide
pub mod Play
pub mod Tick
pub mod CanMove
pub mod Invariant
pub mod Outcome
mod Tests
