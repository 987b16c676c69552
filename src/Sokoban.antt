-- ===== src/Sokoban.antt =====
-- client/games/sokoban.py and game_service/sokoban_history.py: the box-pushing game.
pub mod Play
pub mod Trail
pub mod Level
pub mod Session
pub mod Campaign
pub mod Win
pub mod Clear
pub mod Ledger
mod Tests
