-- ===== src/Tetris.antt =====
-- client/games/tetris.py: falling pieces, rotation with kicks, clearing of lines, the frame loop and
-- the keys that are held.
pub mod Shapes
pub mod Board
pub mod Play
pub mod Clock
pub mod Lines
pub mod Fit
pub mod Run
pub mod Landing
pub mod Bag
mod Tests
