-- ===== src/Game2048/Slide.antt =====
-- client/games/game_2048.py: the part of `_move` that slides the four lines. One value carries what
-- the loops change: the new grid, the merged-away tiles, the score, and the flags.
pub mod Cells
pub mod Total
pub mod Moved
pub mod Still
pub mod Placed
use mathlib.Core.List.{reverse}
use package.classic_games.Prelude.{
  ℕ, zero, suc, ◌+◌, ◌-◌, ◌*◌, Bool, true, false, ◌&&◌, ◌||◌, not, Option, none, some, List, [],
  ◌∷◌, ◌++◌, ◌==◌,
}
use package.classic_games.Game2048.Board.{Tile, Grid, size, set_cell, empty_grid}
use package.classic_games.Game2048.Line.{LineSlot, process_line}

pub data Direction : Type 0 where
  left right up down : Direction

-- grid position of slot `k` of line `fixed`: slot 0 is nearest to the destination edge
abbrev pub dest : Direction → ℕ → ℕ → ℕ × ℕ
dest left fixed k = (fixed, k)
dest right fixed k = (fixed, size - 1 - k)
dest up fixed k = (k, fixed)
dest down fixed k = (size - 1 - k, fixed)

-- [t for t in cells if t is not None]
abbrev pub somes : List (Option Tile) → List Tile
somes [] = []
somes (none ∷ cells) = somes cells
somes (some t ∷ cells) = t ∷ somes cells

abbrev pub row_tiles : Grid → ℕ → List Tile
row_tiles g r = somes (g r 0 ∷ g r 1 ∷ g r 2 ∷ g r 3 ∷ [])

abbrev pub col_tiles : Grid → ℕ → List Tile
col_tiles g c = somes (g 0 c ∷ g 1 c ∷ g 2 c ∷ g 3 c ∷ [])

-- the tiles of a line, first the one that is nearest to the destination edge
unfoldable pub line_tiles : Grid → Direction → ℕ → List Tile
line_tiles g left r = row_tiles g r
line_tiles g right r = reverse (row_tiles g r)
line_tiles g up c = col_tiles g c
line_tiles g down c = reverse (col_tiles g c)

pub record Sliding : Type 0 where
  pub cells : Grid
  pub fading : List Tile
  pub score : ℕ
  pub won : Bool
  pub moved : Bool

abbrev pub has_moved : Tile → Bool
has_moved t = not (t.row == t.from_row && t.col == t.from_col)

abbrev pub put_at : ℕ × ℕ → Tile → Tile
put_at (r, c) t = record t { row = r; col = c }

-- the tile of a slot after the placement, with the value that it takes when the slide ends
abbrev pub placed : ℕ × ℕ → LineSlot → Tile
placed p s = doubled s.source (put_at p s.tile)
  where
    doubled : Option Tile → Tile → Tile
    doubled none t = t
    doubled (some _) t = record t { target_value = t.value * 2 }

abbrev pub dying : ℕ × ℕ → Tile → Tile
dying p s = record (put_at p s) { dead = true }

pub place_source : ℕ × ℕ → Option Tile → Tile → Sliding → Sliding
place_source p none t b = b
place_source p (some s) t b = record b {
  fading = b.fading ++ dying p s ∷ [];
  score = b.score + t.target_value;
  won = b.won || t.target_value == 2048;
  moved = b.moved || has_moved (dying p s);
}

pub place_slot : ℕ × ℕ → LineSlot → Sliding → Sliding
unfolding place_source
place_slot p s b =
    let t = placed p s in
    place_source p s.source t
      (record b { cells = set_cell b.cells p.0 p.1 t; moved = b.moved || has_moved t })

pub place_slots : Direction → ℕ → ℕ → List LineSlot → Sliding → Sliding
unfolding place_slot
place_slots d fixed k [] b = b
place_slots d fixed k (s ∷ slots) b =
    place_slots d fixed (suc k) slots (place_slot (dest d fixed k) s b)

-- the first `n` lines
pub slide_lines : Direction → Grid → ℕ → Sliding → Sliding
unfolding place_slots
slide_lines d g zero b = b
slide_lines d g (suc n) b =
    place_slots d n 0 (process_line (line_tiles g d n)) (slide_lines d g n b)

-- t.from_row, t.from_col = t.row, t.col; t.dead = False
abbrev pub settle_from : Option Tile → Option Tile
settle_from none = none
settle_from (some t) = some (record t { from_row = t.row; from_col = t.col; dead = false })

abbrev pub reset_from : Grid → Grid
reset_from g r c = settle_from (g r c)

unfoldable pub slide : Direction → Grid → ℕ → Bool → Sliding
unfolding slide_lines
slide d g score won =
    slide_lines d (reset_from g) size
      (record { cells = empty_grid; fading = []; score = score; won = won; moved = false })
