-- ===== src/Tetris/Board.antt =====
-- client/games/tetris.py: `Piece`, `_collides`, the writing of a piece and the board of `_clear_lines`.
use classic_games.Prelude.{
  ℕ, zero, suc, Bool, true, false, ◌&&◌, ◌||◌, not, Option, none, some, List, [], ◌∷◌, ◌++◌, map,
  get_elem?, set, replicate, if◌then◌else◌,
}
use classic_games.Prelude.Int.{ℤ, pos, negsuc, ◌+ℤ◌, pos_part, ltb_ℤ}
use classic_games.Points.{Point}
use classic_games.Tetris.Shapes.{Kind, shape}

abbrev pub cols : ℕ
cols = 10

abbrev pub rows : ℕ
rows = 20

abbrev pub Row : Type 0
Row = List (Option Kind)

abbrev pub Grid : Type 0
Grid = List Row

abbrev pub empty_row : Row
empty_row = replicate cols none

pub record Piece : Type 0 where
  pub kind : Kind
  pub rot : ℕ
  pub x : ℤ
  pub y : ℤ

-- Piece(kind)
abbrev pub new_piece : Kind → Piece
new_piece k = record { kind = k; rot = 0; x = pos 3; y = negsuc 0 }

abbrev pub place : ℤ → ℤ → ℤ → ℤ → ℕ × ℕ → Point
place x y dx dy (a, b) = ((x +ℤ pos a) +ℤ dx, (y +ℤ pos b) +ℤ dy)

unfoldable pub cells : Piece → ℤ → ℤ → ℕ → List Point
cells p dx dy r = map (place p.x p.y dx dy) (shape p.kind r)

-- piece.cells()
unfoldable pub cells_here : Piece → List Point
cells_here p = cells p (pos 0) (pos 0) p.rot

-- board[y][x] is not None, for a cell of the board
abbrev pub is_block : Option (Option Kind) → Bool
is_block (some (some _)) = true
is_block _ = false

abbrev pub block_in : Option Row → ℕ → Bool
block_in none x = false
block_in (some row) x = is_block (get_elem? row x)

unfoldable pub occupied : Grid → ℕ → ℕ → Bool
occupied b x y = block_in (get_elem? b y) x

unfoldable pub collides : Grid → List Point → Bool
collides b [] = false
collides b ((x, y) ∷ rest) =
    if ltb_ℤ x (pos 0) || not (ltb_ℤ x (pos cols)) || not (ltb_ℤ y (pos rows))
    then true
    else if not (ltb_ℤ y (pos 0)) && occupied b (pos_part x) (pos_part y)
    then true
    else collides b rest

-- the cells that overlap a block of the board, walls and floor apart
unfoldable pub blocked : Grid → List Point → Bool
blocked b [] = false
blocked b ((x, y) ∷ rest) =
    if not (ltb_ℤ x (pos 0))
      && ltb_ℤ x (pos cols)
      && not (ltb_ℤ y (pos 0))
      && ltb_ℤ y (pos rows)
      && occupied b (pos_part x) (pos_part y)
    then true
    else blocked b rest

abbrev pub set_in : Grid → ℕ → ℕ → Option Kind → Grid
set_in [] y x c = []
set_in (row ∷ b) zero x c = set row x c ∷ b
set_in (row ∷ b) (suc y) x c = row ∷ set_in b y x c

-- the loop of `_lock`; a piece that is locked fits, so its columns are those of the board
unfoldable pub write_cell : Kind → Point → Grid → Grid
write_cell k (x, y) b =
    if not (ltb_ℤ y (pos 0)) && ltb_ℤ y (pos rows)
    then set_in b (pos_part y) (pos_part x) (some k)
    else b

unfoldable pub write_cells : Kind → List Point → Grid → Grid
write_cells k [] b = b
write_cells k (p ∷ rest) b = write_cells k rest (write_cell k p b)

-- any(y < 0 for _, y in cells)
unfoldable pub topped_out : List Point → Bool
topped_out [] = false
topped_out ((x, y) ∷ rest) = ltb_ℤ y (pos 0) || topped_out rest

-- all(c is not None for c in row)
unfoldable pub is_full : Row → Bool
is_full [] = true
is_full (none ∷ row) = false
is_full (some _ ∷ row) = is_full row

-- the full rows, counted, and the others
unfoldable pub cleared : Grid → ℕ
cleared [] = 0
cleared (row ∷ b) = let n = cleared b in if is_full row then suc n else n

unfoldable pub kept : Grid → Grid
kept [] = []
kept (row ∷ b) = let rest = kept b in if is_full row then rest else row ∷ rest

-- the board of `_clear_lines`
unfoldable pub clear_rows : Grid → Grid
clear_rows b = replicate (cleared b) empty_row ++ kept b
