-- ===== src/Tetris/Lines.antt =====
-- Writing a piece and clearing lines keep the size of the board; what clearing removes.
use classic_games.Prelude.{
  ℕ, zero, suc, ◌+◌, ◌*◌, ◌≡◌, refl, ap, ◌∙◌, true, false, Option, none, some, List, [], ◌∷◌, ◌++◌,
  length, replicate, length-set, length-append, length-replicate, All, All-append, if_intro, ◌==◌,
  arith, not, ◌&&◌,
}
use classic_games.Prelude.Int.{pos, pos_part, ltb_ℤ}
use classic_games.Points.{Point}
use classic_games.Tetris.Shapes.{Kind}
use classic_games.Tetris.Board.{
  Row, Grid, cols, rows, empty_row, set_in, write_cell, write_cells, is_full, cleared, kept,
  clear_rows,
}
use classic_games.Tetris.Play.{Game, clear_lines}

-- the board of the game, 10 columns wide
abbrev pub IsWide : Grid → Type 0
IsWide = All (λ row. length row ≡ cols)

abbrev pub IsOpen : Grid → Type 0
IsOpen = All (λ row. is_full row ≡ false)

length-set_in : (b : Grid) (y x : ℕ) (c : Option Kind) → length (set_in b y x c) ≡ length b
length-set_in [] y x c = refl
length-set_in (row ∷ b) zero x c = refl
length-set_in (row ∷ b) (suc y) x c = ap suc (length-set_in b y x c)

set_in-IsWide : (b : Grid) (y x : ℕ) (c : Option Kind) → IsWide b → IsWide (set_in b y x c)
set_in-IsWide [] y x c h = h
set_in-IsWide (row ∷ b) zero x c (h, t) = (length-set row x c ∙ h, t)
set_in-IsWide (row ∷ b) (suc y) x c (h, t) = (h, set_in-IsWide b y x c t)

-- the size of a board
abbrev pub IsSized : Grid → Type 0
IsSized b = (length b ≡ rows) × IsWide b

set_in-IsSized : (b : Grid) (y x : ℕ) (c : Option Kind) → IsSized b → IsSized (set_in b y x c)
set_in-IsSized b y x c (h, w) = (length-set_in b y x c ∙ h, set_in-IsWide b y x c w)

write_cell-IsSized : (k : Kind) (p : Point) (b : Grid) → IsSized b → IsSized (write_cell k p b)
unfolding write_cell
write_cell-IsSized k (x, y) b h =
    if_intro IsSized (not (ltb_ℤ y (pos 0)) && ltb_ℤ y (pos rows))
      (set_in b (pos_part y) (pos_part x) (some k)) b
      (λ _. set_in-IsSized b (pos_part y) (pos_part x) (some k) h) (λ _. h)

pub write_cells-IsSized :
    (k : Kind) (cs : List Point) (b : Grid) → IsSized b → IsSized (write_cells k cs b)
unfolding write_cells
write_cells-IsSized k [] b h = h
write_cells-IsSized k (p ∷ cs) b h =
    write_cells-IsSized k cs (write_cell k p b) (write_cell-IsSized k p b h)

length-kept : (b : Grid) → cleared b + length (kept b) ≡ length b
unfolding cleared kept
length-kept [] = refl
length-kept (row ∷ b) = ground (arith, length-kept b)

kept-IsWide : (b : Grid) → IsWide b → IsWide (kept b)
unfolding kept
kept-IsWide [] h = h
kept-IsWide (row ∷ b) (h, t) =
    if_intro IsWide (is_full row) _ _ (λ _. kept-IsWide b t) (λ _. (h, kept-IsWide b t))

kept-IsOpen : (b : Grid) → IsOpen (kept b)
unfolding kept
kept-IsOpen [] = tt
kept-IsOpen (row ∷ b) =
    if_intro IsOpen (is_full row) _ _ (λ _. kept-IsOpen b) (λ e. (e, kept-IsOpen b))

pub All-replicate {ℓ κ} :
    {A : Type ℓ} (P : A → Type κ) (n : ℕ) {a : A} → P a → All P (replicate n a)
All-replicate P zero p = tt
All-replicate P (suc n) p = (p, All-replicate P n p)

pub clear_rows-IsSized : (b : Grid) → IsSized b → IsSized (clear_rows b)
unfolding clear_rows
clear_rows-IsSized b (h, w) = (
  length-append (replicate (cleared b) empty_row) (kept b)
      ∙ (ap (λ n. n + length (kept b)) (length-replicate (cleared b) empty_row)
          ∙ (length-kept b ∙ h)),
  All-append (λ row. length row ≡ cols) _ _
      (All-replicate (λ row. length row ≡ cols) (cleared b) refl) (kept-IsWide b w),
)

pub clear_rows-IsOpen : (b : Grid) → IsOpen (clear_rows b)
unfolding clear_rows is_full
clear_rows-IsOpen b =
    All-append (λ row. is_full row ≡ false) _ _
      (All-replicate (λ row. is_full row ≡ false) (cleared b) refl) (kept-IsOpen b)

-- the blocks of a row and of a board
unfoldable pub blocks_in : Row → ℕ
blocks_in [] = 0
blocks_in (none ∷ row) = blocks_in row
blocks_in (some _ ∷ row) = suc (blocks_in row)

unfoldable pub blocks : Grid → ℕ
blocks [] = 0
blocks (row ∷ b) = blocks_in row + blocks b

full-blocks_in : (row : Row) → is_full row ≡ true → blocks_in row ≡ length row
unfolding is_full blocks_in
full-blocks_in [] e = refl
full-blocks_in (none ∷ row) e = cc
full-blocks_in (some _ ∷ row) e = ap suc (full-blocks_in row e)

blocks-kept : (b : Grid) → IsWide b → blocks (kept b) + cols * cleared b ≡ blocks b
unfolding kept cleared blocks
blocks-kept [] h = refl
blocks-kept (row ∷ b) (h, t) = ground (arith, blocks-kept b t, full-blocks_in row)

blocks-empty : (n : ℕ) (b : Grid) → blocks (replicate n empty_row ++ b) ≡ blocks b
unfolding blocks blocks_in
blocks-empty zero b = refl
blocks-empty (suc n) b = omega (arith, blocks-empty n b)

blocks-clear_rows : (b : Grid) → IsWide b → blocks (clear_rows b) + 10 * cleared b ≡ blocks b
unfolding clear_rows
blocks-clear_rows b w = omega (arith, blocks-empty (cleared b) (kept b), blocks-kept b w)

-- On a board of twenty rows of ten cells, `_clear_lines` leaves no full row, keeps the size of the
-- board, and takes ten blocks for each line that it counts.
pub clear_lines-blocks :
    (g : Game)
    → IsSized g.board
    → let h = clear_lines g in
      IsOpen h.board
      × IsSized h.board
      × (blocks h.board + 10 * h.lines ≡ blocks g.board + 10 * g.lines)
unfolding clear_lines
clear_lines-blocks g (h, w) =
    if_intro
      (λ (k : Game).
        IsOpen k.board
        × IsSized k.board
        × (blocks k.board + 10 * k.lines ≡ blocks g.board + 10 * g.lines))
      (cleared g.board == 0) _ _
      (λ none_full. (
        clear_rows-IsOpen g.board,
        clear_rows-IsSized g.board (h, w),
        ground (arith, blocks-clear_rows g.board w),
      ))
      (λ _. (
        clear_rows-IsOpen g.board,
        clear_rows-IsSized g.board (h, w),
        omega (arith, blocks-clear_rows g.board w),
      ))
