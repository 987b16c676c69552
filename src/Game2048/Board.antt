-- ===== src/Game2048/Board.antt =====
-- client/games/game_2048.py: tiles, the board, and the tests that only read it. The board is a
-- function of row and column. The source's list `tiles` holds the same objects as the board, and
-- during a slide also the merged-away ones, which `Game2048.Slide` keeps in a list of their own.
-- The drawing timers `spawn_progress` and `merge_pop` are left out.
use classic_games.Prelude.{
  ℕ, zero, suc, ◌<◌, ◌≡◌, ◌+◌, ◌%◌, max, Bool, true, false, ◌&&◌, ◌||◌, Option, none, some, List,
  [], ◌∷◌, ◌++◌, length, get_elem?, ltb, ◌==◌, if◌then◌else◌,
}

abbrev pub size : ℕ
size = 4

pub record Tile : Type 0 where
  pub value : ℕ
  pub target_value : ℕ
  pub row : ℕ
  pub col : ℕ
  pub from_row : ℕ
  pub from_col : ℕ
  pub dead : Bool

-- Tile(value=v, row=r, col=c) with __post_init__
abbrev pub new_tile : ℕ → ℕ → ℕ → Tile
new_tile v r c = record {
  value = v;
  target_value = v;
  row = r;
  col = c;
  from_row = r;
  from_col = c;
  dead = false;
}

abbrev pub Grid : Type 0
Grid = ℕ → ℕ → Option Tile

abbrev pub empty_grid : Grid
empty_grid r c = none

-- grid[r][c] = t
abbrev pub set_cell : Grid → ℕ → ℕ → Tile → Grid
set_cell g r c t i j = if i == r && j == c then some t else g i j

-- for i in range(n): some p(i)
abbrev pub any_below : ℕ → (ℕ → Bool) → Bool
any_below zero p = false
any_below (suc n) p = any_below n p || p n

abbrev pub any_cell : (ℕ → ℕ → Bool) → Bool
any_cell p = any_below size (λ r. any_below size (λ c. p r c))

abbrev pub is_none : Option Tile → Bool
is_none none = true
is_none (some t) = false

-- both cells hold tiles of one value
abbrev pub same_value : Option Tile → Option Tile → Bool
same_value (some t) (some n) = n.value == t.value
same_value (some t) none = false
same_value none n = false

unfoldable pub can_move : Grid → Bool
can_move g =
    any_cell (λ r c. is_none (g r c))
    || any_cell (λ r c.
      ltb (c + 1) size && same_value (g r c) (g r (c + 1))
      || ltb (r + 1) size && same_value (g r c) (g (r + 1) c))

-- Σ over the cells of a board, row by row
abbrev pub sum_below : ℕ → (ℕ → ℕ) → ℕ
sum_below zero f = 0
sum_below (suc n) f = sum_below n f + f n

abbrev pub value_of : Option Tile → ℕ
value_of none = 0
value_of (some t) = t.value

-- the value that a tile takes when the slide ends
abbrev pub target_of : Option Tile → ℕ
target_of none = 0
target_of (some t) = t.target_value

-- the sum of a weight over the cells of a board
abbrev pub board_sum : (Option Tile → ℕ) → Grid → ℕ
board_sum w g = sum_below size (λ r. sum_below size (λ c. w (g r c)))

-- A tile at rest knows its cell, and has no merge pending.
abbrev pub AtRest : ℕ → ℕ → Option Tile → Type 0
AtRest r c none = Unit
AtRest r c (some t) = (t.row ≡ r) × (t.col ≡ c) × (t.target_value ≡ t.value) × (t.dead ≡ false)

pub record IsSettled (g : Grid) : Type 0 where
  pub at : (r c : ℕ) → r < size → c < size → AtRest r c (g r c)

-- the cells in reading order that the test accepts
abbrev pub cells_where : (ℕ → ℕ → Bool) → List (ℕ × ℕ)
cells_where p = rows size
  where
    cols : ℕ → ℕ → List (ℕ × ℕ)
    cols r zero = []
    cols r (suc c) = cols r c ++ (if p r c then (r, c) ∷ [] else [])

    rows : ℕ → List (ℕ × ℕ)
    rows zero = []
    rows (suc r) = rows r ++ cols r size

-- What the random generator answers: `pick` for `choice`, `four` for `random() >= 0.9`.
pub record Draw : Type 0 where
  pub pick : ℕ
  pub four : Bool

-- rng.choice(cells): an element of the sequence
abbrev pub choice : Draw → List (ℕ × ℕ) → Option (ℕ × ℕ)
choice d l = get_elem? l (d.pick % length l)

unfoldable pub spawn_tile : Draw → Grid → Bool × Grid
spawn_tile d g = elim (choice d (cells_where (λ r c. is_none (g r c)))) [
  | none ↦ (false, g)
  | some (i, j) ↦ (true, set_cell g i j (new_tile (if d.four then 4 else 2) i j))
]

max_row : Grid → ℕ → ℕ → ℕ
max_row g r zero = 0
max_row g r (suc c) = max (max_row g r c) (value_of (g r c))

max_rows : Grid → ℕ → ℕ
unfolding max_row
max_rows g zero = 0
max_rows g (suc r) = max (max_rows g r) (max_row g r size)

unfoldable pub max_tile : Grid → ℕ
unfolding max_rows
max_tile g = max_rows g size
