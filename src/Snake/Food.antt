-- ===== src/Snake/Food.antt =====
-- Food comes to free cells of the board.
use classic_games.Prelude.{
  ℕ, zero, suc, ◌≤◌, ◌<◌, ◌≡◌, refl, Bool, true, false, Option, none, some, List, [], ◌∷◌,
  get_elem?, if◌then◌else◌, All, All-append, arith,
}
use classic_games.Prelude.Int.{pos}
use classic_games.Points.{Point, contains}
use classic_games.Snake.{cols, rows, outside, empty_row, empty_cells, spawn_food}

abbrev pub IsFree : List Point → Point → Type 0
IsFree body p = (contains body p ≡ false) × (outside p ≡ false)

abbrev pub FoodFree : List Point → Option Point → Type 0
FoodFree body none = Unit
FoodFree body (some p) = IsFree body p

inside : (x y : ℕ) → x < cols → y < rows → outside (pos x, pos y) ≡ false
unfolding outside
inside x y hx hy = ground arith

if_IsFree :
    (body : List Point) (p : Point)
    → outside p ≡ false
    → All (IsFree body) (if contains body p then [] else p ∷ [])
if_IsFree body p h = free (contains body p) refl
  where
    free : (b : Bool) → contains body p ≡ b → All (IsFree body) (if b then [] else p ∷ [])
    free true e = tt
    free false e = ((e, h), tt)

empty_row-IsFree :
    (body : List Point) (y n : ℕ) → y < rows → n ≤ cols → All (IsFree body) (empty_row body y n)
unfolding empty_row
empty_row-IsFree body y zero hy hn = tt
empty_row-IsFree body y (suc x) hy hn =
    All-append (IsFree body) (empty_row body y x) _ (empty_row-IsFree body y x hy (omega arith))
      (if_IsFree body (pos x, pos y) (inside x y (omega arith) hy))

empty_cells-IsFree : (body : List Point) (n : ℕ) → n ≤ rows → All (IsFree body) (empty_cells body n)
unfolding empty_cells
empty_cells-IsFree body zero hn = tt
empty_cells-IsFree body (suc y) hn =
    All-append (IsFree body) (empty_cells body y) _ (empty_cells-IsFree body y (omega arith))
      (empty_row-IsFree body y cols (omega arith) (omega arith))

chosen :
    (body : List Point) (l : List Point) (i : ℕ)
    → All (IsFree body) l
    → FoodFree body (get_elem? l i)
chosen body [] i h = tt
chosen body (p ∷ l) zero h = h.0
chosen body (p ∷ l) (suc i) h = chosen body l i h.1

-- Whatever the random generator answers, new food lies on the board and not on the snake.
pub spawn_food-IsFree : (pick : ℕ) (body : List Point) → FoodFree body (spawn_food pick body)
unfolding spawn_food
spawn_food-IsFree pick body =
    chosen body (empty_cells body rows) _ (empty_cells-IsFree body rows (omega arith))
