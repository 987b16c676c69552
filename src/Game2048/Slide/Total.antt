-- ===== src/Game2048/Slide/Total.antt =====
-- A slide keeps the sum of the board.
use classic_games.Prelude.{
  ℕ, ◌+◌, ◌≤◌, ◌<◌, ◌≡◌, refl, ap, ◌∙◌, Bool, Option, none, some, List, [], ◌∷◌, length, get_elem?,
  All, arith,
}
use mathlib.Core.Option
use classic_games.Game2048.Board.{
  Tile, Grid, size, value_of, target_of, board_sum, sum_below, IsSettled, AtRest,
}
use classic_games.Game2048.Line.{LineSlot, process_line}
use classic_games.Game2048.Line.Rule.{merge_rule, process_line-eq-merge_rule, length-process_line}
use classic_games.Game2048.Slide.{
  Direction, left, right, up, down, dest, line_tiles, slide, reset_from, settle_from, placed,
}
use classic_games.Game2048.Slide.Cells.{cell, cell-slide, length-line_tiles}

board_sum-lines :
    (w : Option Tile → ℕ) (d : Direction) (g : Grid)
    → board_sum w g ≡ sum_below size (λ i. sum_below size (λ j. w (cell d g i j)))
board_sum-lines w left g = refl
board_sum-lines w right g = omega arith
board_sum-lines w up g = omega arith
board_sum-lines w down g = omega arith

tile_sum : List Tile → ℕ
tile_sum [] = 0
tile_sum (t ∷ ts) = t.value + tile_sum ts

tile_sum-line_tiles :
    (d : Direction) (g : Grid) (i : ℕ)
    → tile_sum (line_tiles g d i) ≡ sum_below size (λ j. value_of (cell d g i j))
unfolding tile_sum line_tiles
tile_sum-line_tiles left g i = ground arith
tile_sum-line_tiles right g i = ground arith
tile_sum-line_tiles up g i = ground arith
tile_sum-line_tiles down g i = ground arith

slot_target : LineSlot → ℕ
slot_target s = target_of (some (placed (0, 0) s))

slot_sum : List LineSlot → ℕ
slot_sum [] = 0
slot_sum (s ∷ slots) = slot_target s + slot_sum slots

target_of-placed : (p : ℕ × ℕ) (s : LineSlot) → target_of (some (placed p s)) ≡ slot_target s
unfolding slot_target
target_of-placed p s = ground arith

abbrev slot_at : (ℕ → ℕ × ℕ) → List LineSlot → ℕ → Option Tile
slot_at p slots j = Option.map (placed (p j)) (get_elem? slots j)

slot_sum-places :
    (p : ℕ → ℕ × ℕ) (slots : List LineSlot)
    → length slots ≤ size
    → sum_below size (λ j. target_of (slot_at p slots j)) ≡ slot_sum slots
unfolding slot_sum
slot_sum-places p [] h = refl
slot_sum-places p (a ∷ []) h = omega (arith, target_of-placed (p 0) a)
slot_sum-places p (a ∷ b ∷ []) h = omega (arith, target_of-placed (p 0) a, target_of-placed (p 1) b)
slot_sum-places p (a ∷ b ∷ c ∷ []) h =
    omega (arith, target_of-placed (p 0) a, target_of-placed (p 1) b, target_of-placed (p 2) c)
slot_sum-places p (a ∷ b ∷ c ∷ e ∷ []) h = omega (
  arith,
  target_of-placed (p 0) a,
  target_of-placed (p 1) b,
  target_of-placed (p 2) c,
  target_of-placed (p 3) e,
)
slot_sum-places p (a ∷ b ∷ c ∷ e ∷ x ∷ rest) h = absurd (omega arith)

abbrev Rests : Tile → Type 0
Rests t = t.target_value ≡ t.value

slot_sum-merge_rule :
    (line : List Tile) → All Rests line → slot_sum (merge_rule line) ≡ tile_sum line
unfolding merge_rule slot_sum slot_target tile_sum
slot_sum-merge_rule [] h = refl
slot_sum-merge_rule (a ∷ []) h = omega arith
slot_sum-merge_rule (a ∷ b ∷ rest) h =
    ground (arith, slot_sum-merge_rule rest h.1.1, slot_sum-merge_rule (b ∷ rest) h.1)

abbrev CellRests : Option Tile → Type 0
CellRests o = target_of o ≡ value_of o

Rests-line_tiles :
    (d : Direction) (g : Grid) (i : ℕ)
    → ((j : ℕ) → j < size → CellRests (cell d g i j))
    → All Rests (line_tiles g d i)
unfolding line_tiles
Rests-line_tiles left g i h =
    ground (arith, h 0 (omega arith), h 1 (omega arith), h 2 (omega arith), h 3 (omega arith))
Rests-line_tiles right g i h =
    ground (arith, h 0 (omega arith), h 1 (omega arith), h 2 (omega arith), h 3 (omega arith))
Rests-line_tiles up g i h =
    ground (arith, h 0 (omega arith), h 1 (omega arith), h 2 (omega arith), h 3 (omega arith))
Rests-line_tiles down g i h =
    ground (arith, h 0 (omega arith), h 1 (omega arith), h 2 (omega arith), h 3 (omega arith))

CellRests-AtRest : (r c : ℕ) (o : Option Tile) → AtRest r c o → CellRests o
CellRests-AtRest r c none h = refl
CellRests-AtRest r c (some t) h = h.2

AtRest-settle_from : (r c : ℕ) (o : Option Tile) → AtRest r c o → AtRest r c (settle_from o)
AtRest-settle_from r c none h = h
AtRest-settle_from r c (some t) h = (h.0, h.1, h.2, refl)

pub reset_from-IsSettled : (g : Grid) → IsSettled g → IsSettled (reset_from g)
reset_from-IsSettled g h = record {
  at = λ r c hr hc. AtRest-settle_from r c (g r c) (h.at r c hr hc);
}

pub dest-lt :
    (d : Direction) (i j : ℕ)
    → i < size
    → j < size
    → ((dest d i j).0 < size) × ((dest d i j).1 < size)
dest-lt left i j hi hj = (hi, hj)
dest-lt right i j hi hj = omega arith
dest-lt up i j hi hj = (hj, hi)
dest-lt down i j hi hj = omega arith

value_of-settle_from : (o : Option Tile) → value_of (settle_from o) ≡ value_of o
value_of-settle_from none = refl
value_of-settle_from (some t) = refl

line_sum :
    (d : Direction) (g : Grid) (score : ℕ) (won : Bool) (i : ℕ)
    → IsSettled g
    → i < size
    → sum_below size (λ j. target_of (cell d (slide d g score won).cells i j))
      ≡ sum_below size (λ j. value_of (cell d g i j))
line_sum d g score won i h hi =
    let rests : All Rests (line_tiles (reset_from g) d i) =
      Rests-line_tiles d (reset_from g) i (λ j hj.
        let (hr, hc) = dest-lt d i j hi hj in
        CellRests-AtRest _ _ _ ((reset_from-IsSettled g h).at _ _ hr hc)) in
    let line = line_tiles (reset_from g) d i in
    rw
      (
        cell-slide d g score won i 0 hi (omega arith),
        cell-slide d g score won i 1 hi (omega arith),
        cell-slide d g score won i 2 hi (omega arith),
        cell-slide d g score won i 3 hi (omega arith),
      )
      (slot_sum-places (dest d i) (process_line line)
          (omega (arith, length-process_line line, length-line_tiles (reset_from g) d i))
        ∙ ap slot_sum (process_line-eq-merge_rule line)
        ∙ slot_sum-merge_rule line rests
        ∙ tile_sum-line_tiles d (reset_from g) i
        ∙ omega (
          arith,
          value_of-settle_from (cell d g i 0),
          value_of-settle_from (cell d g i 1),
          value_of-settle_from (cell d g i 2),
          value_of-settle_from (cell d g i 3),
        ))

-- Sliding a settled board in any direction keeps the sum of its values: the values that the tiles
-- on the new board take when the slide ends add up to the values on the old board.
pub slide_total :
    (d : Direction) (g : Grid) (score : ℕ) (won : Bool)
    → IsSettled g
    → board_sum target_of (slide d g score won).cells ≡ board_sum value_of g
slide_total d g score won h = omega (
  arith,
  board_sum-lines target_of d (slide d g score won).cells,
  board_sum-lines value_of d g,
  line_sum d g score won 0 h (omega arith),
  line_sum d g score won 1 h (omega arith),
  line_sum d g score won 2 h (omega arith),
  line_sum d g score won 3 h (omega arith),
)
