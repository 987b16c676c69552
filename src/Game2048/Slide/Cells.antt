-- ===== src/Game2048/Slide/Cells.antt =====
-- Where the tiles of a slide come to stand.
use mathlib.Core.Option
use mathlib.Core.List.{reverse}
use native.Mathlib.Nat.{zero-add}
use classic_games.Prelude.{
  ℕ, zero, suc, ◌+◌, ◌≤◌, ◌<◌, ◌≡◌, refl, ◌∙◌, Bool, false, inl, inr, Bool-cases, ==_iff, ◌&&◌,
  Option, none, some, List, [], ◌∷◌, ◌==◌, ltb, length, get_elem?, if◌then◌else◌, arith,
}
use classic_games.Game2048.Board.{Tile, Grid, size}
use classic_games.Game2048.Line.{LineSlot, process_line}
use classic_games.Game2048.Line.Rule.{length-process_line}
use classic_games.Game2048.Slide.{
  Direction, left, right, up, down, dest, line_tiles, somes, slide, reset_from, Sliding, placed,
  place_source, place_slot, place_slots, slide_lines,
}

abbrev pub cell : Direction → Grid → ℕ → ℕ → Option Tile
cell d g f k = g (dest d f k).0 (dest d f k).1

pub cells-place_slot :
    (d : Direction) (f k i j : ℕ) (s : LineSlot) (b : Sliding)
    → k < size
    → j < size
    → cell d (place_slot (dest d f k) s b).cells i j
      ≡ (if f == i && k == j then some (placed (dest d f k) s) else cell d b.cells i j)
unfolding place_slot place_source
cells-place_slot left f k i j s b hk hj = ground arith
cells-place_slot right f k i j s b hk hj = ground arith
cells-place_slot up f k i j s b hk hj = ground arith
cells-place_slot down f k i j s b hk hj = ground arith

-- what slot `j - k` of a list leaves at place `j`
abbrev pub placed_at : Direction → ℕ → List LineSlot → ℕ → Option Tile
placed_at d f slots j = Option.map (placed (dest d f j)) (get_elem? slots j)

cells-place_slots_ne :
    (d : Direction) (f k : ℕ) (slots : List LineSlot) (b : Sliding) (i j : ℕ)
    → k + length slots ≤ size
    → j < size
    → (f == i) ≡ false
    → cell d (place_slots d f k slots b).cells i j ≡ cell d b.cells i j
unfolding place_slots
cells-place_slots_ne d f k [] b i j h hj ne = refl
cells-place_slots_ne d f k (s ∷ slots) b i j h hj ne =
    cells-place_slots_ne d f (suc k) slots (place_slot (dest d f k) s b) i j (omega arith) hj ne
    ∙ cells-place_slot d f k i j s b (omega arith) hj
    ∙ rw ne refl

cells-place_slots_lt :
    (d : Direction) (f k : ℕ) (slots : List LineSlot) (b : Sliding) (j : ℕ)
    → k + length slots ≤ size
    → j < k
    → cell d (place_slots d f k slots b).cells f j ≡ cell d b.cells f j
unfolding place_slots
cells-place_slots_lt d f k [] b j h hj = refl
cells-place_slots_lt d f k (s ∷ slots) b j h hj =
    cells-place_slots_lt d f (suc k) slots (place_slot (dest d f k) s b) j (omega arith)
      (omega arith)
    ∙ cells-place_slot d f k f j s b (omega arith) (omega arith)
    ∙ ground arith

cells-place_slots_eq :
    (d : Direction) (f k : ℕ) (slots : List LineSlot) (b : Sliding) (j : ℕ)
    → k + length slots ≤ size
    → k + j < size
    → cell d b.cells f (k + j) ≡ none
    → cell d (place_slots d f k slots b).cells f (k + j)
      ≡ Option.map (placed (dest d f (k + j))) (get_elem? slots j)
unfolding place_slots
cells-place_slots_eq d f k [] b j h hj e = e
cells-place_slots_eq d f k (s ∷ slots) b zero h hj e =
    let kk : k + zero ≡ k = omega arith in
    rw kk (
      cells-place_slots_lt d f (suc k) slots (place_slot (dest d f k) s b) k (omega arith)
        (omega arith)
      ∙ cells-place_slot d f k f k s b (omega arith) (omega arith)
      ∙ ground arith)
cells-place_slots_eq d f k (s ∷ slots) b (suc j) h hj e =
    let kk : k + suc j ≡ suc k + j = omega arith in
    rw kk (
      cells-place_slots_eq d f (suc k) slots (place_slot (dest d f k) s b) j (omega arith)
        (omega arith)
        (cells-place_slot d f k f (suc k + j) s b (omega arith) (omega arith) ∙ ground (arith, e)))

cells-place_slots_zero :
    (d : Direction) (f : ℕ) (slots : List LineSlot) (b : Sliding) (j : ℕ)
    → 0 + length slots ≤ size
    → j < size
    → cell d b.cells f j ≡ none
    → cell d (place_slots d f 0 slots b).cells f j
      ≡ Option.map (placed (dest d f j)) (get_elem? slots j)
cells-place_slots_zero d f slots b j fits hj e =
    rw zero-add at (cells-place_slots_eq d f 0 slots b j fits (omega arith) (rw zero-add e))

length-somes4 : (a b c e : Option Tile) → length (somes (a ∷ b ∷ c ∷ e ∷ [])) ≤ size
length-somes4 a b c e = ground arith

length-reverse_somes4 :
    (a b c e : Option Tile) → length (reverse (somes (a ∷ b ∷ c ∷ e ∷ []))) ≤ size
length-reverse_somes4 a b c e = ground arith

pub length-line_tiles : (g : Grid) (d : Direction) (f : ℕ) → length (line_tiles g d f) ≤ size
unfolding line_tiles
length-line_tiles g left f = length-somes4 (g f 0) (g f 1) (g f 2) (g f 3)
length-line_tiles g right f = length-reverse_somes4 (g f 0) (g f 1) (g f 2) (g f 3)
length-line_tiles g up f = length-somes4 (g 0 f) (g 1 f) (g 2 f) (g 3 f)
length-line_tiles g down f = length-reverse_somes4 (g 0 f) (g 1 f) (g 2 f) (g 3 f)

-- what the slots of line `i` leave at place `j`
abbrev pub line_cell : Grid → Direction → ℕ → ℕ → Option Tile
line_cell g d i j = Option.map (placed (dest d i j)) (get_elem? (process_line (line_tiles g d i)) j)

cells-slide_lines :
    (d : Direction) (g : Grid) (n : ℕ) (b : Sliding) (i j : ℕ)
    → j < size
    → ((i j : ℕ) → b.cells i j ≡ none)
    → cell d (slide_lines d g n b).cells i j ≡ (if ltb i n then line_cell g d i j else none)
unfolding slide_lines
cells-slide_lines d g zero b i j hj e = e _ _ ∙ ground arith
cells-slide_lines d g (suc n) b i j hj e =
    let slots = process_line (line_tiles g d n) in
    let before = slide_lines d g n b in
    let ih = cells-slide_lines d g n b i j hj e in
    let fits : 0 + length slots ≤ size =
      omega (arith, length-process_line (line_tiles g d n), length-line_tiles g d n) in
    elim (Bool-cases (n == i)) [
      | inl same ↦ rw (← (==_iff n i).0 same) (
          cells-place_slots_zero d n slots before j fits hj
            (cells-slide_lines d g n b n j hj e ∙ ground arith)
          ∙ ground arith)
      | inr ne ↦ cells-place_slots_ne d n 0 slots before i j fits hj ne ∙ ih ∙ ground arith
    ]

-- After a slide, place `j` of line `i` holds what slot `j` of that line left there.
pub cell-slide :
    (d : Direction) (g : Grid) (score : ℕ) (won : Bool) (i j : ℕ)
    → i < size
    → j < size
    → cell d (slide d g score won).cells i j ≡ line_cell (reset_from g) d i j
unfolding slide
cell-slide d g score won i j hi hj =
    cells-slide_lines d (reset_from g) size _ i j hj (λ r c. refl) ∙ ground arith
