-- ===== src/Game2048/Slide/Moved.antt =====
-- When a slide moves something.
use classic_games.Prelude.{
  ℕ, zero, suc, ◌≤◌, ◌<◌, ◌≡◌, refl, ◌∙◌, Bool, false, ◌&&◌, ◌||◌, not, Option, none, some, List,
  [], ◌∷◌, arith,
}
use classic_games.Game2048.Board.{
  Tile, Grid, size, is_none, same_value, any_below, AtRest, IsSettled,
}
use classic_games.Game2048.Slide.Cells.{cell}
use mathlib.Core.Path.{ap₂}
use mathlib.Core.List.{reverse}
use classic_games.Game2048.Line.{LineSlot, process_line}
use classic_games.Game2048.Line.Rule.{merge_rule, process_line-eq-merge_rule}
use classic_games.Game2048.Slide.{
  Direction, left, right, up, down, dest, line_tiles, somes, slide, slide_lines, reset_from,
  settle_from, Sliding, placed, dying, has_moved, place_source, place_slot, place_slots,
}

abbrev source_moved : ℕ × ℕ → Option Tile → Bool
source_moved p none = false
source_moved p (some s) = has_moved (dying p s)

slots_moved : Direction → ℕ → ℕ → List LineSlot → Bool
slots_moved d f k [] = false
slots_moved d f k (s ∷ slots) =
    (has_moved (placed (dest d f k) s) || source_moved (dest d f k) s.source)
    || slots_moved d f (suc k) slots

moved-place_slots :
    (d : Direction) (f k : ℕ) (slots : List LineSlot) (b : Sliding)
    → (place_slots d f k slots b).moved ≡ (b.moved || slots_moved d f k slots)
unfolding place_slots place_slot place_source slots_moved
moved-place_slots d f k [] b = ground arith
moved-place_slots d f k (s ∷ slots) b =
    moved-place_slots d f (suc k) slots (place_slot (dest d f k) s b) ∙ ground arith

-- a tile stands further from the edge than an empty cell
abbrev pub gap : Option Tile → Option Tile → Option Tile → Option Tile → Bool
gap a b c e =
    is_none a && not (is_none b && is_none c && is_none e)
    || is_none b && not (is_none c && is_none e)
    || is_none c && not (is_none e)

abbrev pub twins : Option Tile → Option Tile → Option Tile → Option Tile → Bool
twins a b c e = same_value a b || same_value b c || same_value c e

abbrev From : ℕ × ℕ → Option Tile → Type 0
From p none = Unit
From p (some t) = (t.from_row ≡ p.0) × (t.from_col ≡ p.1)

module _ (f : ℕ) (a b c e : Option Tile) where
  moved_left :
      From (f, 0) a
      → From (f, 1) b
      → From (f, 2) c
      → From (f, 3) e
      → slots_moved left f 0 (merge_rule (somes (a ∷ b ∷ c ∷ e ∷ [])))
        ≡ (gap a b c e || twins a b c e)
  unfolding slots_moved merge_rule
  moved_left ha hb hc he = ground arith

  moved_right :
      From (f, 3) a
      → From (f, 2) b
      → From (f, 1) c
      → From (f, 0) e
      → slots_moved right f 0 (merge_rule (somes (a ∷ b ∷ c ∷ e ∷ [])))
        ≡ (gap a b c e || twins a b c e)
  unfolding slots_moved merge_rule
  moved_right ha hb hc he = ground arith

  moved_up :
      From (0, f) a
      → From (1, f) b
      → From (2, f) c
      → From (3, f) e
      → slots_moved up f 0 (merge_rule (somes (a ∷ b ∷ c ∷ e ∷ [])))
        ≡ (gap a b c e || twins a b c e)
  unfolding slots_moved merge_rule
  moved_up ha hb hc he = ground arith

  moved_down :
      From (3, f) a
      → From (2, f) b
      → From (1, f) c
      → From (0, f) e
      → slots_moved down f 0 (merge_rule (somes (a ∷ b ∷ c ∷ e ∷ [])))
        ≡ (gap a b c e || twins a b c e)
  unfolding slots_moved merge_rule
  moved_down ha hb hc he = ground arith

reverse-somes4 :
    (a b c e : Option Tile) → reverse (somes (a ∷ b ∷ c ∷ e ∷ [])) ≡ somes (e ∷ c ∷ b ∷ a ∷ [])
reverse-somes4 a b c e = ground arith

-- the tiles of a line, read from the destination edge on
pub line_tiles-somes :
    (g : Grid) (d : Direction) (i : ℕ)
    → line_tiles g d i ≡ somes (cell d g i 0 ∷ cell d g i 1 ∷ cell d g i 2 ∷ cell d g i 3 ∷ [])
unfolding line_tiles
line_tiles-somes g left i = refl
line_tiles-somes g right i = reverse-somes4 (g i 0) (g i 1) (g i 2) (g i 3)
line_tiles-somes g up i = refl
line_tiles-somes g down i = reverse-somes4 (g 0 i) (g 1 i) (g 2 i) (g 3 i)

abbrev pub line_moves : Grid → Direction → ℕ → Bool
line_moves g d i =
    gap (cell d g i 0) (cell d g i 1) (cell d g i 2) (cell d g i 3)
    || twins (cell d g i 0) (cell d g i 1) (cell d g i 2) (cell d g i 3)

From-AtRest : (r c : ℕ) (o : Option Tile) → AtRest r c o → From (r, c) (settle_from o)
From-AtRest r c none h = tt
From-AtRest r c (some t) h = (h.0, h.1)

pub line_moves-reset_from :
    (g : Grid) (d : Direction) (i : ℕ) → line_moves (reset_from g) d i ≡ line_moves g d i
line_moves-reset_from g d i = ground arith

slots_moved-line :
    (d : Direction) (g : Grid) (i : ℕ)
    → IsSettled g
    → i < size
    → slots_moved d i 0 (process_line (line_tiles (reset_from g) d i)) ≡ line_moves g d i
unfolding line_tiles
slots_moved-line left g i h hi = rw process_line-eq-merge_rule (
    moved_left i _ _ _ _ (From-AtRest _ _ _ (h.at i 0 hi (omega arith)))
      (From-AtRest _ _ _ (h.at i 1 hi (omega arith)))
      (From-AtRest _ _ _ (h.at i 2 hi (omega arith)))
      (From-AtRest _ _ _ (h.at i 3 hi (omega arith)))
    ∙ line_moves-reset_from g left i)
slots_moved-line right g i h hi =
    rw (process_line-eq-merge_rule, reverse-somes4)
      (moved_right i _ _ _ _ (From-AtRest _ _ _ (h.at i 3 hi (omega arith)))
          (From-AtRest _ _ _ (h.at i 2 hi (omega arith)))
          (From-AtRest _ _ _ (h.at i 1 hi (omega arith)))
          (From-AtRest _ _ _ (h.at i 0 hi (omega arith)))
        ∙ line_moves-reset_from g right i)
slots_moved-line up g i h hi = rw process_line-eq-merge_rule (
    moved_up i _ _ _ _ (From-AtRest _ _ _ (h.at 0 i (omega arith) hi))
      (From-AtRest _ _ _ (h.at 1 i (omega arith) hi))
      (From-AtRest _ _ _ (h.at 2 i (omega arith) hi))
      (From-AtRest _ _ _ (h.at 3 i (omega arith) hi))
    ∙ line_moves-reset_from g up i)
slots_moved-line down g i h hi =
    rw (process_line-eq-merge_rule, reverse-somes4)
      (moved_down i _ _ _ _ (From-AtRest _ _ _ (h.at 3 i (omega arith) hi))
          (From-AtRest _ _ _ (h.at 2 i (omega arith) hi))
          (From-AtRest _ _ _ (h.at 1 i (omega arith) hi))
          (From-AtRest _ _ _ (h.at 0 i (omega arith) hi))
        ∙ line_moves-reset_from g down i)

moved-slide_lines :
    (d : Direction) (g : Grid) (n : ℕ) (b : Sliding)
    → IsSettled g
    → n ≤ size
    → b.moved ≡ false
    → (slide_lines d (reset_from g) n b).moved ≡ any_below n (line_moves g d)
unfolding slide_lines
moved-slide_lines d g zero b h hn e = e
moved-slide_lines d g (suc n) b h hn e =
    moved-place_slots d n 0 (process_line (line_tiles (reset_from g) d n))
      (slide_lines d (reset_from g) n b)
    ∙ ap₂ ◌||◌ (moved-slide_lines d g n b h (omega arith) e)
        (slots_moved-line d g n h (omega arith))

-- A slide reports a move exactly when some line has a gap before a tile, or equal neighbours.
pub moved-slide :
    (d : Direction) (g : Grid) (score : ℕ) (won : Bool)
    → IsSettled g
    → (slide d g score won).moved ≡ any_below size (line_moves g d)
unfolding slide
moved-slide d g score won h = moved-slide_lines d g size _ h (omega arith) refl
