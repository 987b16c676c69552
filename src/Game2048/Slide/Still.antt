-- ===== src/Game2048/Slide/Still.antt =====
-- A slide that moves nothing leaves every cell as it was; any slide puts tiles where they say.
use mathlib.Core.Option
use classic_games.Prelude.{
  ℕ, zero, suc, ◌-◌, ◌<◌, ◌≡◌, refl, sym, ap, ◌∙◌, Bool, false, ◌||◌, inl, inr, Option, none, some,
  [], ◌∷◌, ◌==◌, Bool-cases, ==_iff, get_elem?, arith,
}
use classic_games.Game2048.Board.{Tile, Grid, size, any_below, AtRest, IsSettled}
use classic_games.Game2048.Line.{single, process_line}
use classic_games.Game2048.Line.Rule.{merge_rule, process_line-eq-merge_rule}
use classic_games.Game2048.Slide.Cells.{cell, line_cell, cell-slide}
use classic_games.Game2048.Slide.Moved.{
  gap, twins, line_moves, line_tiles-somes, line_moves-reset_from, moved-slide,
}
use classic_games.Game2048.Slide.Total.{dest-lt}
use classic_games.Game2048.Slide.{
  Direction, left, right, up, down, dest, somes, slide, reset_from, settle_from, put_at, placed,
}

-- every cell of the board lies on one line at one distance from the edge
pub record Reaches (d : Direction) (r c : ℕ) : Type 0 where
  pub i : ℕ
  pub j : ℕ
  pub i_lt : i < size
  pub j_lt : j < size
  pub here : dest d i j ≡ (r, c)

pub dest_onto : (d : Direction) (r c : ℕ) → r < size → c < size → Reaches d r c
dest_onto left r c hr hc = record { i = r; j = c; i_lt = hr; j_lt = hc; here = refl }
dest_onto right r c hr hc = record {
  i = r;
  j = 3 - c;
  i_lt = hr;
  j_lt = omega arith;
  here = ground arith;
}
dest_onto up r c hr hc = record { i = c; j = r; i_lt = hc; j_lt = hr; here = refl }
dest_onto down r c hr hc = record {
  i = c;
  j = 3 - r;
  i_lt = hc;
  j_lt = omega arith;
  here = ground arith;
}

still_slots :
    (a b c e : Option Tile) (j : ℕ) (l : ℕ → Option Tile)
    → l 0 ≡ a
    → l 1 ≡ b
    → l 2 ≡ c
    → l 3 ≡ e
    → j < size
    → (gap a b c e || twins a b c e) ≡ false
    → get_elem? (merge_rule (somes (a ∷ b ∷ c ∷ e ∷ []))) j ≡ Option.map single (l j)
unfolding merge_rule
still_slots a b c e zero l ea eb ec ee h g = ground arith
still_slots a b c e (suc zero) l ea eb ec ee h g = ground arith
still_slots a b c e (suc (suc zero)) l ea eb ec ee h g = ground arith
still_slots a b c e (suc (suc (suc zero))) l ea eb ec ee h g = ground arith
still_slots a b c e (suc (suc (suc (suc j)))) l ea eb ec ee h g = absurd (omega arith)

any_below-false : (n : ℕ) (p : ℕ → Bool) (i : ℕ) → any_below n p ≡ false → i < n → p i ≡ false
any_below-false zero p i e h = elim h [ ]
any_below-false (suc n) p i e h = elim (Bool-cases (n == i)) [
  | inl same ↦ let ni : n ≡ i = (==_iff n i).0 same in rw (← ni) (ground arith)
  | inr other ↦ any_below-false n p i (ground arith) (ground arith)
]

placed_single :
    (r c : ℕ) (o : Option Tile)
    → AtRest r c o
    → Option.map (placed (r, c)) (Option.map single (settle_from o)) ≡ settle_from o
placed_single r c none h = refl
placed_single r c (some t) h =
    let e : ◌≡◌ {A = ℕ × ℕ} (r, c) (t.row, t.col) = ground arith in
    ap
      (λ (p : ℕ × ℕ).
        some (put_at p (record t { from_row = t.row; from_col = t.col; dead = false })))
      e

still_cell :
    (d : Direction) (g : Grid) (i j : ℕ)
    → IsSettled g
    → i < size
    → j < size
    → line_moves g d i ≡ false
    → line_cell (reset_from g) d i j ≡ cell d (reset_from g) i j
still_cell d g i j h hi hj still =
    let (hr, hc) = dest-lt d i j hi hj in
    ap (Option.map (placed (dest d i j))) (
      ap (λ l. get_elem? (process_line l) j) (line_tiles-somes (reset_from g) d i)
      ∙ ap (λ l. get_elem? l j) (process_line-eq-merge_rule _)
      ∙ still_slots _ _ _ _ j (cell d (reset_from g) i) refl refl refl refl hj
          (line_moves-reset_from g d i ∙ still))
    ∙ placed_single _ _ (cell d g i j) (h.at _ _ hr hc)

pub slide-reset_from :
    (d : Direction) (g : Grid) (score : ℕ) (won : Bool) (r c : ℕ)
    → IsSettled g
    → (slide d g score won).moved ≡ false
    → r < size
    → c < size
    → (slide d g score won).cells r c ≡ reset_from g r c
slide-reset_from d g score won r c h still hr hc =
    let at = dest_onto d r c hr hc in
    let lines = sym (moved-slide d g score won h) ∙ still in
    ap (λ (p : ℕ × ℕ). (slide d g score won).cells p.0 p.1) (sym at.here)
    ∙ cell-slide d g score won at.i at.j at.i_lt at.j_lt
    ∙ still_cell d g at.i at.j h at.i_lt at.j_lt
        (any_below-false size (line_moves g d) at.i lines at.i_lt)
    ∙ ap (λ (p : ℕ × ℕ). reset_from g p.0 p.1) at.here

-- the tile of a cell, with the same value and target value, and with no way to go to that cell
abbrev pub at_home : ℕ → ℕ → Tile → Tile
at_home r c t = record {
  value = t.value;
  target_value = t.target_value;
  row = r;
  col = c;
  from_row = r;
  from_col = c;
  dead = false;
}

home_cell : (r c : ℕ) (o : Option Tile) → AtRest r c o → settle_from o ≡ Option.map (at_home r c) o
home_cell r c none h = refl
home_cell r c (some t) h =
    let e : ◌≡◌ {A = ℕ × ℕ} (t.row, t.col) (r, c) = ground arith in
    ap (λ (p : ℕ × ℕ). some (at_home p.0 p.1 t)) e

-- A slide that moves nothing leaves the tiles of the settled board as they were: an empty cell stays
-- empty, and any other holds a tile of the same value and target value, alive, at that cell and
-- coming from it.
pub slide_still :
    (d : Direction) (g : Grid) (score : ℕ) (won : Bool) (r c : ℕ)
    → IsSettled g
    → (slide d g score won).moved ≡ false
    → r < size
    → c < size
    → (slide d g score won).cells r c ≡ Option.map (at_home r c) (g r c)
slide_still d g score won r c h still hr hc =
    slide-reset_from d g score won r c h still hr hc ∙ home_cell r c (g r c) (h.at r c hr hc)
