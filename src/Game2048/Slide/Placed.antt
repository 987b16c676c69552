-- ===== src/Game2048/Slide/Placed.antt =====
-- After a slide every tile of the board is alive and knows its cell.
use mathlib.Core.Option
use mathlib.Core.Path.{subst}
use classic_games.Prelude.{
  ℕ, zero, suc, ◌<◌, ◌≡◌, map, Option-cases, refl, Bool, true, false, ◌&&◌, inl, inr, Option, none,
  some, List, [], ◌∷◌, ◌==◌, Bool-cases, get_elem?, if◌then◌else◌, arith, All,
}
use classic_games.Game2048.Board.{
  Tile, Grid, Draw, size, set_cell, spawn_tile, new_tile, choice, cells_where, is_none, AtRest,
  IsSettled,
}
use classic_games.Game2048.Line.{LineSlot, process_line}
use classic_games.Game2048.Line.Rule.{merge_rule, process_line-eq-merge_rule}
use classic_games.Game2048.Slide.Cells.{cell, cell-slide}
use classic_games.Game2048.Slide.Moved.{line_tiles-somes}
use classic_games.Game2048.Slide.Still.{dest_onto}
use classic_games.Game2048.Slide.{
  Direction, dest, line_tiles, somes, slide, reset_from, settle_from, placed,
}

abbrev pub AtPlace : ℕ → ℕ → Option Tile → Type 0
AtPlace r c none = Unit
AtPlace r c (some t) = (t.row ≡ r) × (t.col ≡ c) × (t.dead ≡ false)

pub record IsPlaced (g : Grid) : Type 0 where
  pub at : (r c : ℕ) → r < size → c < size → AtPlace r c (g r c)

abbrev IsAlive : Tile → Type 0
IsAlive t = t.dead ≡ false

abbrev SlotAlive : LineSlot → Type 0
SlotAlive s = s.tile.dead ≡ false

alive_slots : (line : List Tile) → All IsAlive line → All SlotAlive (merge_rule line)
unfolding merge_rule
alive_slots [] h = tt
alive_slots (a ∷ []) h = (h.0, tt)
alive_slots (a ∷ b ∷ rest) h = elim (Bool-cases (a.value == b.value)) [
  | inl e ↦ rw e (h.0, alive_slots rest h.1.1)
  | inr e ↦ rw e (h.0, alive_slots (b ∷ rest) h.1)
]

IsAlive-reset : (cells : List (Option Tile)) → All IsAlive (somes (map settle_from cells))
IsAlive-reset [] = tt
IsAlive-reset (none ∷ cells) = IsAlive-reset cells
IsAlive-reset (some t ∷ cells) = (refl, IsAlive-reset cells)

AtPlace-slots :
    (p : ℕ × ℕ) (slots : List LineSlot) (j : ℕ)
    → All SlotAlive slots
    → AtPlace p.0 p.1 (Option.map (placed p) (get_elem? slots j))
AtPlace-slots p [] j h = tt
AtPlace-slots p (s ∷ slots) zero h = ground arith
AtPlace-slots p (s ∷ slots) (suc j) h = AtPlace-slots p slots j h.1

alive_line :
    (d : Direction) (g : Grid) (i : ℕ)
    → All SlotAlive (process_line (line_tiles (reset_from g) d i))
alive_line d g i =
    rw (process_line-eq-merge_rule, line_tiles-somes)
      (alive_slots _
        (IsAlive-reset (cell d g i 0 ∷ cell d g i 1 ∷ cell d g i 2 ∷ cell d g i 3 ∷ [])))

-- After a slide in any direction, from any board, each tile on the board is alive and carries the
-- row and the column of the cell that holds it.
pub slide-IsPlaced :
    (d : Direction) (g : Grid) (score : ℕ) (won : Bool) → IsPlaced (slide d g score won).cells
slide-IsPlaced d g score won = record {
  at = λ r c hr hc.
      let at = dest_onto d r c hr hc in
      let there : AtPlace (dest d at.i at.j).0 (dest d at.i at.j).1
          (cell d (slide d g score won).cells at.i at.j) =
        rw (cell-slide d g score won at.i at.j at.i_lt at.j_lt) (
          AtPlace-slots (dest d at.i at.j) (process_line (line_tiles (reset_from g) d at.i)) at.j
            (alive_line d g at.i)) in
      subst (λ (p : ℕ × ℕ). AtPlace p.0 p.1 ((slide d g score won).cells p.0 p.1)) at.here there;
}

pub IsSettled-IsPlaced : (g : Grid) → IsSettled g → IsPlaced g
IsSettled-IsPlaced g h = record { at = λ r c hr hc. weaken (g r c) r c (h.at r c hr hc) }
  where
    weaken : (o : Option Tile) (r c : ℕ) → AtRest r c o → AtPlace r c o
    weaken none r c h = h
    weaken (some t) r c h = (h.0, h.1, h.3)

AtRest-if :
    (b : Bool) (t : Tile) (o : Option Tile) (r c : ℕ)
    → (b ≡ true → AtRest r c (some t))
    → AtRest r c o
    → AtRest r c (if b then some t else o)
AtRest-if true t o r c new old = new refl
AtRest-if false t o r c new old = old

pub set_cell-IsSettled :
    (g : Grid) (i j v : ℕ) → IsSettled g → IsSettled (set_cell g i j (new_tile v i j))
set_cell-IsSettled g i j v h = record {
  at = λ r c hr hc.
      AtRest-if (r == i && c == j) (new_tile v i j) (g r c) r c (λ e. ground arith)
        (h.at r c hr hc);
}

pub spawn_tile-IsSettled : (d : Draw) (g : Grid) → IsSettled g → IsSettled (spawn_tile d g).1
unfolding spawn_tile
spawn_tile-IsSettled d g h = elim (Option-cases (choice d (cells_where (λ r c. is_none (g r c))))) [
  | inl e ↦ rw (e, spawn_tile) h
  | inr (p, e) ↦ rw (e, spawn_tile) (set_cell-IsSettled g p.0 p.1 (if d.four then 4 else 2) h)
]
