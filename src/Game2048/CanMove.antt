-- ===== src/Game2048/CanMove.antt =====
-- `_can_move` answers for the four moves.
use mathlib.Core.Bool.{or-true}
use classic_games.Prelude.{
  ℕ, zero, suc, ◌+◌, ◌<◌, ◌≡◌, refl, sym, ◌∙◌, ◌↔◌, ◌⊎◌, inl, inr, Bool, true, false, ◌&&◌, ◌||◌,
  Option, none, some, ◌==◌, ltb, Bool-cases, ==_iff, arith,
}
use classic_games.Game2048.Board.{
  Tile, Grid, size, is_none, same_value, any_below, any_cell, IsSettled, can_move,
}
use classic_games.Game2048.Slide.{Direction, left, right, up, down, slide}
use classic_games.Game2048.Slide.Cells.{cell}
use classic_games.Game2048.Slide.Total.{dest-lt}
use classic_games.Game2048.Slide.Moved.{gap, twins, line_moves, moved-slide}

any_below_intro : (n : ℕ) (p : ℕ → Bool) (i : ℕ) → i < n → p i ≡ true → any_below n p ≡ true
any_below_intro zero p i h e = elim h [ ]
any_below_intro (suc n) p i h e = elim (Bool-cases (n == i)) [
  | inl same ↦ let ni : n ≡ i = (==_iff n i).0 same in ground arith
  | inr other ↦ ground (arith, any_below_intro n p i (ground arith) e)
]

any_below_elim : (n : ℕ) (p : ℕ → Bool) → any_below n p ≡ true → (i : ℕ) × (i < n) × (p i ≡ true)
any_below_elim zero p e = cc
any_below_elim (suc n) p e = elim (Bool-cases (any_below n p)) [
  | inl before ↦ let (i, h, q) = any_below_elim n p before in (i, omega arith, q)
  | inr last ↦ (n, omega arith, ground arith)
]

any_cell_intro :
    (p : ℕ → ℕ → Bool) (r c : ℕ) → r < size → c < size → p r c ≡ true → any_cell p ≡ true
any_cell_intro p r c hr hc e =
    any_below_intro size (λ i. any_below size (p i)) r hr (any_below_intro size (p r) c hc e)

any_cell_elim :
    (p : ℕ → ℕ → Bool)
    → any_cell p ≡ true
    → (r : ℕ) × (c : ℕ) × (r < size) × (c < size) × (p r c ≡ true)
any_cell_elim p e =
    let (r, hr, er) = any_below_elim size (λ i. any_below size (p i)) e in
    let (c, hc, ec) = any_below_elim size (p r) er in (r, c, hr, hc, ec)

-- the test on the right and the lower neighbour
abbrev pair_at : Grid → ℕ → ℕ → Bool
pair_at g r c =
    ltb (c + 1) size && same_value (g r c) (g r (c + 1))
    || ltb (r + 1) size && same_value (g r c) (g (r + 1) c)

can_move-empty :
    (g : Grid) (r c : ℕ) → r < size → c < size → is_none (g r c) ≡ true → can_move g ≡ true
unfolding can_move
can_move-empty g r c hr hc e = rw (any_cell_intro (λ i j. is_none (g i j)) r c hr hc e)

can_move-pair :
    (g : Grid) (r c : ℕ) → r < size → c < size → pair_at g r c ≡ true → can_move g ≡ true
unfolding can_move
can_move-pair g r c hr hc e = rw (any_cell_intro (pair_at g) r c hr hc e, or-true)

same_value_comm : (a b : Option Tile) → same_value a b ≡ same_value b a
same_value_comm none none = refl
same_value_comm none (some t) = refl
same_value_comm (some t) none = refl
same_value_comm (some t) (some n) = ground arith

can_move-row :
    (g : Grid) (r c : ℕ) (hr : r < size) (hc : c + 1 < size)
    → same_value (g r c) (g r (c + 1)) ≡ true
    → can_move g ≡ true
can_move-row g r c hr hc e = can_move-pair g r c hr (omega arith) (ground arith)

can_move-col :
    (g : Grid) (r c : ℕ) (hr : r + 1 < size) (hc : c < size)
    → same_value (g r c) (g (r + 1) c) ≡ true
    → can_move g ≡ true
can_move-col g r c hr hc e = can_move-pair g r c (omega arith) hc (ground arith)

abbrev OneOf3 : Bool → Bool → Bool → Type 0
OneOf3 a b c = (a ≡ true) ⊎ (b ≡ true) ⊎ (c ≡ true)

gap_elim : (a b c e : Option Tile) → gap a b c e ≡ true → OneOf3 (is_none a) (is_none b) (is_none c)
gap_elim a b c e h = ground arith

twins_elim :
    (a b c e : Option Tile)
    → twins a b c e ≡ true
    → OneOf3 (same_value a b) (same_value b c) (same_value c e)
twins_elim a b c e h = ground arith

gap-can_move :
    (g : Grid) (d : Direction) (i j : ℕ)
    → i < size
    → j < size
    → is_none (cell d g i j) ≡ true
    → can_move g ≡ true
gap-can_move g d i j hi hj e = let (hr, hc) = dest-lt d i j hi hj in can_move-empty g _ _ hr hc e

twins-can_move :
    (g : Grid) (d : Direction) (i : ℕ)
    → i < size
    → twins (cell d g i 0) (cell d g i 1) (cell d g i 2) (cell d g i 3) ≡ true
    → can_move g ≡ true
twins-can_move g left i hi h = elim (twins_elim (g i 0) (g i 1) (g i 2) (g i 3) h) [
  | inl e ↦ can_move-row g i 0 hi (omega arith) e
  | inr (inl e) ↦ can_move-row g i 1 hi (omega arith) e
  | inr (inr e) ↦ can_move-row g i 2 hi (omega arith) e
]
twins-can_move g right i hi h = elim (twins_elim (g i 3) (g i 2) (g i 1) (g i 0) h) [
  | inl e ↦ can_move-row g i 2 hi (omega arith) (same_value_comm (g i 2) (g i 3) ∙ e)
  | inr (inl e) ↦ can_move-row g i 1 hi (omega arith) (same_value_comm (g i 1) (g i 2) ∙ e)
  | inr (inr e) ↦ can_move-row g i 0 hi (omega arith) (same_value_comm (g i 0) (g i 1) ∙ e)
]
twins-can_move g up i hi h = elim (twins_elim (g 0 i) (g 1 i) (g 2 i) (g 3 i) h) [
  | inl e ↦ can_move-col g 0 i (omega arith) hi e
  | inr (inl e) ↦ can_move-col g 1 i (omega arith) hi e
  | inr (inr e) ↦ can_move-col g 2 i (omega arith) hi e
]
twins-can_move g down i hi h = elim (twins_elim (g 3 i) (g 2 i) (g 1 i) (g 0 i) h) [
  | inl e ↦ can_move-col g 2 i (omega arith) hi (same_value_comm (g 2 i) (g 3 i) ∙ e)
  | inr (inl e) ↦ can_move-col g 1 i (omega arith) hi (same_value_comm (g 1 i) (g 2 i) ∙ e)
  | inr (inr e) ↦ can_move-col g 0 i (omega arith) hi (same_value_comm (g 0 i) (g 1 i) ∙ e)
]

line_moves-can_move :
    (g : Grid) (d : Direction) (i : ℕ) → i < size → line_moves g d i ≡ true → can_move g ≡ true
line_moves-can_move g d i hi h =
    elim (Bool-cases (gap (cell d g i 0) (cell d g i 1) (cell d g i 2) (cell d g i 3))) [
      | inl e ↦ elim (gap_elim (cell d g i 0) (cell d g i 1) (cell d g i 2) (cell d g i 3) e) [
        | inl x ↦ gap-can_move g d i 0 hi (omega arith) x
        | inr (inl x) ↦ gap-can_move g d i 1 hi (omega arith) x
        | inr (inr x) ↦ gap-can_move g d i 2 hi (omega arith) x
      ]
      | inr e ↦ twins-can_move g d i hi (rw e at h)
    ]

-- an empty cell and a tile on one line: the line moves to one side or to the other
uneven :
    (l : ℕ → Option Tile) (j : ℕ)
    → j < size
    → gap (l 0) (l 1) (l 2) (l 3) ≡ false
    → gap (l 3) (l 2) (l 1) (l 0) ≡ false
    → is_none (l j) ≡ is_none (l 0)
uneven l zero h a b = refl
uneven l (suc zero) h a b = ground arith
uneven l (suc (suc zero)) h a b = ground arith
uneven l (suc (suc (suc zero))) h a b = ground arith
uneven l (suc (suc (suc (suc j)))) h a b = absurd (omega arith)

gap_either :
    (l : ℕ → Option Tile) (j k : ℕ)
    → j < size
    → k < size
    → is_none (l j) ≡ true
    → is_none (l k) ≡ false
    → (gap (l 0) (l 1) (l 2) (l 3) ≡ true) ⊎ (gap (l 3) (l 2) (l 1) (l 0) ≡ true)
gap_either l j k hj hk ej ek = ground (
  arith,
  Bool-cases (gap (l 0) (l 1) (l 2) (l 3)),
  Bool-cases (gap (l 3) (l 2) (l 1) (l 0)),
  uneven l j hj,
  uneven l k hk,
)

twins_intro :
    (l : ℕ → Option Tile) (j : ℕ)
    → j + 1 < size
    → same_value (l j) (l (j + 1)) ≡ true
    → twins (l 0) (l 1) (l 2) (l 3) ≡ true
twins_intro l zero h e = ground (arith, e)
twins_intro l (suc zero) h e = ground (arith, e)
twins_intro l (suc (suc zero)) h e = ground (arith, e)
twins_intro l (suc (suc (suc j))) h e = absurd (omega arith)

abbrev LineMoves : Grid → Type 0
LineMoves g = (d : Direction) × (i : ℕ) × (i < size) × (line_moves g d i ≡ true)

empty-LineMoves :
    (g : Grid) (r0 c0 r c : ℕ)
    → r0 < size
    → c0 < size
    → r < size
    → c < size
    → is_none (g r0 c0) ≡ false
    → is_none (g r c) ≡ true
    → LineMoves g
empty-LineMoves g r0 c0 r c h0 k0 h k tile empty = elim (Bool-cases (is_none (g r c0))) [
  | inr e ↦ elim (gap_either (g r) c c0 k k0 empty e) [
    | inl x ↦ (left, r, h, rw x refl)
    | inr x ↦ (right, r, h, rw x refl)
  ]
  | inl e ↦ elim (gap_either (λ i. g i c0) r r0 h h0 e tile) [
    | inl x ↦ (up, c0, k0, rw x refl)
    | inr x ↦ (down, c0, k0, rw x refl)
  ]
]

pair-LineMoves : (g : Grid) (r c : ℕ) → r < size → c < size → pair_at g r c ≡ true → LineMoves g
pair-LineMoves g r c hr hc e =
    elim (Bool-cases (ltb (c + 1) size && same_value (g r c) (g r (c + 1)))) [
      | inl x ↦ (left, r, hr, rw (twins_intro (g r) c (ground arith) (ground arith)) (or-true _))
      | inr x ↦
          (up, c, hc, rw (twins_intro (λ i. g i c) r (ground arith) (ground arith)) (or-true _))
    ]

can_move-LineMoves :
    (g : Grid) (r0 c0 : ℕ)
    → r0 < size
    → c0 < size
    → is_none (g r0 c0) ≡ false
    → can_move g ≡ true
    → LineMoves g
unfolding can_move
can_move-LineMoves g r0 c0 h0 k0 tile can = elim (Bool-cases (any_cell (λ r c. is_none (g r c)))) [
  | inl x ↦
      let (r, c, hr, hc, e) = any_cell_elim (λ i j. is_none (g i j)) x in
      empty-LineMoves g r0 c0 r c h0 k0 hr hc tile e
  | inr x ↦
      let (r, c, hr, hc, e) = any_cell_elim (pair_at g) (rw x at can) in
      pair-LineMoves g r c hr hc e
]

-- On a settled board that holds a tile, `_can_move` says yes exactly when a slide in one of the
-- four directions moves something.
pub can_move_iff :
    (g : Grid) (score : ℕ) (won : Bool) (r c : ℕ)
    → IsSettled g
    → r < size
    → c < size
    → is_none (g r c) ≡ false
    → (can_move g ≡ true) ↔ ((d : Direction) × ((slide d g score won).moved ≡ true))
can_move_iff g score won r c h hr hc tile = (to, from)
  where
    to : can_move g ≡ true → (d : Direction) × ((slide d g score won).moved ≡ true)
    to can =
        let (d, i, hi, e) = can_move-LineMoves g r c hr hc tile can in
        (d, moved-slide d g score won h ∙ any_below_intro size (line_moves g d) i hi e)

    from : (d : Direction) × ((slide d g score won).moved ≡ true) → can_move g ≡ true
    from (d, m) =
        let (i, hi, e) =
          any_below_elim size (line_moves g d) (sym (moved-slide d g score won h) ∙ m) in
        line_moves-can_move g d i hi e
