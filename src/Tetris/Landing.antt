-- ===== src/Tetris/Landing.antt =====
-- The drop of `_hard_drop` and of the ghost: the piece comes to rest, and every row on the way was
-- free.
use classic_games.Prelude.{
  ℕ, zero, suc, ◌+◌, ◌≤◌, ◌<◌, ◌≡◌, refl, true, false, Bool-cases, List, [], ◌∷◌, if_intro, inl,
  inr, ◌==◌, ◌%◌, arith,
}
use native.Mathlib.Decide.{dec_lt}
use classic_games.Prelude.Int.{ℤ, pos, ◌+ℤ◌, pos_part, neg_part, +ℤ_parts, -ℤ_parts}
use classic_games.Points.{Point}
use classic_games.Tetris.Shapes.{
  Kind, bar, square, tee, ess, zed, jay, ell, oriented, cells4, shape,
}
use classic_games.Tetris.Board.{Grid, Piece, cells, collides, rows}
use classic_games.Tetris.Play.{hits, fall, distance}

-- every orientation has cells
Filled : List (ℕ × ℕ) → Type 0
Filled s = (c : ℕ × ℕ) × (cs : List (ℕ × ℕ)) × (s ≡ c ∷ cs)

oriented-Filled :
    (r : ℕ) (a b c d : List (ℕ × ℕ))
    → Filled a
    → Filled b
    → Filled c
    → Filled d
    → Filled (oriented r a b c d)
oriented-Filled r a b c d fa fb fc fd =
    if_intro Filled (r == 0) _ _ (λ _. fa)
      (λ _.
        if_intro Filled (r == 1) _ _ (λ _. fb)
          (λ _. if_intro Filled (r == 2) _ _ (λ _. fc) (λ _. fd)))

four-Filled : (a b c d : ℕ × ℕ) → Filled (cells4 a b c d)
unfolding Filled
four-Filled a b c d = (a, b ∷ c ∷ d ∷ [], refl)

shape-Filled : (k : Kind) (r : ℕ) → Filled (shape k r)
unfolding shape
shape-Filled bar r =
    oriented-Filled (r % 4) _ _ _ _ (four-Filled _ _ _ _) (four-Filled _ _ _ _)
      (four-Filled _ _ _ _) (four-Filled _ _ _ _)
shape-Filled square r = four-Filled _ _ _ _
shape-Filled tee r =
    oriented-Filled (r % 4) _ _ _ _ (four-Filled _ _ _ _) (four-Filled _ _ _ _)
      (four-Filled _ _ _ _) (four-Filled _ _ _ _)
shape-Filled ess r =
    oriented-Filled (r % 4) _ _ _ _ (four-Filled _ _ _ _) (four-Filled _ _ _ _)
      (four-Filled _ _ _ _) (four-Filled _ _ _ _)
shape-Filled zed r =
    oriented-Filled (r % 4) _ _ _ _ (four-Filled _ _ _ _) (four-Filled _ _ _ _)
      (four-Filled _ _ _ _) (four-Filled _ _ _ _)
shape-Filled jay r =
    oriented-Filled (r % 4) _ _ _ _ (four-Filled _ _ _ _) (four-Filled _ _ _ _)
      (four-Filled _ _ _ _) (four-Filled _ _ _ _)
shape-Filled ell r =
    oriented-Filled (r % 4) _ _ _ _ (four-Filled _ _ _ _) (four-Filled _ _ _ _)
      (four-Filled _ _ _ _) (four-Filled _ _ _ _)

-- the rows from `d` below the piece on are below the board
Below : Piece → ℕ → Type 0
Below p d = rows + neg_part p.y ≤ pos_part p.y + d

collides_below :
    (b : Grid) (x y : ℤ) (rest : List Point)
    → rows + neg_part y ≤ pos_part y
    → collides b ((x, y) ∷ rest) ≡ true
unfolding collides
collides_below b x y rest h = ground arith

floor_hit : (b : Grid) (p : Piece) (d : ℕ) → Below p d → hits b p (pos 0) (pos d) ≡ true
unfolding cells Below Filled
floor_hit b p d h =
    let ((i, j), cs, e) = shape-Filled p.kind p.rot in
    rw e (
      collides_below b _ (p.y +ℤ pos j +ℤ pos d) _
        (omega (arith, h, +ℤ_parts p.y (pos j), +ℤ_parts (p.y +ℤ pos j) (pos d))))

module _ (b : Grid) (p : Piece) where
  -- enough fuel: the drop reaches a row under which the piece does not fit
  fall-rests : (n d : ℕ) → Below p (n + d) → hits b p (pos 0) (pos (fall n b p d + 1)) ≡ true
  unfolding fall Below
  fall-rests zero d h = floor_hit b p (d + 1) (omega (arith, h))
  fall-rests (suc n) d h =
      if_intro (λ m. hits b p (pos 0) (pos (m + 1)) ≡ true) (hits b p (pos 0) (pos (d + 1))) _ _
        (λ e. e) (λ _. fall-rests n (suc d) (omega (arith, h)))

  fall-free : (n d k : ℕ) → d < k → k ≤ fall n b p d → hits b p (pos 0) (pos k) ≡ false
  unfolding fall
  fall-free zero d k l h = absurd (omega (arith, l, h))
  fall-free (suc n) d k l h = elim (Bool-cases (hits b p (pos 0) (pos (d + 1)))) [
    | inl e ↦ absurd (omega (arith, l, rw e at h))
    | inr e ↦ elim (dec_lt (d + 1) k) [
      | yes further ↦ fall-free n (suc d) k (omega (arith, further)) (rw e at h)
      | no next ↦ let here : k ≡ d + 1 = omega (arith, l, next) in rw here e
    ]
  ]

-- The distance of a hard drop, on any board: the piece is free in each row down to it, and one row
-- further it collides.
pub distance-lands :
    (b : Grid) (p : Piece)
    → (hits b p (pos 0) (pos (distance b p + 1)) ≡ true)
      × ((k : ℕ) → 0 < k → k ≤ distance b p → hits b p (pos 0) (pos k) ≡ false)
unfolding distance Below
distance-lands b p =
    (fall-rests b p _ 0 (omega (arith, -ℤ_parts (pos rows) p.y)), λ k l h. fall-free b p _ 0 k l h)
