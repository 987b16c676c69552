-- ===== src/Tetris/Shapes.antt =====
-- client/games/tetris.py: SHAPES, the kick tables and `_kick_key`.
use classic_games.Prelude.{ℕ, ◌+◌, ◌%◌, List, [], ◌∷◌, ◌==◌, if◌then◌else◌}
use classic_games.Prelude.Int.{pos, negsuc}
use classic_games.Points.{Point}

-- I O T S Z J L
pub data Kind : Type 0 where
  bar square tee ess zed jay ell : Kind

abbrev pub shape_keys : List Kind
shape_keys = bar ∷ square ∷ tee ∷ ess ∷ zed ∷ jay ∷ ell ∷ []

-- +1 and -1
pub data Spin : Type 0 where
  clockwise counter : Spin

-- the four orientations 0, R, 2, L
abbrev pub oriented {ℓ} : {A : Type ℓ} → ℕ → A → A → A → A → A
oriented r a b c d = if r == 0 then a else if r == 1 then b else if r == 2 then c else d

-- (rot + direction) % 4
abbrev pub turned : Spin → ℕ → ℕ
turned clockwise r = (r + 1) % 4
turned counter r = (r + 3) % 4

abbrev pub cells4 : ℕ × ℕ → ℕ × ℕ → ℕ × ℕ → ℕ × ℕ → List (ℕ × ℕ)
cells4 a b c d = a ∷ b ∷ c ∷ d ∷ []

unfoldable pub shape : Kind → ℕ → List (ℕ × ℕ)
shape bar r =
    oriented (r % 4) (cells4 (0, 1) (1, 1) (2, 1) (3, 1)) (cells4 (2, 0) (2, 1) (2, 2) (2, 3))
      (cells4 (0, 2) (1, 2) (2, 2) (3, 2)) (cells4 (1, 0) (1, 1) (1, 2) (1, 3))
shape square r = cells4 (1, 0) (2, 0) (1, 1) (2, 1)
shape tee r =
    oriented (r % 4) (cells4 (1, 0) (0, 1) (1, 1) (2, 1)) (cells4 (1, 0) (1, 1) (2, 1) (1, 2))
      (cells4 (0, 1) (1, 1) (2, 1) (1, 2)) (cells4 (1, 0) (0, 1) (1, 1) (1, 2))
shape ess r =
    oriented (r % 4) (cells4 (1, 0) (2, 0) (0, 1) (1, 1)) (cells4 (1, 0) (1, 1) (2, 1) (2, 2))
      (cells4 (1, 1) (2, 1) (0, 2) (1, 2)) (cells4 (0, 0) (0, 1) (1, 1) (1, 2))
shape zed r =
    oriented (r % 4) (cells4 (0, 0) (1, 0) (1, 1) (2, 1)) (cells4 (2, 0) (1, 1) (2, 1) (1, 2))
      (cells4 (0, 1) (1, 1) (1, 2) (2, 2)) (cells4 (1, 0) (0, 1) (1, 1) (0, 2))
shape jay r =
    oriented (r % 4) (cells4 (0, 0) (0, 1) (1, 1) (2, 1)) (cells4 (1, 0) (2, 0) (1, 1) (1, 2))
      (cells4 (0, 1) (1, 1) (2, 1) (2, 2)) (cells4 (1, 0) (1, 1) (0, 2) (1, 2))
shape ell r =
    oriented (r % 4) (cells4 (2, 0) (0, 1) (1, 1) (2, 1)) (cells4 (1, 0) (1, 1) (1, 2) (2, 2))
      (cells4 (0, 1) (1, 1) (2, 1) (0, 2)) (cells4 (0, 0) (1, 0) (1, 1) (1, 2))

abbrev here : Point
here = (pos 0, pos 0)

-- SRS_JLSTZ_KICKS: the keys 0>R, R>2, 2>L, L>0 clockwise; 0>L, R>0, 2>R, L>2 the other way
unfoldable pub jlstz_kicks : Spin → ℕ → List Point
jlstz_kicks clockwise r =
    oriented r
      (here ∷ (negsuc 0, pos 0) ∷ (negsuc 0, negsuc 0) ∷ (pos 0, pos 2) ∷ (negsuc 0, pos 2) ∷ [])
      (here ∷ (pos 1, pos 0) ∷ (pos 1, pos 1) ∷ (pos 0, negsuc 1) ∷ (pos 1, negsuc 1) ∷ [])
      (here ∷ (pos 1, pos 0) ∷ (pos 1, negsuc 0) ∷ (pos 0, pos 2) ∷ (pos 1, pos 2) ∷ [])
      (here ∷ (negsuc 0, pos 0) ∷ (negsuc 0, pos 1) ∷ (pos 0, negsuc 1) ∷ (negsuc 0, negsuc 1) ∷ [])
jlstz_kicks counter r =
    oriented r (here ∷ (pos 1, pos 0) ∷ (pos 1, negsuc 0) ∷ (pos 0, pos 2) ∷ (pos 1, pos 2) ∷ [])
      (here ∷ (pos 1, pos 0) ∷ (pos 1, pos 1) ∷ (pos 0, negsuc 1) ∷ (pos 1, negsuc 1) ∷ [])
      (here ∷ (negsuc 0, pos 0) ∷ (negsuc 0, negsuc 0) ∷ (pos 0, pos 2) ∷ (negsuc 0, pos 2) ∷ [])
      (here ∷ (negsuc 0, pos 0) ∷ (negsuc 0, pos 1) ∷ (pos 0, negsuc 1) ∷ (negsuc 0, negsuc 1) ∷ [])

abbrev floor_kicks : List Point
floor_kicks = (pos 0, negsuc 1) ∷ (pos 0, negsuc 2) ∷ []

-- SRS_I_KICKS, under the same keys
unfoldable pub i_kicks : Spin → ℕ → List Point
i_kicks clockwise r =
    oriented r
      (here
        ∷ (negsuc 1, pos 0)
        ∷ (pos 1, pos 0)
        ∷ (negsuc 1, negsuc 0)
        ∷ (pos 1, pos 2)
        ∷ floor_kicks)
      (here ∷ (negsuc 0, pos 0) ∷ (pos 2, pos 0) ∷ (negsuc 0, pos 2) ∷ (pos 2, negsuc 0) ∷ [])
      (here
        ∷ (pos 2, pos 0)
        ∷ (negsuc 0, pos 0)
        ∷ (pos 2, pos 1)
        ∷ (negsuc 0, negsuc 1)
        ∷ floor_kicks)
      (here ∷ (pos 1, pos 0) ∷ (negsuc 1, pos 0) ∷ (pos 1, negsuc 1) ∷ (negsuc 1, pos 1) ∷ [])
i_kicks counter r =
    oriented r
      (here
        ∷ (negsuc 0, pos 0)
        ∷ (pos 2, pos 0)
        ∷ (negsuc 0, pos 2)
        ∷ (pos 2, negsuc 0)
        ∷ floor_kicks)
      (here ∷ (pos 2, pos 0) ∷ (negsuc 0, pos 0) ∷ (pos 2, pos 1) ∷ (negsuc 0, negsuc 1) ∷ [])
      (here ∷ (pos 1, pos 0) ∷ (negsuc 1, pos 0) ∷ (pos 1, negsuc 1) ∷ (negsuc 1, pos 1) ∷ [])
      (here
        ∷ (negsuc 1, pos 0)
        ∷ (pos 1, pos 0)
        ∷ (negsuc 1, negsuc 0)
        ∷ (pos 1, pos 2)
        ∷ floor_kicks)

-- the kicks that `_rotate` tries, in order
unfoldable pub kicks : Kind → Spin → ℕ → List Point
kicks bar s r = i_kicks s r
kicks square s r = here ∷ []
kicks _ s r = (pos 0, negsuc 0) ∷ (pos 0, negsuc 1) ∷ jlstz_kicks s r
