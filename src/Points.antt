-- ===== src/Points.antt =====
-- Grid points with signed coordinates, and the sets of points that the games keep. Python's sets of
-- points are lists with no point twice.
pub mod Sets
use package.classic_games.Prelude.{
  ℕ, ◌≡◌, refl, ap, ◌∙◌, ◌↔◌, Bool, true, false, ◌&&◌, List, [], ◌∷◌, ◌==◌, ==_iff, if◌then◌else◌,
  arith,
}
use package.classic_games.Prelude.Int.{ℤ, pos, negsuc, ◌+ℤ◌, ◌-ℤ◌}

abbrev pub Point : Type 0
Point = ℤ × ℤ

abbrev pub eq_ℤ : ℤ → ℤ → Bool
eq_ℤ (pos a) (pos b) = a == b
eq_ℤ (negsuc a) (negsuc b) = a == b
eq_ℤ _ _ = false

pub eq_ℤ_iff : (a b : ℤ) → (eq_ℤ a b ≡ true) ↔ (a ≡ b)
eq_ℤ_iff (pos a) (pos b) = ground arith
eq_ℤ_iff (negsuc a) (negsuc b) = ground arith
eq_ℤ_iff (pos a) (negsuc b) = ground arith
eq_ℤ_iff (negsuc a) (pos b) = ground arith

unfoldable pub point_eq : Point → Point → Bool
point_eq (a, b) (c, d) = eq_ℤ a c && eq_ℤ b d

pub point_eq_iff : (p q : Point) → (point_eq p q ≡ true) ↔ (p ≡ q)
unfolding point_eq
point_eq_iff (a, b) (c, d) = ground (arith, eq_ℤ_iff a c, eq_ℤ_iff b d)

pub point_eq_refl : (p : Point) → point_eq p p ≡ true
point_eq_refl p = (point_eq_iff p p).1 refl

-- p + d and q - p
unfoldable pub shift : Point → Point → Point
shift (x, y) (dx, dy) = (x +ℤ dx, y +ℤ dy)

unfoldable pub offset : Point → Point → Point
offset (x, y) (a, b) = (a -ℤ x, b -ℤ y)

add_sub : (a b : ℤ) → a +ℤ b -ℤ a ≡ b
unfolding ◌+ℤ◌ ◌-ℤ◌
add_sub a b = ground arith

pub offset-shift : (p d : Point) → offset p (shift p d) ≡ d
unfolding shift offset
offset-shift (x, y) (dx, dy) = ground (arith, add_sub x dx, add_sub y dy)

-- p in s, s.remove(p), s.add(p)
unfoldable pub contains : List Point → Point → Bool
contains [] p = false
contains (q ∷ s) p = if point_eq q p then true else contains s p

unfoldable pub remove : Point → List Point → List Point
remove p [] = []
remove p (q ∷ s) = let rest = remove p s in if point_eq q p then rest else q ∷ rest

unfoldable pub add : Point → List Point → List Point
add p s = if contains s p then s else p ∷ s
