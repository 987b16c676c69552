-- ===== src/Points/Sets.antt =====
-- The laws of the sets of points.
use classic_games.Prelude.{
  ◌+◌, ◌≡◌, refl, ap, ◌∙◌, true, false, inl, inr, List, [], ◌∷◌, if◌then◌else◌, arith, length,
  Bool-cases,
}
use classic_games.Points.{Point, point_eq, point_eq_iff, point_eq_refl, contains, remove, add}

pub contains-remove :
    (p q : Point) (s : List Point)
    → contains (remove p s) q ≡ (if point_eq p q then false else contains s q)
unfolding contains remove
contains-remove p q [] = ground arith
contains-remove p q (r ∷ s) = ground (
  arith,
  contains-remove p q s,
  point_eq_iff r p,
  point_eq_iff p q,
  point_eq_iff r q,
  point_eq_refl p,
)

pub contains-add :
    (p q : Point) (s : List Point)
    → contains (add p s) q ≡ (if point_eq p q then true else contains s q)
unfolding contains add
contains-add p q s = ground (arith, point_eq_iff p q)

-- no point twice
abbrev pub IsDistinct : List Point → Type 0
IsDistinct [] = Unit
IsDistinct (p ∷ s) = (contains s p ≡ false) × IsDistinct s

pub remove_absent : (p : Point) (s : List Point) → contains s p ≡ false → remove p s ≡ s
unfolding remove contains
remove_absent p [] h = refl
remove_absent p (q ∷ s) h = ground (arith, remove_absent p s)

pub length-remove :
    (p : Point) (s : List Point)
    → IsDistinct s
    → contains s p ≡ true
    → length (remove p s) + 1 ≡ length s
unfolding remove contains
length-remove p [] u h = ground arith
length-remove p (q ∷ s) u h = elim (Bool-cases (point_eq q p)) [
  | inl e ↦
      let same = (point_eq_iff q p).0 e in
      rw (e, remove) (ground (arith, ap length (remove_absent p s (rw (← same) u.0))))
  | inr e ↦ rw e (ground (arith, length-remove p s u.1))
]

pub remove-IsDistinct : (p : Point) (s : List Point) → IsDistinct s → IsDistinct (remove p s)
unfolding remove
remove-IsDistinct p [] u = tt
remove-IsDistinct p (q ∷ s) u = elim (Bool-cases (point_eq q p)) [
  | inl e ↦ rw e (remove-IsDistinct p s u.1)
  | inr e ↦ rw e (contains-remove p q s ∙ ground (arith, u), remove-IsDistinct p s u.1)
]

pub add-IsDistinct : (p : Point) (s : List Point) → IsDistinct s → IsDistinct (add p s)
unfolding add
add-IsDistinct p s u = elim (Bool-cases (contains s p)) [ inl e ↦ rw e u | inr e ↦ rw e (e, u) ]

pub length-add :
    (p : Point) (s : List Point) → contains s p ≡ false → length (add p s) ≡ length s + 1
unfolding add
length-add p s h = ground arith

-- every point of the first set is one of the second
abbrev pub Within : List Point → List Point → Type 0
Within s t = (q : Point) → contains s q ≡ true → contains t q ≡ true

pub remove-Within : (p : Point) (s t : List Point) → Within s t → Within (remove p s) t
remove-Within p s t h q e = h q (ground (arith, contains-remove p q s))

pub add-Within :
    (p : Point) (s t : List Point) → contains t p ≡ true → Within s t → Within (add p s) t
add-Within p s t new h q e = elim (Bool-cases (point_eq p q)) [
  | inl same ↦ rw (← (point_eq_iff p q).0 same) new
  | inr other ↦ h q (ground (arith, contains-add p q s))
]

-- one point of a set gives way to one that it lacks
module _ (p q : Point) (s : List Point) where
  abbrev pub replaced : List Point
  replaced = add q (remove p s)

  pub replaced_facts :
      IsDistinct s
      → contains s p ≡ true
      → contains s q ≡ false
      → IsDistinct replaced × (length replaced ≡ length s)
  replaced_facts u hp hq =
      let absent : contains (remove p s) q ≡ false = contains-remove p q s ∙ ground arith in
      (
        add-IsDistinct q (remove p s) (remove-IsDistinct p s u),
        omega (arith, length-add q (remove p s) absent, length-remove p s u hp),
      )
