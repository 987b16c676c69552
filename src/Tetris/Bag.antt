-- ===== src/Tetris/Bag.antt =====
-- The bag: `rng.shuffle` permutes the seven kinds, and each is drawn once before the next shuffle.
use mathlib.Core.List.{Perm}
use mathlib.Core.List.Perm
use mathlib.Core.List
use classic_games.Prelude.{ℕ, zero, suc, ◌≡◌, refl, ap, List, [], ◌∷◌, length, arith}
use classic_games.Tetris.Shapes.{Kind, shape_keys}
use classic_games.Tetris.Play.{pop_from, draw_bag_kind}

module _ (shuffle : ℕ → List Kind → List Kind) where
  -- `n` draws in a row: the kinds, the bag and the number of shuffles
  unfoldable pub draws : ℕ → List Kind → ℕ → List Kind × List Kind × ℕ
  unfolding draw_bag_kind
  draws zero bag m = ([], bag, m)
  draws (suc n) bag m =
      let (k, rest, next) = draw_bag_kind shuffle bag m in
      let (ks, final, last) = draws n rest next in (k ∷ ks, final, last)

pop_from-Perm : (k : Kind) (ks : List Kind) → Perm ((pop_from k ks).0 ∷ (pop_from k ks).1) (k ∷ ks)
pop_from-Perm k [] = Perm.refl (k ∷ [])
pop_from-Perm k (j ∷ ks) =
    Perm.trans (Perm.swap k (pop_from j ks).0 (pop_from j ks).1) (Perm.cons k (pop_from-Perm j ks))

length-pop_from : (k : Kind) (ks : List Kind) → length ((pop_from k ks).1) ≡ length ks
length-pop_from k [] = refl
length-pop_from k (j ∷ ks) = ap suc (length-pop_from j ks)

native_length : (xs ys : List Kind) → List.length xs ≡ List.length ys → length xs ≡ length ys
native_length [] [] e = refl
native_length [] (y ∷ ys) e = cc
native_length (x ∷ xs) [] e = cc
native_length (x ∷ xs) (y ∷ ys) e = ap suc (native_length xs ys cc)

module _ (shuffle : ℕ → List Kind → List Kind) where
  -- a bag drawn to its end
  draws-bag :
      (n : ℕ) (bag : List Kind) (m : ℕ)
      → length bag ≡ n
      → Perm ((draws shuffle n bag m).0) bag
        × ((draws shuffle n bag m).1 ≡ [])
        × ((draws shuffle n bag m).2 ≡ m)
  unfolding draws draw_bag_kind
  draws-bag zero [] m e = (Perm.refl [], refl, refl)
  draws-bag zero (k ∷ bag) m e = absurd (omega (arith, e))
  draws-bag (suc n) [] m e = absurd (omega (arith, e))
  draws-bag (suc n) (k ∷ bag) m e =
      let (p, q, r) = draws-bag n (pop_from k bag).1 m (omega (arith, e, length-pop_from k bag)) in
      (Perm.trans (Perm.cons (pop_from k bag).0 p) (pop_from-Perm k bag), q, r)

  -- the first draw from an empty bag shuffles
  draws-fill :
      (n m : ℕ) (k : Kind) (ks : List Kind)
      → shuffle m shape_keys ≡ k ∷ ks
      → draws shuffle (suc n) [] m ≡ draws shuffle (suc n) (k ∷ ks) (suc m)
  unfolding draws draw_bag_kind
  draws-fill n m k ks e = rw e refl

  from_shuffled :
      (m : ℕ) (bag : List Kind)
      → shuffle m shape_keys ≡ bag
      → length bag ≡ 7
      → Perm ((draws shuffle 7 [] m).0) bag
        × ((draws shuffle 7 [] m).1 ≡ [])
        × ((draws shuffle 7 [] m).2 ≡ suc m)
  from_shuffled m [] e l = absurd (omega (arith, l))
  from_shuffled m (k ∷ ks) e l = rw (draws-fill 6 m k ks e) (draws-bag 7 (k ∷ ks) (suc m) l)

-- Where each shuffle permutes the list, seven draws from an empty bag give each of the seven kinds
-- once, with one shuffle, and leave the bag empty.
pub draws-Perm :
    (shuffle : ℕ → List Kind → List Kind)
    → ((m : ℕ) (ks : List Kind) → Perm (shuffle m ks) ks)
    → (m : ℕ)
    → Perm ((draws shuffle 7 [] m).0) shape_keys
      × ((draws shuffle 7 [] m).1 ≡ [])
      × ((draws shuffle 7 [] m).2 ≡ suc m)
draws-Perm shuffle permutes m =
    let p = permutes m shape_keys in
    let (q, r, t) =
      from_shuffled shuffle m (shuffle m shape_keys) refl
        (native_length (shuffle m shape_keys) shape_keys (Perm.length-eq p)) in
    (Perm.trans q p, r, t)
