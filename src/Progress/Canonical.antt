-- ===== src/Progress/Canonical.antt =====
-- What `validate_progress` returns is in the form in which it reads it back.
use classic_games.Prelude.{
  ℕ, ◌≤◌, ◌<◌, ◌≡◌, refl, Option, none, some, List, [], ◌∷◌, ltb, ◌==◌, if◌then◌else◌, if_intro,
  arith,
}
use classic_games.Prelude.Int.{pos, negsuc}
use classic_games.Prelude.Results.{ok, Ensures, bind-Ensures}
use classic_games.Prelude.Json.{
  null, boolean, integer, real, string, array, object, Items, nil, item,
}
use classic_games.Progress.Policy.{
  max_score, insert, sorted_union, level_items, Metric, assign, lookup, items_of, merge_metric,
  higher, lower,
}

-- a sorted list of levels without repetition
abbrev pub After : ℕ → List ℕ → Type 0
After n [] = Unit
After n (m ∷ ms) = n < m

abbrev pub IsSorted : ℕ → List ℕ → Type 0
IsSorted count [] = Unit
IsSorted count (n ∷ ns) = (n < count) × After n ns × IsSorted count ns

insert-After : (b x : ℕ) (ys : List ℕ) → b < x → After b ys → After b (insert x ys)
unfolding insert
insert-After b x [] h k = h
insert-After b x (y ∷ ys) h k = ground arith

pub insert-IsSorted :
    (count x : ℕ) (ys : List ℕ) → x < count → IsSorted count ys → IsSorted count (insert x ys)
unfolding insert
insert-IsSorted count x [] h s = (h, tt, tt)
insert-IsSorted count x (y ∷ ys) h (p, a, s) =
    if_intro (IsSorted count) (ltb x y) _ _ (λ e. (h, ground (arith, e), (p, a, s)))
      (λ e.
        if_intro (IsSorted count) (x == y) _ _ (λ _. (p, a, s))
          (λ d. (p, insert-After y x ys (ground (arith, e, d)) a, insert-IsSorted count x ys h s)))

pub sorted_union-IsSorted :
    (count : ℕ) (xs ys : List ℕ)
    → IsSorted count xs
    → IsSorted count ys
    → IsSorted count (sorted_union xs ys)
unfolding sorted_union
sorted_union-IsSorted count [] ys h k = k
sorted_union-IsSorted count (x ∷ xs) ys (p, _, s) k =
    insert-IsSorted count x (sorted_union xs ys) p (sorted_union-IsSorted count xs ys s k)

-- the smallest element stays in front
insert_front : (x : ℕ) (ys : List ℕ) → After x ys → insert x ys ≡ x ∷ ys
unfolding insert
insert_front x [] h = refl
insert_front x (y ∷ ys) h = ground arith

pub level_items_lem :
    (count : ℕ) (ns : List ℕ) → IsSorted count ns → level_items count (items_of ns) ≡ ok ns
unfolding level_items items_of
level_items_lem count [] h = refl
level_items_lem count (n ∷ ns) (p, a, s) =
    ground (arith, level_items_lem count ns s, insert_front n ns a)

pub level_items-IsSorted :
    (count : ℕ) (items : Items) → Ensures (IsSorted count) (level_items count items)
unfolding level_items
level_items-IsSorted count nil = tt
level_items-IsSorted count (item (integer (pos n)) rest) =
    if_intro (Ensures (IsSorted count)) (ltb n count) _ _
      (λ e.
        bind-Ensures (IsSorted count) (IsSorted count) (level_items count rest) _
          (level_items-IsSorted count rest)
          (λ ns s. insert-IsSorted count n ns (ground (arith, e)) s))
      (λ _. tt)
level_items-IsSorted count (item (integer (negsuc n)) rest) = tt
level_items-IsSorted count (item null rest) = tt
level_items-IsSorted count (item (boolean b) rest) = tt
level_items-IsSorted count (item (real t) rest) = tt
level_items-IsSorted count (item (string t) rest) = tt
level_items-IsSorted count (item (array v) rest) = tt
level_items-IsSorted count (item (object v) rest) = tt

-- a metric: different levels, each number in bounds
abbrev pub IsMetric : ℕ → Metric → Type 0
IsMetric count [] = Unit
IsMetric count ((k, n) ∷ entries) =
    (k < count) × (n ≤ max_score) × (lookup k entries ≡ none) × IsMetric count entries

pub lookup-assign :
    (k n j : ℕ) (m : Metric) → lookup j (assign k n m) ≡ (if k == j then some n else lookup j m)
unfolding lookup assign
lookup-assign k n j [] = refl
lookup-assign k n j ((i, v) ∷ m) = ground (arith, lookup-assign k n j m)

pub assign-IsMetric :
    (count k n : ℕ) (m : Metric)
    → k < count
    → n ≤ max_score
    → IsMetric count m
    → IsMetric count (assign k n m)
unfolding assign lookup
assign-IsMetric count k n [] h b s = (h, b, refl, tt)
assign-IsMetric count k n ((j, v) ∷ m) h b (p, q, r, s) =
    if_intro (IsMetric count) (j == k) _ _ (λ e. (p, b, r, s))
      (λ e. (p, q, ground (arith, lookup-assign k n j m, e, r), assign-IsMetric count k n m h b s))

pub lookup_le :
    (count k n : ℕ) (m : Metric) → IsMetric count m → lookup k m ≡ some n → n ≤ max_score
unfolding lookup
lookup_le count k n [] s e = cc
lookup_le count k n ((j, v) ∷ m) (p, q, r, s) e = ground (arith, lookup_le count k n m s)

-- a join that stays in bounds
abbrev pub IsBounded : (Option ℕ → ℕ → ℕ) → Type 0
IsBounded join =
    (o : Option ℕ) (n : ℕ)
    → ((v : ℕ) → o ≡ some v → v ≤ max_score)
    → n ≤ max_score
    → join o n ≤ max_score

pub higher-IsBounded : IsBounded higher
higher-IsBounded none n h b = omega arith
higher-IsBounded (some v) n h b = omega (arith, h v refl)

pub lower-IsBounded : IsBounded lower
lower-IsBounded none n h b = omega arith
lower-IsBounded (some v) n h b = omega (arith, h v refl)

pub merge_metric-IsMetric :
    (count : ℕ) (join : Option ℕ → ℕ → ℕ) (old new : Metric)
    → IsBounded join
    → IsMetric count old
    → IsMetric count new
    → IsMetric count (merge_metric join old new)
unfolding merge_metric
merge_metric-IsMetric count join old [] b s t = s
merge_metric-IsMetric count join old ((k, n) ∷ new) b s (p, q, r, t) =
    merge_metric-IsMetric count join (assign k (join (lookup k old) n) old) new b
      (assign-IsMetric count k (join (lookup k old) n) old p
        (b (lookup k old) n (λ v e. lookup_le count k v old s e) q) s)
      t
