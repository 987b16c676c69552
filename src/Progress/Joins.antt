-- ===== src/Progress/Joins.antt =====
-- game_service/progress.py: what the merge of two lists of levels, or of two metrics, has of each.
use classic_games.Prelude.{
  ℕ, ◌≤◌, ◌≡◌, refl, sym, ap, ◌∙◌, Bool, true, false, Bool-cases, inl, inr, ◌||◌, Option, none,
  some, List, [], ◌∷◌, ◌==◌, if◌then◌else◌, if_intro, arith,
}
use classic_games.Progress.Policy.{insert, sorted_union, Metric, assign, lookup, merge_metric}
use classic_games.Progress.Canonical.{IsMetric, lookup-assign}

-- a level of a list
unfoldable pub has : ℕ → List ℕ → Bool
has n [] = false
has n (m ∷ ms) = m == n || has n ms

-- what was there is still there, in the relation R
abbrev pub Kept : {A : Type 0} → (A → A → Type 0) → Option A → Option A → Type 0
Kept R none _ = Unit
Kept R (some a) none = ⊥
Kept R (some a) (some b) = R a b

abbrev pub NoLower : ℕ → ℕ → Type 0
NoLower a b = a ≤ b

abbrev pub NoHigher : ℕ → ℕ → Type 0
NoHigher a b = b ≤ a

abbrev pub NoLevelLost : List ℕ → List ℕ → Type 0
NoLevelLost a b = (n : ℕ) → has n a ≡ true → has n b ≡ true

abbrev pub EachLevel : (ℕ → ℕ → Type 0) → Metric → Metric → Type 0
EachLevel R a b = (k : ℕ) → Kept R (lookup k a) (lookup k b)

abbrev pub NoFlagLost : Bool → Bool → Type 0
NoFlagLost a b = a ≡ true → b ≡ true

pub has-insert : (n x : ℕ) (ys : List ℕ) → has n (insert x ys) ≡ (x == n || has n ys)
unfolding has insert
has-insert n x [] = refl
has-insert n x (y ∷ ys) = ground (arith, has-insert n x ys)

pub has-sorted_union :
    (n : ℕ) (xs ys : List ℕ) → has n (sorted_union xs ys) ≡ (has n xs || has n ys)
unfolding has sorted_union
has-sorted_union n [] ys = refl
has-sorted_union n (x ∷ xs) ys =
    ground (arith, has-insert n x (sorted_union xs ys), has-sorted_union n xs ys)

eq_refl : (n : ℕ) → (n == n) ≡ true
eq_refl n = ground arith

assign-lookup : (k n : ℕ) (m : Metric) → lookup k m ≡ some n → assign k n m ≡ m
unfolding assign lookup
assign-lookup k n [] h = cc
assign-lookup k n ((j, v) ∷ m) h = ground (arith, assign-lookup k n m)

-- what a metric keeps of the old and of the new entry, for a join that is a bound of both
module _ (R : ℕ → ℕ → Type 0) (join : Option ℕ → ℕ → ℕ) where
  pub record IsJoin : Type 0 where
    pub reflexive : (a : ℕ) → R a a
    pub transitive : (a b c : ℕ) → R a b → R b c → R a c
    pub over_old : (o n : ℕ) → R o (join (some o) n)
    pub over_new : (o : Option ℕ) (n : ℕ) → R n (join o n)
    pub settled : (o n : ℕ) → R n o → join (some o) n ≡ o

module _ {R : ℕ → ℕ → Type 0} {join : Option ℕ → ℕ → ℕ} (j : IsJoin R join) where
  pub Kept-refl : (o : Option ℕ) → Kept R o o
  Kept-refl none = tt
  Kept-refl (some a) = j.reflexive a

  Kept-trans : (a b c : Option ℕ) → Kept R a b → Kept R b c → Kept R a c
  Kept-trans none b c h k = tt
  Kept-trans (some a) (some b) (some c) h k = j.transitive a b c h k
  Kept-trans (some a) (some b) none h k = absurd k
  Kept-trans (some a) none c h k = absurd h

  assign-keeps :
      (k n i : ℕ) (m : Metric) → Kept R (lookup i m) (lookup i (assign k (join (lookup k m) n) m))
  assign-keeps k n i m =
      rw (lookup-assign k (join (lookup k m) n) i m) (elim (Bool-cases (k == i)) [
        | inl e ↦ rw (e, the_key k i e) (over (lookup i m))
        | inr e ↦ rw e (Kept-refl (lookup i m))
      ])
    where
      the_key : (k i : ℕ) → (k == i) ≡ true → k ≡ i
      the_key k i e = ground (arith, e)

      over : (o : Option ℕ) → Kept R o (some (join o n))
      over none = tt
      over (some o) = j.over_old o n

  pub merge_metric-keeps_old : (old new : Metric) → EachLevel R old (merge_metric join old new)
  unfolding merge_metric
  merge_metric-keeps_old old [] i = Kept-refl (lookup i old)
  merge_metric-keeps_old old ((k, n) ∷ new) i =
      Kept-trans (lookup i old) (lookup i (assign k (join (lookup k old) n) old))
        (lookup i (merge_metric join (assign k (join (lookup k old) n) old) new))
        (assign-keeps k n i old)
        (merge_metric-keeps_old (assign k (join (lookup k old) n) old) new i)

  pub merge_metric-keeps_new : (old new : Metric) → EachLevel R new (merge_metric join old new)
  unfolding merge_metric lookup
  merge_metric-keeps_new old [] i = tt
  merge_metric-keeps_new old ((k, n) ∷ new) i =
      if_intro (λ o. Kept R o (lookup i (merge_metric join next new))) (k == i) (some n)
        (lookup i new)
        (λ e.
          Kept-trans (some n) (lookup i next) (lookup i (merge_metric join next new))
            (rw (lookup-assign k (join (lookup k old) n) i old, e) (j.over_new (lookup k old) n))
            (merge_metric-keeps_old next new i))
        (λ e. merge_metric-keeps_new next new i)
    where
      next : Metric
      next = assign k (join (lookup k old) n) old

  settled_entry :
      (k n : ℕ) (m : Metric) → Kept R (some n) (lookup k m) → assign k (join (lookup k m) n) m ≡ m
  settled_entry k n m h = entry (lookup k m) refl h
    where
      entry : (o : Option ℕ) → lookup k m ≡ o → Kept R (some n) o → assign k (join o n) m ≡ m
      entry none e h = absurd h
      entry (some o) e h = rw (j.settled o n h) (assign-lookup k o m e)

  pub merge_metric-settled :
      (count : ℕ) (old new : Metric)
      → IsMetric count new
      → EachLevel R new old
      → merge_metric join old new ≡ old
  unfolding merge_metric lookup
  merge_metric-settled count old [] s h = refl
  merge_metric-settled count old ((k, n) ∷ new) (p, q, r, s) h =
      rw (settled_entry k n old (head (h k)))
        (merge_metric-settled count old new s (λ i. tail i (h i)))
    where
      head :
          Kept R (if k == k then some n else lookup k new) (lookup k old)
          → Kept R (some n) (lookup k old)
      head w = rw (eq_refl k) at w

      same : (a b : ℕ) → (a == b) ≡ true → a ≡ b
      same a b e = ground (arith, e)

      tail :
          (i : ℕ)
          → Kept R (if k == i then some n else lookup i new) (lookup i old)
          → Kept R (lookup i new) (lookup i old)
      tail i w = elim (Bool-cases (k == i)) [
        | inl e ↦ rw (ap (λ x. lookup x new) (sym (same k i e)) ∙ r) tt
        | inr e ↦ rw e at w
      ]
