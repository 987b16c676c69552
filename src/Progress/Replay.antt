-- ===== src/Progress/Replay.antt =====
-- game_service/progress.py: a contribution that is delivered again changes nothing.
use mathlib.Core.Path.{subst}
use classic_games.Prelude.{
  ℕ, ◌<◌, ◌≡◌, refl, sym, ap, ◌∙◌, max, Bool, true, false, Bool-cases, inl, inr, ◌||◌, Option, none,
  some, List, [], ◌∷◌, ◌==◌, arith,
}
use classic_games.Prelude.Results.{ok, ok_inj, ensured}
use classic_games.Prelude.Texts.{Text}
use classic_games.Prelude.Json.{Json, object, Fields, end, field, truthy}
use classic_games.Catalog.{GameId, tetris, snake, game_2048, sokoban, zuma}
use classic_games.Progress.Policy.{
  sokoban_levels, insert, sorted_union, Metric, Progress, validate_progress, fields_of, merge_field,
  merge_metric, higher, lower, merged, or_empty, merge_progress,
}
use classic_games.Progress.Canonical.{IsSorted, After, IsMetric}
use classic_games.Progress.Read.{Opt, IsUnicode, IsSokoban}
use classic_games.Progress.RoundTrip.{IsCanonical}
use classic_games.Progress.Keep.{
  validate_progress-IsCanonical, validate_progress-fields_of, merged-IsCanonical,
}
use classic_games.Progress.Joins.{
  has, Kept, NoLower, NoHigher, NoLevelLost, EachLevel, NoFlagLost, IsJoin, merge_metric-settled,
}
use classic_games.Progress.Merge.{
  IsKept, higher-IsJoin, lower-IsJoin, merged-IsKept, merge_reads, merge_progress_lem,
}

module _ {A : Type 0} (R : A → A → Type 0) (join : A → A → A) (d : A) where
  -- a join that the old value already covers
  field_settled :
      (P : A → Type 0) (old new : Option A)
      → ((a b : A) → P a → P b → R b a → join a b ≡ a)
      → Opt P old
      → Opt P new
      → Kept R new old
      → merge_field join d old new ≡ old
  field_settled P old none f p q h = refl
  field_settled P none (some n) f p q h = absurd h
  field_settled P (some o) (some n) f p q h = ap some (f o n p q h)

insert-has : (count x : ℕ) (ys : List ℕ) → IsSorted count ys → has x ys ≡ true → insert x ys ≡ ys
unfolding insert has
insert-has count x [] s h = cc
insert-has count x (y ∷ ys) (p, a, s) h = elim (Bool-cases (y == x)) [
  | inl e ↦ ground (arith, e)
  | inr e ↦ ground (
    arith,
    e,
    h,
    has_above count x y ys a s (ground (arith, e, h)),
    insert-has count x ys s (ground (arith, e, h)),
  )
]
  where
    has_above :
        (count x y : ℕ) (ys : List ℕ) → After y ys → IsSorted count ys → has x ys ≡ true → y < x
    has_above count x y [] a s h = absurd (false_ne h)
      where
        false_ne : false ≡ true → ⊥
        false_ne e = cc
    has_above count x y (z ∷ zs) a (p, b, s) h = elim (Bool-cases (z == x)) [
      | inl e ↦ ground (arith, e, a)
      | inr e ↦
          let rest = has_above count x z zs b s (ground (arith, e, h)) in omega (arith, rest, a)
    ]

sorted_union-settled :
    (count : ℕ) (new old : List ℕ)
    → IsSorted count old
    → NoLevelLost new old
    → sorted_union new old ≡ old
unfolding sorted_union has
sorted_union-settled count [] old s h = refl
sorted_union-settled count (n ∷ new) old s h =
    rw (sorted_union-settled count new old s (λ m k. h m (ground (arith, k))))
      (insert-has count n old s (h n (ground arith)))

or_empty-object : (v : Fields) → or_empty (object v) ≡ object v
unfolding truthy
or_empty-object end = refl
or_empty-object (field k v rest) = refl

metric_settled :
    (R : ℕ → ℕ → Type 0) (join : Option ℕ → ℕ → ℕ) (old new : Option Metric)
    → IsJoin R join
    → Opt (IsMetric sokoban_levels) old
    → Opt (IsMetric sokoban_levels) new
    → Kept (EachLevel R) new old
    → merge_field (merge_metric join) [] old new ≡ old
metric_settled R join old new j s t h =
    field_settled (EachLevel R) (merge_metric join) [] (IsMetric sokoban_levels) old new
      (λ a b p q k. merge_metric-settled j sokoban_levels a b q k) s t h

max_settled : (old new : Option ℕ) (d : ℕ) → Kept NoLower new old → merge_field max d old new ≡ old
max_settled old none d h = refl
max_settled none (some n) d h = absurd h
max_settled (some o) (some n) d h = ap some (omega (arith, h))

flag_settled :
    (old new : Option Bool)
    → Kept NoFlagLost new old
    → merge_field (λ a b. a || b) false old new ≡ old
flag_settled old none h = refl
flag_settled none (some n) h = absurd h
flag_settled (some true) (some n) h = refl
flag_settled (some false) (some false) h = refl
flag_settled (some false) (some true) h = ap some (sym (h refl))

sokoban_settled :
    (campaign : Bool) (p q : Progress)
    → IsSokoban campaign p
    → IsSokoban campaign q
    → IsKept q p
    → merged sokoban p q ≡ p
unfolding merged
sokoban_settled campaign p q s t k =
    rw
      (
        max_settled p.unlocked_level q.unlocked_level 1 k.unlocked,
        field_settled NoLevelLost (λ a b. sorted_union b a) [] (IsSorted sokoban_levels)
            p.completed_levels q.completed_levels
            (λ a b h _ l. sorted_union-settled sokoban_levels b a h l) s.completed t.completed
            k.completed,
        metric_settled NoLower higher p.level_scores q.level_scores higher-IsJoin s.scores t.scores
            k.scores,
        metric_settled NoHigher lower p.best_moves q.best_moves lower-IsJoin s.moves t.moves
            k.moves,
        metric_settled NoHigher lower p.best_pushes q.best_pushes lower-IsJoin s.pushes t.pushes
            k.pushes,
      )
      refl

zuma_settled : (p q : Progress) → IsKept q p → merged zuma p q ≡ p
unfolding merged
zuma_settled p q k =
    rw
      (
        max_settled p.unlocked_level q.unlocked_level 1 k.unlocked,
        max_settled p.highest_score q.highest_score 0 k.highest,
        flag_settled p.completed_all q.completed_all k.all,
      )
      refl

merged-settled :
    (game : GameId) (key : Text) (p q : Progress)
    → IsCanonical game key p
    → IsCanonical game key q
    → IsKept q p
    → merged game p q ≡ p
merged-settled sokoban key p q (_, h) (_, k) l = sokoban_settled _ p q h k l
merged-settled zuma key p q h k l = zuma_settled p q l
merged-settled tetris key p q h k l = absurd h
merged-settled snake key p q h k l = absurd h
merged-settled game_2048 key p q h k l = absurd h

module _ (isdigit : ℕ → Bool) (decimal : ℕ → Option ℕ) where
  -- Where the Unicode database knows the ASCII digits and their values: a merge that returned a value
  -- is stored, and the same contribution comes again. The second merge returns, with no error, the
  -- value that is stored.
  pub merge_progress-merge_progress :
      IsUnicode isdigit decimal
      → (game : GameId) (key : Text) (existing incoming : Json) (r : Progress)
      → merge_progress isdigit decimal game key existing incoming ≡ ok r
      → merge_progress isdigit decimal game key (object (fields_of r)) incoming ≡ ok r
  merge_progress-merge_progress u game key existing incoming r h =
      let (old, new, e, d) = merge_reads isdigit decimal game key existing incoming r h in
      let o : IsCanonical game key old =
        ensured (IsCanonical game key)
          (validate_progress isdigit decimal game key (or_empty existing)) e
          (validate_progress-IsCanonical isdigit decimal game key (or_empty existing)) in
      let n : IsCanonical game key new =
        ensured (IsCanonical game key) (validate_progress isdigit decimal game key incoming) d
          (validate_progress-IsCanonical isdigit decimal game key incoming) in
      let c : IsCanonical game key r =
        subst (IsCanonical game key) (same old new e d) (merged-IsCanonical game key old new o n) in
      let k : IsKept new r =
        subst (IsKept new) (same old new e d) (merged-IsKept game key old new n).1 in
      merge_progress_lem isdigit decimal u game key (object (fields_of r)) incoming r new
        (rw or_empty-fields (validate_progress-fields_of isdigit decimal u game key r c)) d
      ∙ ap ok (merged-settled game key r new c n k)
    where
      same :
          (old new : Progress)
          → validate_progress isdigit decimal game key (or_empty existing) ≡ ok old
          → validate_progress isdigit decimal game key incoming ≡ ok new
          → merged game old new ≡ r
      same old new e d =
          ok_inj
            (sym (merge_progress_lem isdigit decimal u game key existing incoming old new e d) ∙ h)

      or_empty-fields : or_empty (object (fields_of r)) ≡ object (fields_of r)
      or_empty-fields = or_empty-object (fields_of r)
