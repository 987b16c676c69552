-- ===== src/Progress/Merge.antt =====
-- game_service/progress.py: `merge_progress` joins two values, loses nothing of either, and
-- gives the same when the second comes again.
use classic_games.Prelude.{
  ℕ, ◌≤◌, ◌≡◌, refl, max, Bool, false, ◌||◌, Option, none, some, List, [], arith,
}
use classic_games.Prelude.Results.{ok, >>=-ok, ensured}
use classic_games.Prelude.Texts.{Text}
use classic_games.Prelude.Json.{Json}
use classic_games.Catalog.{GameId, tetris, snake, game_2048, sokoban, zuma}
use classic_games.Progress.Policy.{
  sorted_union, Metric, Progress, validate_progress, get_or, merge_field, merge_metric, higher,
  lower, merged, or_empty, merge_progress,
}
use classic_games.Progress.Read.{IsUnicode, IsSokoban, IsZuma}
use classic_games.Progress.RoundTrip.{IsCanonical}
use classic_games.Progress.Keep.{
  validate_progress-IsCanonical, validate_progress-fields_of, merged-IsCanonical,
}
use classic_games.Progress.Joins.{
  Kept, NoLower, NoHigher, NoLevelLost, EachLevel, NoFlagLost, has-sorted_union, IsJoin, Kept-refl,
  merge_metric-keeps_old, merge_metric-keeps_new,
}

-- nothing of `p` is lost in `q`: no level, no flag, no score is lower, no count is higher
pub record IsKept (p q : Progress) : Type 0 where
  pub unlocked : Kept NoLower p.unlocked_level q.unlocked_level
  pub completed : Kept NoLevelLost p.completed_levels q.completed_levels
  pub scores : Kept (EachLevel NoLower) p.level_scores q.level_scores
  pub moves : Kept (EachLevel NoHigher) p.best_moves q.best_moves
  pub pushes : Kept (EachLevel NoHigher) p.best_pushes q.best_pushes
  pub highest : Kept NoLower p.highest_score q.highest_score
  pub all : Kept NoFlagLost p.completed_all q.completed_all

pub higher-IsJoin : IsJoin NoLower higher
higher-IsJoin = record {
  reflexive = λ a. omega arith;
  transitive = λ a b c h k. omega arith;
  over_old = λ o n. omega arith;
  over_new = over;
  settled = λ o n h. omega arith;
}
  where
    over : (o : Option ℕ) (n : ℕ) → n ≤ higher o n
    over none n = omega arith
    over (some o) n = omega arith

pub lower-IsJoin : IsJoin NoHigher lower
lower-IsJoin = record {
  reflexive = λ a. omega arith;
  transitive = λ a b c h k. omega arith;
  over_old = λ o n. omega arith;
  over_new = over;
  settled = λ o n h. omega arith;
}
  where
    over : (o : Option ℕ) (n : ℕ) → lower o n ≤ n
    over none n = omega arith
    over (some o) n = omega arith

module _ {A : Type 0} (R : A → A → Type 0) (join : A → A → A) (d : A) where
  field_keeps_old :
      (old new : Option A)
      → ((a : A) → R a a)
      → ((a b : A) → R a (join a b))
      → Kept R old (merge_field join d old new)
  field_keeps_old none none h f = tt
  field_keeps_old none (some n) h f = tt
  field_keeps_old (some o) none h f = h o
  field_keeps_old (some o) (some n) h f = f o n

  field_keeps_new :
      (old new : Option A) → ((a b : A) → R b (join a b)) → Kept R new (merge_field join d old new)
  field_keeps_new old none f = tt
  field_keeps_new old (some n) f = f (get_or d old) n

levels_old : (a b : List ℕ) → NoLevelLost a (sorted_union b a)
levels_old a b n h = rw (has-sorted_union n b a, h) (ground arith)

levels_new : (a b : List ℕ) → NoLevelLost b (sorted_union b a)
levels_new a b n h = rw (has-sorted_union n b a, h) refl

flag_old : (a b : Bool) → NoFlagLost a (a || b)
flag_old a b h = ground arith

flag_new : (a b : Bool) → NoFlagLost b (a || b)
flag_new a b h = ground arith

absent_new : {A : Type 0} (R : A → A → Type 0) (old new : Option A) → new ≡ none → Kept R new old
absent_new R old none e = tt
absent_new R old (some n) e = absurd (some_ne e)
  where
    some_ne : {A : Type 0} {a : A} → some a ≡ none → ⊥
    some_ne e = cc

kept_already : {A : Type 0} (R : A → A → Type 0) (o : Option A) → ((a : A) → R a a) → Kept R o o
kept_already R none h = tt
kept_already R (some a) h = h a

scores_refl : (m : Metric) → EachLevel NoLower m m
scores_refl m k = Kept-refl higher-IsJoin _

counts_refl : (m : Metric) → EachLevel NoHigher m m
counts_refl m k = Kept-refl lower-IsJoin _

le_refl : (a : ℕ) → a ≤ a
le_refl a = omega arith

max_old : (a b : ℕ) → a ≤ max a b
max_old a b = omega arith

max_new : (a b : ℕ) → b ≤ max a b
max_new a b = omega arith

sokoban_keeps_old : (p q : Progress) → IsKept p (merged sokoban p q)
unfolding merged
sokoban_keeps_old p q = record {
  unlocked = field_keeps_old NoLower max 1 p.unlocked_level q.unlocked_level le_refl max_old;
  completed =
      field_keeps_old NoLevelLost (λ a b. sorted_union b a) [] p.completed_levels q.completed_levels
        (λ a n h. h) levels_old;
  scores =
      field_keeps_old (EachLevel NoLower) (merge_metric higher) [] p.level_scores q.level_scores
        scores_refl (merge_metric-keeps_old higher-IsJoin);
  moves =
      field_keeps_old (EachLevel NoHigher) (merge_metric lower) [] p.best_moves q.best_moves
        counts_refl (merge_metric-keeps_old lower-IsJoin);
  pushes =
      field_keeps_old (EachLevel NoHigher) (merge_metric lower) [] p.best_pushes q.best_pushes
        counts_refl (merge_metric-keeps_old lower-IsJoin);
  highest = kept_already NoLower p.highest_score le_refl;
  all = kept_already NoFlagLost p.completed_all (λ a h. h);
}

sokoban_keeps_new :
    (campaign : Bool) (p q : Progress) → IsSokoban campaign q → IsKept q (merged sokoban p q)
unfolding merged
sokoban_keeps_new campaign p q s = record {
  unlocked = field_keeps_new NoLower max 1 p.unlocked_level q.unlocked_level max_new;
  completed =
      field_keeps_new NoLevelLost (λ a b. sorted_union b a) [] p.completed_levels q.completed_levels
        levels_new;
  scores =
      field_keeps_new (EachLevel NoLower) (merge_metric higher) [] p.level_scores q.level_scores
        (merge_metric-keeps_new higher-IsJoin);
  moves =
      field_keeps_new (EachLevel NoHigher) (merge_metric lower) [] p.best_moves q.best_moves
        (merge_metric-keeps_new lower-IsJoin);
  pushes =
      field_keeps_new (EachLevel NoHigher) (merge_metric lower) [] p.best_pushes q.best_pushes
        (merge_metric-keeps_new lower-IsJoin);
  highest = absent_new NoLower p.highest_score q.highest_score s.no_highest;
  all = absent_new NoFlagLost p.completed_all q.completed_all s.no_all;
}

zuma_keeps_old : (p q : Progress) → IsKept p (merged zuma p q)
unfolding merged
zuma_keeps_old p q = record {
  unlocked = field_keeps_old NoLower max 1 p.unlocked_level q.unlocked_level le_refl max_old;
  completed = kept_already NoLevelLost p.completed_levels (λ a n h. h);
  scores = kept_already (EachLevel NoLower) p.level_scores scores_refl;
  moves = kept_already (EachLevel NoHigher) p.best_moves counts_refl;
  pushes = kept_already (EachLevel NoHigher) p.best_pushes counts_refl;
  highest = field_keeps_old NoLower max 0 p.highest_score q.highest_score le_refl max_old;
  all =
      field_keeps_old NoFlagLost (λ a b. a || b) false p.completed_all q.completed_all (λ a h. h)
        flag_old;
}

zuma_keeps_new : (p q : Progress) → IsZuma q → IsKept q (merged zuma p q)
unfolding merged
zuma_keeps_new p q s = record {
  unlocked = field_keeps_new NoLower max 1 p.unlocked_level q.unlocked_level max_new;
  completed = absent_new NoLevelLost p.completed_levels q.completed_levels s.no_completed;
  scores = absent_new (EachLevel NoLower) p.level_scores q.level_scores s.no_scores;
  moves = absent_new (EachLevel NoHigher) p.best_moves q.best_moves s.no_moves;
  pushes = absent_new (EachLevel NoHigher) p.best_pushes q.best_pushes s.no_pushes;
  highest = field_keeps_new NoLower max 0 p.highest_score q.highest_score max_new;
  all = field_keeps_new NoFlagLost (λ a b. a || b) false p.completed_all q.completed_all flag_new;
}

pub merged-IsKept :
    (game : GameId) (key : Text) (p q : Progress)
    → IsCanonical game key q
    → IsKept p (merged game p q) × IsKept q (merged game p q)
merged-IsKept sokoban key p q (_, h) = (sokoban_keeps_old p q, sokoban_keeps_new _ p q h)
merged-IsKept zuma key p q (_, h) = (zuma_keeps_old p q, zuma_keeps_new p q h)
merged-IsKept tetris key p q h = absurd h
merged-IsKept snake key p q h = absurd h
merged-IsKept game_2048 key p q h = absurd h

module _ (isdigit : ℕ → Bool) (decimal : ℕ → Option ℕ) where
  -- the two values that a merge has read
  pub merge_reads :
      (game : GameId) (key : Text) (existing incoming : Json) (r : Progress)
      → merge_progress isdigit decimal game key existing incoming ≡ ok r
      → (old : Progress) × (new : Progress) × (validate_progress isdigit decimal game key
            (or_empty existing)
          ≡ ok old)
        × (validate_progress isdigit decimal game key incoming ≡ ok new)
  unfolding merge_progress
  merge_reads game key existing incoming r h =
      let (old, e, k) =
        >>=-ok (validate_progress isdigit decimal game key (or_empty existing)) _ h in
      let (new, d, _) = >>=-ok (validate_progress isdigit decimal game key incoming) _ k in
      (old, new, e, d)

  -- Where the Unicode database knows the ASCII digits and their values: two values of progress that
  -- `validate_progress` accepts, of any game and key, are merged without an error, and what
  -- `merge_progress` returns after its last validation is the field by field merge of the two.
  pub merge_progress_lem :
      IsUnicode isdigit decimal
      → (game : GameId) (key : Text) (existing incoming : Json) (old new : Progress)
      → validate_progress isdigit decimal game key (or_empty existing) ≡ ok old
      → validate_progress isdigit decimal game key incoming ≡ ok new
      → merge_progress isdigit decimal game key existing incoming ≡ ok (merged game old new)
  unfolding merge_progress
  merge_progress_lem u game key existing incoming old new e d =
      rw (e, d)
        (validate_progress-fields_of isdigit decimal u game key (merged game old new) (
          merged-IsCanonical game key old new
            (ensured (IsCanonical game key)
              (validate_progress isdigit decimal game key (or_empty existing)) e
              (validate_progress-IsCanonical isdigit decimal game key (or_empty existing)))
            (ensured (IsCanonical game key) (validate_progress isdigit decimal game key incoming) d
              (validate_progress-IsCanonical isdigit decimal game key incoming))))

  -- Where the Unicode database knows the ASCII digits and their values: two values of progress that
  -- are accepted are merged, and nothing of either is lost. In what is returned each field of either
  -- is there, every completed level and a set flag too, the unlocked level, the highest score and the
  -- score of a level are no lower, and the moves and the pushes of a level are no more.
  pub merge_progress-IsKept :
      IsUnicode isdigit decimal
      → (game : GameId) (key : Text) (existing incoming : Json) (old new : Progress)
      → validate_progress isdigit decimal game key (or_empty existing) ≡ ok old
      → validate_progress isdigit decimal game key incoming ≡ ok new
      → (r : Progress) × (merge_progress isdigit decimal game key existing incoming ≡ ok r)
        × IsKept old r
        × IsKept new r
  merge_progress-IsKept u game key existing incoming old new e d =
      let (a, b) = merged-IsKept game key old new (
        ensured (IsCanonical game key) (validate_progress isdigit decimal game key incoming) d
          (validate_progress-IsCanonical isdigit decimal game key incoming)) in
      (merged game old new, merge_progress_lem u game key existing incoming old new e d, a, b)
