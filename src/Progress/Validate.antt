-- ===== src/Progress/Validate.antt =====
-- game_service/progress.py: what the reading of a field, and of the fields of a game, returns is canonical.
use classic_games.Prelude.{
  ℕ, ◌≤◌, ◌<◌, ◌≡◌, refl, Bool, true, false, ◌&&◌, not, Option, none, some, List, [], ◌∷◌, ltb, leb,
  if◌then◌else◌, if_intro, arith,
}
use classic_games.Prelude.Int.{pos, negsuc}
use classic_games.Prelude.Results.{
  Result, ok, err, ◌>>=◌, Ensures, Ensures-any, Ensures-map, bind-Ensures,
}
use classic_games.Prelude.Texts.{Text, codes, text_eq}
use classic_games.Prelude.Json.{
  Json, null, boolean, integer, real, string, array, object, Fields, end, field, get, keys_within,
}
use classic_games.Progress.Policy.{
  Fault, sokoban_levels, zuma_levels, max_score, bounded_int, level_set, Metric, Progress,
  no_progress, optional, check_boolean, is_number, int_of, bad_level_key, unknown_fields, level_key,
  metric_fields, level_metric, sokoban_keys, sokoban_fields, zuma_keys, zuma_fields,
}
use classic_games.Progress.Canonical.{IsSorted, IsMetric, level_items-IsSorted, assign-IsMetric}
use classic_games.Progress.Read.{Opt, get-absent, IsSokoban, IsZuma}

bounded_int-Ensures :
    (low high : ℕ) (v : Json) → Ensures (λ n. (low ≤ n) × (n ≤ high)) (bounded_int low high v)
unfolding bounded_int
bounded_int-Ensures low high (integer (pos n)) =
    if_intro (Ensures (λ m. (low ≤ m) × (m ≤ high))) (leb low n && leb n high) _ _
      (λ e. (ground (arith, e), ground (arith, e))) (λ _. tt)
bounded_int-Ensures low high (integer (negsuc n)) = tt
bounded_int-Ensures low high null = tt
bounded_int-Ensures low high (boolean b) = tt
bounded_int-Ensures low high (real t) = tt
bounded_int-Ensures low high (string t) = tt
bounded_int-Ensures low high (array v) = tt
bounded_int-Ensures low high (object v) = tt

level_set-Ensures : (v : Json) → Ensures (IsSorted sokoban_levels) (level_set sokoban_levels v)
unfolding level_set
level_set-Ensures (array items) = level_items-IsSorted sokoban_levels items
level_set-Ensures (integer n) = tt
level_set-Ensures null = tt
level_set-Ensures (boolean b) = tt
level_set-Ensures (real t) = tt
level_set-Ensures (string t) = tt
level_set-Ensures (object v) = tt

optional-Ensures :
    {A : Type 0} (P : A → Type 0) (check : Json → Result Fault A) (o : Option Json)
    → ((v : Json) → Ensures P (check v))
    → Ensures (Opt P) (optional check o)
optional-Ensures P check none h = tt
optional-Ensures P check (some v) h = bind-Ensures P (Opt P) (check v) _ (h v) (λ a p. p)

abbrev sokoban_value :
    Option ℕ → Option (List ℕ) → Option Metric → Option Metric → Option Metric → Progress
sokoban_value o1 o2 o3 o4 o5 = record no_progress {
  unlocked_level = o1;
  completed_levels = o2;
  level_scores = o3;
  best_moves = o4;
  best_pushes = o5;
}

abbrev zuma_value : Option ℕ → Option ℕ → Option Bool → Progress
zuma_value o1 o2 o3 = record no_progress {
  unlocked_level = o1;
  highest_score = o2;
  completed_all = o3;
}

-- the unlocked level, which only the campaign has
Unlocked : Bool → Option ℕ → Type 0
Unlocked campaign o = Opt (λ n. (1 ≤ n) × (n ≤ sokoban_levels)) o × (campaign ≡ false → o ≡ none)

Unlocked-Ensures :
    (campaign : Bool) (v : Fields)
    → keys_within (if campaign then codes "unlocked_level" ∷ sokoban_keys else sokoban_keys) v
      ≡ true
    → Ensures
        (Unlocked campaign)
        (optional (bounded_int 1 sokoban_levels) (get (codes "unlocked_level") v))
unfolding Unlocked text_eq
Unlocked-Ensures true v h =
    Ensures-map (Opt (λ n. (1 ≤ n) × (n ≤ sokoban_levels))) (Unlocked true) _ (λ o p. (p, λ e. cc))
      (optional-Ensures (λ n. (1 ≤ n) × (n ≤ sokoban_levels)) (bounded_int 1 sokoban_levels) _
        (bounded_int-Ensures 1 sokoban_levels))
Unlocked-Ensures false v h =
    rw (get-absent sokoban_keys (codes "unlocked_level") v h refl) (tt, λ _. refl)

refuted : {b : Bool} → not b ≡ false → b ≡ true
refuted {b} e = ground arith

module _ (isdigit : ℕ → Bool) (decimal : ℕ → Option ℕ) where
  level_key-Ensures :
      (k : Text) → Ensures (λ n. n < sokoban_levels) (level_key isdigit decimal sokoban_levels k)
  unfolding level_key
  level_key-Ensures k =
      if_intro (Ensures (λ n. n < sokoban_levels)) (not (is_number isdigit decimal k))
        (err bad_level_key) (int_of isdigit decimal k 0 >>= in_range) (λ _. tt)
        (λ _.
          bind-Ensures (λ _. Unit) (λ n. n < sokoban_levels) (int_of isdigit decimal k 0) in_range
            (Ensures-any (int_of isdigit decimal k 0))
            (λ n _.
              if_intro (Ensures (λ n. n < sokoban_levels)) (ltb n sokoban_levels) (ok n)
                (err bad_level_key) (λ e. ground (arith, e)) (λ _. tt)))
    where
      in_range : ℕ → Result Fault ℕ
      in_range n = if ltb n sokoban_levels then ok n else err bad_level_key

  metric_fields-Ensures :
      (v : Fields) (acc : Metric)
      → IsMetric sokoban_levels acc
      → Ensures (IsMetric sokoban_levels) (metric_fields isdigit decimal sokoban_levels acc v)
  unfolding metric_fields
  metric_fields-Ensures end acc s = s
  metric_fields-Ensures (field k v rest) acc s =
      bind-Ensures (λ n. n < sokoban_levels) (IsMetric sokoban_levels)
        (level_key isdigit decimal sokoban_levels k) _ (level_key-Ensures k)
        (λ level h.
          bind-Ensures (λ n. (0 ≤ n) × (n ≤ max_score)) (IsMetric sokoban_levels)
            (bounded_int 0 max_score v) _ (bounded_int-Ensures 0 max_score v)
            (λ n b.
              metric_fields-Ensures rest _ (assign-IsMetric sokoban_levels level n acc h b.1 s)))

  level_metric-Ensures :
      (v : Json) → Ensures (IsMetric sokoban_levels) (level_metric isdigit decimal sokoban_levels v)
  unfolding level_metric
  level_metric-Ensures (object v) = metric_fields-Ensures v [] tt
  level_metric-Ensures (integer n) = tt
  level_metric-Ensures null = tt
  level_metric-Ensures (boolean b) = tt
  level_metric-Ensures (real t) = tt
  level_metric-Ensures (string t) = tt
  level_metric-Ensures (array v) = tt

  -- the chain of reads, from each field on
  module _ (campaign : Bool) (v : Fields) where
    abbrev metric_at : Text → Result Fault (Option Metric)
    metric_at k = optional (level_metric isdigit decimal sokoban_levels) (get k v)

    metric_at-Ensures : (k : Text) → Ensures (Opt (IsMetric sokoban_levels)) (metric_at k)
    metric_at-Ensures k =
        optional-Ensures (IsMetric sokoban_levels) (level_metric isdigit decimal sokoban_levels)
          (get k v) level_metric-Ensures

    abbrev after_moves :
        Option ℕ → Option (List ℕ) → Option Metric → Option Metric → Result Fault Progress
    after_moves o1 o2 o3 o4 =
        metric_at (codes "best_pushes") >>= λ o5. ok (sokoban_value o1 o2 o3 o4 o5)

    abbrev after_scores : Option ℕ → Option (List ℕ) → Option Metric → Result Fault Progress
    after_scores o1 o2 o3 = metric_at (codes "best_moves") >>= after_moves o1 o2 o3

    abbrev after_completed : Option ℕ → Option (List ℕ) → Result Fault Progress
    after_completed o1 o2 = metric_at (codes "level_scores") >>= after_scores o1 o2

    abbrev completed_read : Result Fault (Option (List ℕ))
    completed_read = optional (level_set sokoban_levels) (get (codes "completed_levels") v)

    after-Unlocked-Ensures :
        (o1 : Option ℕ)
        → Unlocked campaign o1
        → Ensures (IsSokoban campaign) (completed_read >>= after_completed o1)
    unfolding Unlocked
    after-Unlocked-Ensures o1 h1 =
        bind-Ensures (Opt (IsSorted sokoban_levels)) (IsSokoban campaign) completed_read
          (after_completed o1)
          (optional-Ensures (IsSorted sokoban_levels) (level_set sokoban_levels)
            (get (codes "completed_levels") v) level_set-Ensures)
          (λ o2 h2.
            bind-Ensures (Opt (IsMetric sokoban_levels)) (IsSokoban campaign)
              (metric_at (codes "level_scores")) (after_scores o1 o2)
              (metric_at-Ensures (codes "level_scores"))
              (λ o3 h3.
                bind-Ensures (Opt (IsMetric sokoban_levels)) (IsSokoban campaign)
                  (metric_at (codes "best_moves")) (after_moves o1 o2 o3)
                  (metric_at-Ensures (codes "best_moves"))
                  (λ o4 h4.
                    bind-Ensures (Opt (IsMetric sokoban_levels)) (IsSokoban campaign)
                      (metric_at (codes "best_pushes")) (λ o5. ok (sokoban_value o1 o2 o3 o4 o5))
                      (metric_at-Ensures (codes "best_pushes"))
                      (λ o5 h5. record {
                        unlocked = h1.0;
                        completed = h2;
                        scores = h3;
                        moves = h4;
                        pushes = h5;
                        no_highest = refl;
                        no_all = refl;
                        practice_locked = h1.1;
                      }))))

    pub sokoban_fields-Ensures :
        Ensures (IsSokoban campaign) (sokoban_fields isdigit decimal campaign v)
    unfolding sokoban_fields
    sokoban_fields-Ensures =
        if_intro (Ensures (IsSokoban campaign))
          (not (
            keys_within (if campaign then codes "unlocked_level" ∷ sokoban_keys else sokoban_keys)
              v))
          (err unknown_fields) (unlocked_read >>= λ o1. completed_read >>= after_completed o1)
          (λ _. tt)
          (λ allowed.
            bind-Ensures (Unlocked campaign) (IsSokoban campaign) unlocked_read
              (λ o1. completed_read >>= after_completed o1)
              (Unlocked-Ensures campaign v (refuted allowed)) after-Unlocked-Ensures)
      where
        unlocked_read : Result Fault (Option ℕ)
        unlocked_read = optional (bounded_int 1 sokoban_levels) (get (codes "unlocked_level") v)

module _ (v : Fields) where
  abbrev all_read : Result Fault (Option Bool)
  all_read = optional check_boolean (get (codes "completed_all") v)

  abbrev highest_read : Result Fault (Option ℕ)
  highest_read = optional (bounded_int 0 max_score) (get (codes "highest_score") v)

  abbrev after_highest : Option ℕ → Option ℕ → Result Fault Progress
  after_highest o1 o2 = all_read >>= λ o3. ok (zuma_value o1 o2 o3)

  abbrev zuma_unlocked_read : Result Fault (Option ℕ)
  zuma_unlocked_read = optional (bounded_int 1 zuma_levels) (get (codes "unlocked_level") v)

  pub zuma_fields-Ensures : Ensures IsZuma (zuma_fields v)
  unfolding zuma_fields
  zuma_fields-Ensures =
      if_intro (Ensures IsZuma) (not (keys_within zuma_keys v)) (err unknown_fields)
        (zuma_unlocked_read >>= λ o1. highest_read >>= after_highest o1) (λ _. tt)
        (λ _.
          bind-Ensures (Opt (λ n. (1 ≤ n) × (n ≤ zuma_levels))) IsZuma zuma_unlocked_read
            (λ o1. highest_read >>= after_highest o1)
            (optional-Ensures (λ n. (1 ≤ n) × (n ≤ zuma_levels)) (bounded_int 1 zuma_levels) _
              (bounded_int-Ensures 1 zuma_levels))
            (λ o1 h1.
              bind-Ensures (Opt (λ n. n ≤ max_score)) IsZuma highest_read (after_highest o1)
                (optional-Ensures (λ n. n ≤ max_score) (bounded_int 0 max_score) _
                  (λ w.
                    Ensures-map (λ n. (0 ≤ n) × (n ≤ max_score)) (λ n. n ≤ max_score)
                      (bounded_int 0 max_score w) (λ n h. h.1) (bounded_int-Ensures 0 max_score w)))
                (λ o2 h2.
                  bind-Ensures (λ _. Unit) IsZuma all_read (λ o3. ok (zuma_value o1 o2 o3))
                    (Ensures-any all_read)
                    (λ o3 _. record {
                      unlocked = h1;
                      highest = h2;
                      no_completed = refl;
                      no_scores = refl;
                      no_moves = refl;
                      no_pushes = refl;
                    }))))
