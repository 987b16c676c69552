-- ===== src/Progress/Keep.antt =====
-- game_service/progress.py: what `validate_progress` returns and what a merge makes of it are
-- canonical, so the merge is never refused.
use classic_games.Prelude.{
  ℕ, ◌≤◌, ◌≡◌, max, Bool, ◌||◌, Option, none, some, List, [], if_intro, arith,
}
use classic_games.Prelude.Results.{ok, err, Ensures, Ensures-map}
use classic_games.Prelude.Texts.{Text, codes, text_eq}
use classic_games.Prelude.Json.{Json, null, boolean, integer, real, string, array, object}
use classic_games.Catalog.{GameId, tetris, snake, game_2048, sokoban, zuma}
use classic_games.Progress.Policy.{
  unknown_key, sokoban_levels, zuma_levels, max_score, sorted_union, Metric, Progress,
  sokoban_fields, zuma_fields, validate_progress, fields_of, merge_field, merge_metric, higher,
  lower, merged,
}
use classic_games.Progress.Canonical.{
  IsSorted, IsMetric, sorted_union-IsSorted, merge_metric-IsMetric, higher-IsBounded,
  lower-IsBounded,
}
use classic_games.Progress.Read.{Opt, IsUnicode, IsSokoban, IsZuma}
use classic_games.Progress.RoundTrip.{sokoban_fields_lem, zuma_fields_lem, IsCanonical}
use classic_games.Progress.Validate.{sokoban_fields-Ensures, zuma_fields-Ensures}

merge_field-Opt :
    {A : Type 0} (P : A → Type 0) (join : A → A → A) (d : A) (old new : Option A)
    → P d
    → ((a b : A) → P a → P b → P (join a b))
    → Opt P old
    → Opt P new
    → Opt P (merge_field join d old new)
merge_field-Opt P join d old none h f p q = p
merge_field-Opt P join d none (some n) h f p q = f d n h q
merge_field-Opt P join d (some o) (some n) h f p q = f o n p q

max-IsBetween :
    (low high a b : ℕ)
    → (low ≤ a) × (a ≤ high)
    → (low ≤ b) × (b ≤ high)
    → (low ≤ max a b) × (max a b ≤ high)
max-IsBetween low high a b (p, q) (r, s) = (omega arith, omega arith)

max_le : (high a b : ℕ) → a ≤ high → b ≤ high → max a b ≤ high
max_le high a b h k = omega arith

merge_scores :
    (old new : Option Metric)
    → Opt (IsMetric sokoban_levels) old
    → Opt (IsMetric sokoban_levels) new
    → Opt (IsMetric sokoban_levels) (merge_field (merge_metric higher) [] old new)
merge_scores old new h k =
    merge_field-Opt (IsMetric sokoban_levels) (merge_metric higher) [] old new tt
      (λ a b p q. merge_metric-IsMetric sokoban_levels higher a b higher-IsBounded p q) h k

merge_counts :
    (old new : Option Metric)
    → Opt (IsMetric sokoban_levels) old
    → Opt (IsMetric sokoban_levels) new
    → Opt (IsMetric sokoban_levels) (merge_field (merge_metric lower) [] old new)
merge_counts old new h k =
    merge_field-Opt (IsMetric sokoban_levels) (merge_metric lower) [] old new tt
      (λ a b p q. merge_metric-IsMetric sokoban_levels lower a b lower-IsBounded p q) h k

merged-IsSokoban :
    (campaign : Bool) (old new : Progress)
    → IsSokoban campaign old
    → IsSokoban campaign new
    → IsSokoban campaign (merged sokoban old new)
unfolding merged
merged-IsSokoban campaign old new s t = record {
  unlocked =
      merge_field-Opt (λ n. (1 ≤ n) × (n ≤ sokoban_levels)) max 1 old.unlocked_level
        new.unlocked_level (omega arith, omega arith) (max-IsBetween 1 sokoban_levels) s.unlocked
        t.unlocked;
  completed =
      merge_field-Opt (IsSorted sokoban_levels) (λ a b. sorted_union b a) [] old.completed_levels
        new.completed_levels tt (λ a b p q. sorted_union-IsSorted sokoban_levels b a q p)
        s.completed t.completed;
  scores = merge_scores old.level_scores new.level_scores s.scores t.scores;
  moves = merge_counts old.best_moves new.best_moves s.moves t.moves;
  pushes = merge_counts old.best_pushes new.best_pushes s.pushes t.pushes;
  no_highest = s.no_highest;
  no_all = s.no_all;
  practice_locked = λ e. rw (t.practice_locked e) (s.practice_locked e);
}

merged-IsZuma : (old new : Progress) → IsZuma old → IsZuma new → IsZuma (merged zuma old new)
unfolding merged
merged-IsZuma old new s t = record {
  unlocked =
      merge_field-Opt (λ n. (1 ≤ n) × (n ≤ zuma_levels)) max 1 old.unlocked_level new.unlocked_level
        (omega arith, omega arith) (max-IsBetween 1 zuma_levels) s.unlocked t.unlocked;
  highest =
      merge_field-Opt (λ n. n ≤ max_score) max 0 old.highest_score new.highest_score (omega arith)
        (max_le max_score) s.highest t.highest;
  no_completed = s.no_completed;
  no_scores = s.no_scores;
  no_moves = s.no_moves;
  no_pushes = s.no_pushes;
}

pub merged-IsCanonical :
    (game : GameId) (key : Text) (old new : Progress)
    → IsCanonical game key old
    → IsCanonical game key new
    → IsCanonical game key (merged game old new)
merged-IsCanonical sokoban key old new (e, h) (_, k) = (e, merged-IsSokoban _ old new h k)
merged-IsCanonical zuma key old new (e, h) (_, k) = (e, merged-IsZuma old new h k)
merged-IsCanonical tetris key old new h k = absurd h
merged-IsCanonical snake key old new h k = absurd h
merged-IsCanonical game_2048 key old new h k = absurd h

some_ne_none : {A : Type 0} {a : A} → some a ≡ none → ⊥
some_ne_none e = cc

abbrev value :
    Option ℕ
    → Option (List ℕ)
    → Option Metric
    → Option Metric
    → Option Metric
    → Option ℕ
    → Option Bool
    → Progress
value o1 o2 o3 o4 o5 o6 o7 = record {
  unlocked_level = o1;
  completed_levels = o2;
  level_scores = o3;
  best_moves = o4;
  best_pushes = o5;
  highest_score = o6;
  completed_all = o7;
}

module _ (isdigit : ℕ → Bool) (decimal : ℕ → Option ℕ) where
  pub validate_progress-IsCanonical :
      (game : GameId) (key : Text) (v : Json)
      → Ensures (IsCanonical game key) (validate_progress isdigit decimal game key v)
  unfolding validate_progress
  validate_progress-IsCanonical sokoban key (object v) =
      if_intro (Ensures (IsCanonical sokoban key))
        (text_eq key (codes "campaign") || text_eq key (codes "practice"))
        (sokoban_fields isdigit decimal (text_eq key (codes "campaign")) v) (err unknown_key)
        (λ e.
          Ensures-map (IsSokoban (text_eq key (codes "campaign"))) (IsCanonical sokoban key)
            (sokoban_fields isdigit decimal (text_eq key (codes "campaign")) v) (λ p h. (e, h))
            (sokoban_fields-Ensures isdigit decimal (text_eq key (codes "campaign")) v))
        (λ _. tt)
  validate_progress-IsCanonical zuma key (object v) =
      if_intro (Ensures (IsCanonical zuma key)) (text_eq key (codes "campaign")) (zuma_fields v)
        (err unknown_key)
        (λ e.
          Ensures-map IsZuma (IsCanonical zuma key) (zuma_fields v) (λ p h. (e, h))
            (zuma_fields-Ensures v))
        (λ _. tt)
  validate_progress-IsCanonical tetris key (object v) = tt
  validate_progress-IsCanonical snake key (object v) = tt
  validate_progress-IsCanonical game_2048 key (object v) = tt
  validate_progress-IsCanonical game key null = tt
  validate_progress-IsCanonical game key (boolean v) = tt
  validate_progress-IsCanonical game key (integer v) = tt
  validate_progress-IsCanonical game key (real v) = tt
  validate_progress-IsCanonical game key (string v) = tt
  validate_progress-IsCanonical game key (array v) = tt

-- what is canonical is read back
module _ (isdigit : ℕ → Bool) (decimal : ℕ → Option ℕ) (u : IsUnicode isdigit decimal) where
  read_sokoban :
      (key : Text) (o1 : Option ℕ) (o2 : Option (List ℕ)) (o3 o4 o5 : Option Metric) (o6 : Option ℕ)
      (o7 : Option Bool)
      → IsCanonical sokoban key (value o1 o2 o3 o4 o5 o6 o7)
      → o6 ≡ none
      → o7 ≡ none
      → validate_progress isdigit decimal sokoban key
          (object (fields_of (value o1 o2 o3 o4 o5 o6 o7)))
        ≡ ok (value o1 o2 o3 o4 o5 o6 o7)
  unfolding validate_progress fields_of
  read_sokoban key o1 o2 o3 o4 o5 none none (e, h) _ _ =
      rw e (sokoban_fields_lem o1 o2 o3 o4 o5 isdigit decimal u (text_eq key (codes "campaign")) h)
  read_sokoban key o1 o2 o3 o4 o5 (some n) o7 h e _ = absurd (some_ne_none e)
  read_sokoban key o1 o2 o3 o4 o5 none (some b) h _ e = absurd (some_ne_none e)

  read_zuma :
      (key : Text) (o1 : Option ℕ) (o2 : Option (List ℕ)) (o3 o4 o5 : Option Metric) (o6 : Option ℕ)
      (o7 : Option Bool)
      → IsCanonical zuma key (value o1 o2 o3 o4 o5 o6 o7)
      → o2 ≡ none
      → o3 ≡ none
      → o4 ≡ none
      → o5 ≡ none
      → validate_progress isdigit decimal zuma key (object (fields_of (value o1 o2 o3 o4 o5 o6 o7)))
        ≡ ok (value o1 o2 o3 o4 o5 o6 o7)
  unfolding validate_progress fields_of
  read_zuma key o1 none none none none o6 o7 (e, h) _ _ _ _ =
      rw e (zuma_fields_lem o1 o6 o7 h.unlocked h.highest)
  read_zuma key o1 (some a) o3 o4 o5 o6 o7 h e _ _ _ = absurd (some_ne_none e)
  read_zuma key o1 none (some a) o4 o5 o6 o7 h _ e _ _ = absurd (some_ne_none e)
  read_zuma key o1 none none (some a) o5 o6 o7 h _ _ e _ = absurd (some_ne_none e)
  read_zuma key o1 none none none (some a) o6 o7 h _ _ _ e = absurd (some_ne_none e)

  pub validate_progress-fields_of :
      (game : GameId) (key : Text) (p : Progress)
      → IsCanonical game key p
      → validate_progress isdigit decimal game key (object (fields_of p)) ≡ ok p
  validate_progress-fields_of sokoban key p h =
      read_sokoban key p.unlocked_level p.completed_levels p.level_scores p.best_moves p.best_pushes
        p.highest_score p.completed_all h h.1.no_highest h.1.no_all
  validate_progress-fields_of zuma key p h =
      read_zuma key p.unlocked_level p.completed_levels p.level_scores p.best_moves p.best_pushes
        p.highest_score p.completed_all h h.1.no_completed h.1.no_scores h.1.no_moves h.1.no_pushes
  validate_progress-fields_of tetris key p h = absurd h
  validate_progress-fields_of snake key p h = absurd h
  validate_progress-fields_of game_2048 key p h = absurd h
