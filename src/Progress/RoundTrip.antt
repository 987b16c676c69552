-- ===== src/Progress/RoundTrip.antt =====
-- `validate_progress` reads back what it returns.
use classic_games.Prelude.{
  ℕ, ◌≤◌, ◌≡◌, refl, ◌∙◌, Bool, true, false, Option, none, some, List, [], ◌∷◌, ◌||◌, if◌then◌else◌,
  arith,
}
use classic_games.Prelude.Results.{ok}
use classic_games.Prelude.Texts.{Text, codes, text_eq, text_eq_refl}
use classic_games.Prelude.Json.{boolean, Fields, end, get, has_text, keys_within}
use classic_games.Catalog.{GameId, sokoban, zuma}
use classic_games.Progress.Policy.{
  sokoban_levels, zuma_levels, max_score, bounded_int, level_set, Metric, Progress, no_progress,
  check_boolean, level_metric, sokoban_keys, sokoban_fields, zuma_keys, zuma_fields, optional_field,
  number, levels_json, metric_json,
}
use classic_games.Progress.Canonical.{IsSorted, IsMetric, level_items_lem}
use classic_games.Progress.Read.{
  Opt, get-absent, get-optional_hit, get-optional_miss, keys_within-optional, bounded_int_lem,
  IsUnicode, level_metric_lem, IsSokoban, IsZuma,
}

Opt_map : {A : Type 0} (P Q : A → Type 0) (o : Option A) → ((a : A) → P a → Q a) → Opt P o → Opt Q o
Opt_map P Q none f h = tt
Opt_map P Q (some a) f h = f a h

level_set_lem :
    (count : ℕ) (ns : List ℕ) → IsSorted count ns → level_set count (levels_json ns) ≡ ok ns
unfolding level_set
level_set_lem count ns s = level_items_lem count ns s

abbrev unlocked_key : Text
unlocked_key = codes "unlocked_level"

abbrev completed_key : Text
completed_key = codes "completed_levels"

abbrev scores_key : Text
scores_key = codes "level_scores"

abbrev moves_key : Text
moves_key = codes "best_moves"

abbrev pushes_key : Text
pushes_key = codes "best_pushes"

module _ (o1 : Option ℕ) (o2 : Option (List ℕ)) (o3 o4 o5 : Option Metric) where
  abbrev from_pushes : Fields
  from_pushes = optional_field metric_json pushes_key o5 end

  abbrev from_moves : Fields
  from_moves = optional_field metric_json moves_key o4 from_pushes

  abbrev from_scores : Fields
  from_scores = optional_field metric_json scores_key o3 from_moves

  abbrev from_completed : Fields
  from_completed = optional_field levels_json completed_key o2 from_scores

  abbrev from_unlocked : Fields
  from_unlocked = optional_field number unlocked_key o1 from_completed

  module _ (allowed : List Text) where
    pushes_within : has_text allowed pushes_key ≡ true → keys_within allowed from_pushes ≡ true
    unfolding keys_within
    pushes_within p = keys_within-optional metric_json pushes_key allowed o5 end p refl

    moves_within :
        has_text allowed moves_key ≡ true
        → has_text allowed pushes_key ≡ true
        → keys_within allowed from_moves ≡ true
    moves_within m p =
        keys_within-optional metric_json moves_key allowed o4 from_pushes m (pushes_within p)

    scores_within :
        has_text allowed scores_key ≡ true
        → has_text allowed moves_key ≡ true
        → has_text allowed pushes_key ≡ true
        → keys_within allowed from_scores ≡ true
    scores_within s m p =
        keys_within-optional metric_json scores_key allowed o3 from_moves s (moves_within m p)

    completed_within :
        has_text allowed completed_key ≡ true
        → has_text allowed scores_key ≡ true
        → has_text allowed moves_key ≡ true
        → has_text allowed pushes_key ≡ true
        → keys_within allowed from_completed ≡ true
    completed_within c s m p =
        keys_within-optional levels_json completed_key allowed o2 from_scores c
          (scores_within s m p)

  -- only the campaign has the key of the unlocked level
  keys_allowed :
      (campaign : Bool)
      → (campaign ≡ false → o1 ≡ none)
      → keys_within (if campaign then unlocked_key ∷ sokoban_keys else sokoban_keys) from_unlocked
        ≡ true
  unfolding text_eq
  keys_allowed true h =
      keys_within-optional number unlocked_key (unlocked_key ∷ sokoban_keys) o1 from_completed refl
        (completed_within (unlocked_key ∷ sokoban_keys) refl refl refl refl)
  keys_allowed false h = rw (h refl) (completed_within sokoban_keys refl refl refl refl)

  absent_unlocked : get unlocked_key from_completed ≡ none
  unfolding text_eq
  absent_unlocked =
      get-absent sokoban_keys unlocked_key from_completed
        (completed_within sokoban_keys refl refl refl refl) refl

  absent_completed : get completed_key from_scores ≡ none
  unfolding text_eq
  absent_completed =
      get-absent (scores_key ∷ moves_key ∷ pushes_key ∷ []) completed_key from_scores
        (scores_within (scores_key ∷ moves_key ∷ pushes_key ∷ []) refl refl refl) refl

  absent_scores : get scores_key from_moves ≡ none
  unfolding text_eq
  absent_scores =
      get-absent (moves_key ∷ pushes_key ∷ []) scores_key from_moves
        (moves_within (moves_key ∷ pushes_key ∷ []) refl refl) refl

  absent_moves : get moves_key from_pushes ≡ none
  unfolding text_eq
  absent_moves =
      get-absent (pushes_key ∷ []) moves_key from_pushes (pushes_within (pushes_key ∷ []) refl) refl

  completed_seen : get completed_key from_unlocked ≡ get completed_key from_completed
  unfolding text_eq
  completed_seen = get-optional_miss number unlocked_key completed_key o1 from_completed refl

  scores_seen : get scores_key from_unlocked ≡ get scores_key from_scores
  unfolding text_eq
  scores_seen =
      get-optional_miss number unlocked_key scores_key o1 from_completed refl
      ∙ get-optional_miss levels_json completed_key scores_key o2 from_scores refl

  moves_seen : get moves_key from_unlocked ≡ get moves_key from_moves
  unfolding text_eq
  moves_seen =
      get-optional_miss number unlocked_key moves_key o1 from_completed refl
      ∙ (get-optional_miss levels_json completed_key moves_key o2 from_scores refl
          ∙ get-optional_miss metric_json scores_key moves_key o3 from_moves refl)

  pushes_seen : get pushes_key from_unlocked ≡ get pushes_key from_pushes
  unfolding text_eq
  pushes_seen =
      get-optional_miss number unlocked_key pushes_key o1 from_completed refl
      ∙ (get-optional_miss levels_json completed_key pushes_key o2 from_scores refl
          ∙ (get-optional_miss metric_json scores_key pushes_key o3 from_moves refl
              ∙ get-optional_miss metric_json moves_key pushes_key o4 from_pushes refl))

  module _ (isdigit : ℕ → Bool) (decimal : ℕ → Option ℕ) (u : IsUnicode isdigit decimal) where
    abbrev written : Progress
    written = record no_progress {
      unlocked_level = o1;
      completed_levels = o2;
      level_scores = o3;
      best_moves = o4;
      best_pushes = o5;
    }

    metric_read :
        (o : Option Metric)
        → Opt (IsMetric sokoban_levels) o
        → Opt (λ m. level_metric isdigit decimal sokoban_levels (metric_json m) ≡ ok m) o
    metric_read o h = Opt_map _ _ o (level_metric_lem isdigit decimal u) h

    pub sokoban_fields_lem :
        (campaign : Bool)
        → IsSokoban campaign written
        → sokoban_fields isdigit decimal campaign from_unlocked ≡ ok written
    unfolding sokoban_fields get
    sokoban_fields_lem campaign s = rw (
      keys_allowed campaign s.practice_locked,
      get-optional_hit number unlocked_key o1 from_completed (bounded_int 1 sokoban_levels)
          (text_eq_refl unlocked_key) absent_unlocked
          (Opt_map _ _ o1 (λ n h. bounded_int_lem 1 sokoban_levels n h.0 h.1) s.unlocked),
      completed_seen,
      get-optional_hit levels_json completed_key o2 from_scores (level_set sokoban_levels)
          (text_eq_refl completed_key) absent_completed
          (Opt_map _ _ o2 (level_set_lem sokoban_levels) s.completed),
      scores_seen,
      get-optional_hit metric_json scores_key o3 from_moves
          (level_metric isdigit decimal sokoban_levels) (text_eq_refl scores_key) absent_scores
          (metric_read o3 s.scores),
      moves_seen,
      get-optional_hit metric_json moves_key o4 from_pushes
          (level_metric isdigit decimal sokoban_levels) (text_eq_refl moves_key) absent_moves
          (metric_read o4 s.moves),
      pushes_seen,
      get-optional_hit metric_json pushes_key o5 end (level_metric isdigit decimal sokoban_levels)
          (text_eq_refl pushes_key) refl (metric_read o5 s.pushes),
    )

abbrev highest_key : Text
highest_key = codes "highest_score"

abbrev all_key : Text
all_key = codes "completed_all"

module _ (o1 o2 : Option ℕ) (o3 : Option Bool) where
  abbrev from_all : Fields
  from_all = optional_field boolean all_key o3 end

  abbrev from_highest : Fields
  from_highest = optional_field number highest_key o2 from_all

  abbrev from_zuma : Fields
  from_zuma = optional_field number unlocked_key o1 from_highest

  all_within :
      (allowed : List Text) → has_text allowed all_key ≡ true → keys_within allowed from_all ≡ true
  unfolding keys_within
  all_within allowed a = keys_within-optional boolean all_key allowed o3 end a refl

  highest_within :
      (allowed : List Text)
      → has_text allowed highest_key ≡ true
      → has_text allowed all_key ≡ true
      → keys_within allowed from_highest ≡ true
  highest_within allowed h a =
      keys_within-optional number highest_key allowed o2 from_all h (all_within allowed a)

  pub zuma_fields_lem :
      Opt (λ n. (1 ≤ n) × (n ≤ zuma_levels)) o1
      → Opt (λ n. n ≤ max_score) o2
      → zuma_fields from_zuma
        ≡ ok (record no_progress { unlocked_level = o1; highest_score = o2; completed_all = o3 })
  unfolding zuma_fields get text_eq check_boolean
  zuma_fields_lem h k = rw (
    keys_within-optional number unlocked_key zuma_keys o1 from_highest refl
        (highest_within zuma_keys refl refl),
    get-optional_hit number unlocked_key o1 from_highest (bounded_int 1 zuma_levels) refl
        (get-absent (highest_key ∷ all_key ∷ []) unlocked_key from_highest
          (highest_within (highest_key ∷ all_key ∷ []) refl refl) refl)
        (Opt_map _ _ o1 (λ n h. bounded_int_lem 1 zuma_levels n h.0 h.1) h),
    get-optional_miss number unlocked_key highest_key o1 from_highest refl,
    get-optional_hit number highest_key o2 from_all (bounded_int 0 max_score) refl
        (get-absent (all_key ∷ []) highest_key from_all (all_within (all_key ∷ []) refl) refl)
        (Opt_map _ _ o2 (λ n h. bounded_int_lem 0 max_score n (omega arith) h) k),
    get-optional_miss number unlocked_key all_key o1 from_highest refl,
    get-optional_miss number highest_key all_key o2 from_all refl,
    get-optional_hit boolean all_key o3 end check_boolean refl refl
        (Opt_map (λ _. Unit {0}) _ o3 (λ b _. refl) (anything o3)),
  )
    where
      anything : (o : Option Bool) → Opt (λ _. Unit {0}) o
      anything none = tt
      anything (some b) = tt

-- what a game's progress under a key must be
abbrev pub IsCanonical : GameId → Text → Progress → Type 0
IsCanonical sokoban key p =
    ((text_eq key (codes "campaign") || text_eq key (codes "practice")) ≡ true)
    × IsSokoban (text_eq key (codes "campaign")) p
IsCanonical zuma key p = (text_eq key (codes "campaign") ≡ true) × IsZuma p
IsCanonical _ key p = ⊥
