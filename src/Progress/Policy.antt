-- ===== src/Progress/Policy.antt =====
-- game_service/progress.py: `validate_progress` and `merge_progress`. The Unicode database is a
-- parameter: which characters `isdigit` takes, and the decimal value that `int` reads of one. Numbers
-- over the bound of a field are refused, so an accepted number is a natural number.
use classic_games.Prelude.{
  ℕ, ◌+◌, ◌*◌, ◌/◌, ◌%◌, max, min, Bool, false, ◌&&◌, ◌||◌, not, Option, none, some, List, [], ◌∷◌,
  ltb, leb, ◌==◌, if◌then◌else◌,
}
use classic_games.Prelude.Int.{pos}
use classic_games.Prelude.Results.{Result, ok, err, ◌>>=◌}
use classic_games.Prelude.Texts.{Text, codes, text_eq, all_codes}
use classic_games.Prelude.Json.{
  Json, boolean, integer, array, object, Items, nil, item, Fields, end, field, get, keys_within,
  truthy,
}
use classic_games.Catalog.{GameId, sokoban, zuma}

-- the cases of ProgressPolicyError; `value_error` is the ValueError that `int` raises
pub data Fault : Type 0 where
  not_object unknown_key unknown_fields out_of_range bad_levels bad_metric bad_level_key : Fault
  not_boolean unsupported_game value_error : Fault

abbrev pub sokoban_levels : ℕ
sokoban_levels = 16

abbrev pub zuma_levels : ℕ
zuma_levels = 5

-- MAX_SCORE of mutation.py
abbrev pub max_score : ℕ
max_score = 2147483647

unfoldable pub bounded_int : ℕ → ℕ → Json → Result Fault ℕ
bounded_int low high (integer (pos n)) = if leb low n && leb n high then ok n else err out_of_range
bounded_int low high _ = err out_of_range

-- an element of sorted(set(…))
unfoldable pub insert : ℕ → List ℕ → List ℕ
insert x [] = x ∷ []
insert x (y ∷ ys) =
    let rest = insert x ys in if ltb x y then x ∷ y ∷ ys else if x == y then y ∷ ys else y ∷ rest

unfoldable pub sorted_union : List ℕ → List ℕ → List ℕ
sorted_union [] ys = ys
sorted_union (x ∷ xs) ys = insert x (sorted_union xs ys)

unfoldable pub level_items : ℕ → Items → Result Fault (List ℕ)
level_items count nil = ok []
level_items count (item (integer (pos n)) rest) =
    if ltb n count then (level_items count rest >>= λ ns. ok (insert n ns)) else err bad_levels
level_items count (item _ rest) = err bad_levels

unfoldable pub level_set : ℕ → Json → Result Fault (List ℕ)
level_set count (array items) = level_items count items
level_set count _ = err bad_levels

-- a dictionary from levels to numbers: result[level] = n
abbrev pub Metric : Type 0
Metric = List (ℕ × ℕ)

unfoldable pub assign : ℕ → ℕ → Metric → Metric
assign k n [] = (k, n) ∷ []
assign k n ((j, v) ∷ entries) =
    let rest = assign k n entries in if j == k then (j, n) ∷ entries else (j, v) ∷ rest

unfoldable pub lookup : ℕ → Metric → Option ℕ
lookup k [] = none
lookup k ((j, v) ∷ entries) = let later = lookup k entries in if j == k then some v else later

-- what `validate_progress` returns; a field that is absent is none
pub record Progress : Type 0 where
  pub unlocked_level : Option ℕ
  pub completed_levels : Option (List ℕ)
  pub level_scores : Option Metric
  pub best_moves : Option Metric
  pub best_pushes : Option Metric
  pub highest_score : Option ℕ
  pub completed_all : Option Bool

abbrev pub no_progress : Progress
no_progress = record {
  unlocked_level = none;
  completed_levels = none;
  level_scores = none;
  best_moves = none;
  best_pushes = none;
  highest_score = none;
  completed_all = none;
}

-- if field in value: result[field] = check(value[field])
abbrev pub optional : {A : Type 0} → (Json → Result Fault A) → Option Json → Result Fault (Option A)
optional check none = ok none
optional check (some v) = check v >>= λ a. ok (some a)

unfoldable pub check_boolean : Json → Result Fault Bool
check_boolean (boolean b) = ok b
check_boolean _ = err not_boolean

abbrev pub sokoban_keys : List Text
sokoban_keys =
    codes "completed_levels" ∷ codes "level_scores" ∷ codes "best_moves" ∷ codes "best_pushes" ∷ []

abbrev pub zuma_keys : List Text
zuma_keys = codes "unlocked_level" ∷ codes "highest_score" ∷ codes "completed_all" ∷ []

unfoldable pub zuma_fields : Fields → Result Fault Progress
zuma_fields v = if not (keys_within zuma_keys v) then err unknown_fields else do
  unlocked ← optional (bounded_int 1 zuma_levels) (get (codes "unlocked_level") v)
  highest ← optional (bounded_int 0 max_score) (get (codes "highest_score") v)
  all ← optional check_boolean (get (codes "completed_all") v)
  ok (record no_progress {
    unlocked_level = unlocked;
    highest_score = highest;
    completed_all = all;
  })

module _ (isdigit : ℕ → Bool) (decimal : ℕ → Option ℕ) where
  abbrev pub next_digit : Option ℕ → ℕ → Result Fault ℕ
  next_digit none acc = err value_error
  next_digit (some d) acc = ok (acc * 10 + d)

  -- int(text), for a text of digits
  unfoldable pub int_of : Text → ℕ → Result Fault ℕ
  int_of [] acc = ok acc
  int_of (c ∷ s) acc = next_digit (decimal c) acc >>= int_of s

  -- text.isdigit()
  abbrev pub is_number : Text → Bool
  is_number [] = false
  is_number (c ∷ s) = all_codes isdigit (c ∷ s)

  unfoldable pub level_key : ℕ → Text → Result Fault ℕ
  level_key count k =
      if not (is_number k)
      then err bad_level_key
      else (int_of k 0 >>= λ n. if ltb n count then ok n else err bad_level_key)

  unfoldable pub metric_fields : ℕ → Metric → Fields → Result Fault Metric
  metric_fields count result end = ok result
  metric_fields count result (field k v rest) = do
    level ← level_key count k
    n ← bounded_int 0 max_score v
    metric_fields count (assign level n result) rest

  unfoldable pub level_metric : ℕ → Json → Result Fault Metric
  level_metric count (object fields) = metric_fields count [] fields
  level_metric count _ = err bad_metric

  unfoldable pub sokoban_fields : Bool → Fields → Result Fault Progress
  sokoban_fields campaign v =
      let allowed = if campaign then codes "unlocked_level" ∷ sokoban_keys else sokoban_keys in
      if not (keys_within allowed v) then err unknown_fields else do
        unlocked ← optional (bounded_int 1 sokoban_levels) (get (codes "unlocked_level") v)
        completed ← optional (level_set sokoban_levels) (get (codes "completed_levels") v)
        scores ← optional (level_metric sokoban_levels) (get (codes "level_scores") v)
        moves ← optional (level_metric sokoban_levels) (get (codes "best_moves") v)
        pushes ← optional (level_metric sokoban_levels) (get (codes "best_pushes") v)
        ok (record no_progress {
          unlocked_level = unlocked;
          completed_levels = completed;
          level_scores = scores;
          best_moves = moves;
          best_pushes = pushes;
        })

  abbrev pub validate_fields : GameId → Text → Fields → Result Fault Progress
  validate_fields sokoban key v =
      let campaign = text_eq key (codes "campaign") in
      if campaign || text_eq key (codes "practice")
      then sokoban_fields campaign v
      else err unknown_key
  validate_fields zuma key v =
      if text_eq key (codes "campaign") then zuma_fields v else err unknown_key
  validate_fields _ key v = err unsupported_game

  unfoldable pub validate_progress : GameId → Text → Json → Result Fault Progress
  validate_progress game key (object v) = validate_fields game key v
  validate_progress game key _ = err not_object

-- the dictionary that a value of `Progress` stands for
abbrev pub optional_field : {A : Type 0} → (A → Json) → Text → Option A → Fields → Fields
optional_field enc k none rest = rest
optional_field enc k (some a) rest = field k (enc a) rest

-- str(level), for a level below 100
unfoldable pub level_text : ℕ → Text
level_text n = if ltb n 10 then (48 + n) ∷ [] else (48 + n / 10) ∷ (48 + n % 10) ∷ []

abbrev pub number : ℕ → Json
number n = integer (pos n)

unfoldable pub items_of : List ℕ → Items
items_of [] = nil
items_of (n ∷ ns) = item (number n) (items_of ns)

unfoldable pub metric_of : Metric → Fields
metric_of [] = end
metric_of ((k, n) ∷ entries) = field (level_text k) (number n) (metric_of entries)

abbrev pub levels_json : List ℕ → Json
levels_json ns = array (items_of ns)

abbrev pub metric_json : Metric → Json
metric_json entries = object (metric_of entries)

unfoldable pub fields_of : Progress → Fields
fields_of p = optional_field number (codes "unlocked_level") p.unlocked_level (
    optional_field levels_json (codes "completed_levels") p.completed_levels (
      optional_field metric_json (codes "level_scores") p.level_scores (
        optional_field metric_json (codes "best_moves") p.best_moves (
          optional_field metric_json (codes "best_pushes") p.best_pushes (
            optional_field number (codes "highest_score") p.highest_score
              (optional_field boolean (codes "completed_all") p.completed_all end))))))

abbrev pub get_or {ℓ} : {A : Type ℓ} → A → Option A → A
get_or d none = d
get_or d (some a) = a

-- if field in new: result[field] = join(result.get(field, default), new[field])
abbrev pub merge_field : {A : Type 0} → (A → A → A) → A → Option A → Option A → Option A
merge_field join d old none = old
merge_field join d old (some n) = some (join (get_or d old) n)

-- merged[level] = join(merged.get(level, default), metric), for each entry of `new`
unfoldable pub merge_metric : (Option ℕ → ℕ → ℕ) → Metric → Metric → Metric
merge_metric join old [] = old
merge_metric join old ((k, n) ∷ new) = merge_metric join (assign k (join (lookup k old) n) old) new

abbrev pub higher : Option ℕ → ℕ → ℕ
higher o n = max (get_or 0 o) n

abbrev pub lower : Option ℕ → ℕ → ℕ
lower o n = min (get_or n o) n

unfoldable pub merged : GameId → Progress → Progress → Progress
merged sokoban old new = record old {
  unlocked_level = merge_field max 1 old.unlocked_level new.unlocked_level;
  completed_levels =
      merge_field (λ a b. sorted_union b a) [] old.completed_levels new.completed_levels;
  level_scores = merge_field (merge_metric higher) [] old.level_scores new.level_scores;
  best_moves = merge_field (merge_metric lower) [] old.best_moves new.best_moves;
  best_pushes = merge_field (merge_metric lower) [] old.best_pushes new.best_pushes;
}
merged _ old new = record old {
  unlocked_level = merge_field max 1 old.unlocked_level new.unlocked_level;
  highest_score = merge_field max 0 old.highest_score new.highest_score;
  completed_all = merge_field (λ a b. a || b) false old.completed_all new.completed_all;
}

-- existing or {}
abbrev pub or_empty : Json → Json
or_empty v = if truthy v then v else object end

module _ (isdigit : ℕ → Bool) (decimal : ℕ → Option ℕ) where
  unfoldable pub merge_progress : GameId → Text → Json → Json → Result Fault Progress
  merge_progress game key existing incoming = do
    old ← validate_progress isdigit decimal game key (or_empty existing)
    new ← validate_progress isdigit decimal game key incoming
    validate_progress isdigit decimal game key (object (fields_of (merged game old new)))
