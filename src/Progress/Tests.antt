-- ===== src/Progress/Tests.antt =====
-- Runs of the progress policies, over an ASCII Unicode database.
use classic_games.Prelude.{ℕ, ◌-◌, ◌≡◌, refl, true, Option, none, some, [], ◌∷◌, if◌then◌else◌}
use classic_games.Prelude.Results.{ok, err}
use classic_games.Prelude.Texts.{Text, codes, text_eq, all_codes, is_digit}
use classic_games.Prelude.Json.{
  Json, array, object, nil, item, end, field, get, keys_within, truthy,
}
use classic_games.Catalog.{sokoban}
use classic_games.Progress.Policy.{
  value_error, bounded_int, insert, sorted_union, level_items, level_set, assign, lookup, Progress,
  no_progress, int_of, level_key, metric_fields, level_metric, sokoban_fields, validate_progress,
  number, fields_of, merge_metric, merged, or_empty, merge_progress,
}
use classic_games.Progress.Read.{IsUnicode}
use classic_games.Progress.Merge.{IsKept, merge_progress_lem, merge_progress-IsKept}
use classic_games.Progress.Replay.{merge_progress-merge_progress}

abbrev decimal : ℕ → Option ℕ
decimal c = if is_digit c then some (c - 48) else none

ascii-IsUnicode : IsUnicode is_digit decimal
ascii-IsUnicode = record { digits = λ c h. h; decimals = λ c h. rw h refl }

abbrev campaign : Text
campaign = codes "campaign"

abbrev first_win : Json
first_win = object (
    field (codes "unlocked_level") (number 2) (
      field (codes "completed_levels") (array (item (number 0) nil))
        (field (codes "best_moves") (object (field (codes "0") (number 40) end)) end)))

abbrev second_win : Json
second_win = object (
    field (codes "completed_levels") (array (item (number 11) (item (number 0) nil))) (
      field (codes "best_moves")
        (object (field (codes "0") (number 30) (field (codes "11") (number 90) end))) end))

abbrev first : Progress
first = record no_progress {
  unlocked_level = some 2;
  completed_levels = some (0 ∷ []);
  best_moves = some ((0, 40) ∷ []);
}

abbrev second : Progress
second = record no_progress {
  completed_levels = some (0 ∷ 11 ∷ []);
  best_moves = some ((0, 30) ∷ (11, 90) ∷ []);
}

abbrev both : Progress
both = record no_progress {
  unlocked_level = some 2;
  completed_levels = some (0 ∷ 11 ∷ []);
  best_moves = some ((0, 30) ∷ (11, 90) ∷ []);
}

first_read : validate_progress is_digit decimal sokoban campaign (or_empty first_win) ≡ ok first
unfolding validate_progress sokoban_fields get keys_within text_eq truthy bounded_int level_set
    level_items insert level_metric metric_fields level_key int_of all_codes assign
first_read = refl

second_read : validate_progress is_digit decimal sokoban campaign second_win ≡ ok second
unfolding validate_progress sokoban_fields get keys_within text_eq bounded_int level_set level_items
    insert level_metric metric_fields level_key int_of all_codes assign
second_read = refl

merged-both : merged sokoban first second ≡ both
unfolding merged sorted_union insert merge_metric assign lookup
merged-both = refl

-- a superscript two is a digit of no decimal value
superscript : level_key (λ c. true) decimal 16 (codes "²") ≡ err value_error
unfolding level_key int_of all_codes
superscript = refl

merge_progress_lem_example :
    merge_progress is_digit decimal sokoban campaign first_win second_win
    ≡ ok (merged sokoban first second)
merge_progress_lem_example =
    merge_progress_lem is_digit decimal ascii-IsUnicode sokoban campaign first_win second_win first
      second first_read second_read

merge_progress-IsKept_example :
    (r : Progress) × (merge_progress is_digit decimal sokoban campaign first_win second_win ≡ ok r)
    × IsKept first r
    × IsKept second r
merge_progress-IsKept_example =
    merge_progress-IsKept is_digit decimal ascii-IsUnicode sokoban campaign first_win second_win
      first second first_read second_read

merge_progress-merge_progress_example :
    merge_progress is_digit decimal sokoban campaign
      (object (fields_of (merged sokoban first second)))
      second_win
    ≡ ok (merged sokoban first second)
merge_progress-merge_progress_example =
    merge_progress-merge_progress is_digit decimal ascii-IsUnicode sokoban campaign first_win
      second_win (merged sokoban first second) merge_progress_lem_example
