-- ===== src/Outbox/Values.antt =====
-- game_service/local_backend.py: the values of two progress operations, merged by the policy of
-- game_service/progress.py.
use classic_games.Prelude.{ℕ, Bool, Option, none, some}
use classic_games.Prelude.Results.{Result, ok, err}
use classic_games.Prelude.Texts.{Text}
use classic_games.Prelude.Json.{Json, object}
use classic_games.Catalog.{GameId, game_named}
use classic_games.Progress.Policy.{value_error, Progress, fields_of, merge_progress}
use classic_games.Progress.Policy

-- `invalid_progress` is the StoreError for a ProgressPolicyError; a plain ValueError goes through
pub data ValueFault : Type 0 where
  invalid_progress plain_value_error : ValueFault

unfoldable pub value_fault : Policy.Fault → ValueFault
value_fault value_error = plain_value_error
value_fault _ = invalid_progress

unfoldable pub value_of : Result Policy.Fault Progress → Result ValueFault Json
value_of (ok p) = ok (object (fields_of p))
value_of (err f) = err (value_fault f)

module _ (isdigit : ℕ → Bool) (decimal : ℕ → Option ℕ) where
  unfoldable pub merge_game : Option GameId → Text → Json → Json → Result ValueFault Json
  merge_game none key existing incoming = err invalid_progress
  merge_game (some game) key existing incoming =
      value_of (merge_progress isdigit decimal game key existing incoming)

  abbrev pub merge_values : Text → Text → Json → Json → Result ValueFault Json
  merge_values game_id key existing incoming = merge_game (game_named game_id) key existing incoming
