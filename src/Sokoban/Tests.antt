-- ===== src/Sokoban/Tests.antt =====
-- Runs of the Sokoban model on a small level.
use mathlib.Core.List.{reverse}
use classic_games.Prelude.Results.{ok}
use classic_games.Prelude.{
  ℕ, ◌-◌, Option, some, if◌then◌else◌, ◌+◌, ◌≡◌, ◌⊎◌, refl, true, false, none, List, [], ◌∷◌, arith,
}
use classic_games.Prelude.Int.{pos, ◌+ℤ◌}
use classic_games.Points.{Point, point_eq, shift, contains, remove, add}
use classic_games.Sokoban.Play.{up, right, vector, walk, undo, encode_history, decode_history}
use classic_games.Sokoban.Trail.{legal}
use classic_games.Sokoban.Session.{Action, go, take_back, play, played, decode-encode, IsSound}
use classic_games.Prelude.Texts.{codes, is_digit}
use classic_games.Prelude.Json.{object}
use classic_games.Catalog.{sokoban}
use classic_games.Progress.Policy.{assign, lookup, validate_progress, fields_of}
use classic_games.Progress.Read.{IsUnicode}
use classic_games.Sokoban.Ledger.{IsLedger, validate_progress-campaign_value}
use classic_games.Sokoban.Win.{
  Game, record_campaign, campaign_value, practice_value, playing, won, all_in, same_cells,
  show_result, win_practice, record_practice, check_win, refresh_checkpoint, can_walk, try_move,
  direction_key, undo_key,
}
use classic_games.Sokoban.Clear.{IsSame, undo_key-direction_key}
use classic_games.Sokoban.Level
use classic_games.Sokoban.Level.{Level, parse_level}
use classic_games.Sokoban.Campaign.{parse_level-IsSound}

-- @$.T
abbrev text : List (List ℕ)
text = (b'@' ∷ b'$' ∷ b'.' ∷ b'T' ∷ []) ∷ []

abbrev at : ℕ → Point
at x = (pos x, pos 0)

abbrev level : Level
level = record {
  walls = [];
  targets = at 3 ∷ [];
  boxes = at 1 ∷ [];
  player = at 0;
  floors = at 3 ∷ at 2 ∷ at 1 ∷ at 0 ∷ [];
}

parses : parse_level text ≡ ok level
unfolding parse_level Level.parse_rows Level.parse_row Level.parse_cell Level.symbol_of Level.put
    Level.same_width Level.checked contains add point_eq
parses = refl

abbrev actions : List Action
actions = go right ∷ go up ∷ take_back ∷ go right ∷ go right ∷ go right ∷ []

parse_level-IsSound_example :
    IsSound level.floors 1 (played level.floors level.boxes level.player actions).scene
parse_level-IsSound_example = parse_level-IsSound text level actions parses

two_pushes : (played level.floors level.boxes level.player actions).scene.pushes ≡ 2
unfolding play walk undo vector shift contains remove add point_eq ◌+ℤ◌
two_pushes = refl

decode-encode_example :
    (commands : List ℕ) × (encode_history
        (reverse (played level.floors level.boxes level.player actions).history)
        (played level.floors level.boxes level.player actions).scene.player
      ≡ ok commands)
    × (decode_history commands level.player level.boxes level.floors
        ≡ ok (
          (played level.floors level.boxes level.player actions).scene,
          reverse (played level.floors level.boxes level.player actions).history,
        ))
unfolding play walk undo vector shift contains remove add point_eq ◌+ℤ◌
decode-encode_example = decode-encode level.floors level.boxes level.player actions (omega arith)

-- the level one push before it is cleared, as a practice level
abbrev nearly : Game
nearly = record {
  board = played level.floors level.boxes level.player (go right ∷ []);
  targets = level.targets;
  phase = playing;
  practice_mode = true;
  level_idx = 2;
  score = 0;
  total_score = 0;
  unlocked_level = 4;
  level_scores = [];
  completed_levels = [];
  saved_completed_levels = [];
  practice_level_scores = [];
  practice_best_moves = [];
  practice_best_pushes = [];
  practice_completed_levels = [];
  confirmed_total = none;
  pending_total = none;
  session_active = false;
  extra = none;
  effects = [];
}

undo_key-direction_key_example :
    ((legal nearly.board.floors right nearly.board.scene ≡ none)
      × (direction_key right nearly ≡ nearly))
    ⊎ ((same_cells (walk right nearly.board).scene.boxes nearly.targets ≡ false)
        × ((walk right nearly.board).scene.moves ≡ nearly.board.scene.moves + 1)
        × ((direction_key right nearly).board ≡ walk right nearly.board)
        × IsSame (undo_key (direction_key right nearly)) nearly)
    ⊎ ((same_cells (walk right nearly.board).scene.boxes nearly.targets ≡ true)
        × ((walk right nearly.board).scene.moves ≡ nearly.board.scene.moves + 1)
        × ((direction_key right nearly).board ≡ walk right nearly.board)
        × ((direction_key right nearly).phase ≡ won)
        × (undo_key (direction_key right nearly) ≡ direction_key right nearly))
undo_key-direction_key_example = undo_key-direction_key right nearly refl

clears : (direction_key right nearly).score ≡ 998
unfolding direction_key try_move check_win win_practice record_practice show_result
    refresh_checkpoint can_walk walk play vector shift contains remove add point_eq ◌+ℤ◌ all_in
    assign lookup
clears = refl

abbrev decimal : ℕ → Option ℕ
decimal c = if is_digit c then some (c - 48) else none

ascii_only : IsUnicode is_digit decimal
ascii_only = record { digits = λ c h. h; decimals = λ c h. rw h refl }

nearly-IsLedger : IsLedger nearly
unfolding play walk vector shift contains remove add point_eq ◌+ℤ◌
nearly-IsLedger = record {
  level = omega arith;
  scores = tt;
  completed = tt;
  practice_scores = tt;
  practice_moves = tt;
  practice_pushes = tt;
  practice_completed = tt;
  moves = omega arith;
  pushes = omega arith;
}

validate_progress-campaign_value_example :
    IsLedger (record_campaign nearly)
    × IsLedger (record_practice nearly)
    × (validate_progress is_digit decimal sokoban
          (codes "campaign")
          (object (fields_of (campaign_value (record_campaign nearly))))
        ≡ ok (campaign_value (record_campaign nearly)))
    × (validate_progress is_digit decimal sokoban
          (codes "practice")
          (object (fields_of (practice_value (record_practice nearly))))
        ≡ ok (practice_value (record_practice nearly)))
validate_progress-campaign_value_example =
    validate_progress-campaign_value is_digit decimal ascii_only nearly nearly-IsLedger
