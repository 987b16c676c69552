-- ===== src/Game2048/Tests.antt =====
-- Runs of the 2048 model on small boards.
use mathlib.Core.Option
use classic_games.Prelude.{ℕ, ◌+◌, ◌≡◌, refl, ◌↔◌, true, false, none, [], ◌∷◌, arith}
use classic_games.Game2048.Board.{
  Tile, Grid, Draw, new_tile, set_cell, empty_grid, target_of, value_of, board_sum, can_move,
  IsSettled,
}
use classic_games.Game2048.Line.{process_line, merged, single}
use classic_games.Game2048.Slide.{Direction, left, right, up, slide, line_tiles}
use classic_games.Game2048.Slide.Total.{slide_total}
use classic_games.Game2048.Slide.Still.{at_home, slide_still}
use classic_games.Game2048.Slide.Placed.{
  IsPlaced, slide-IsPlaced, set_cell-IsSettled, IsSettled-IsPlaced,
}
use classic_games.Game2048.Line.Rule.{merge_rule, process_line-eq-merge_rule}
use classic_games.Game2048.CanMove.{can_move_iff}
use classic_games.Game2048.Play.{Game, autosave_fields, settled_fields, playing, slide_end, move}
use classic_games.Game2048.Tick.{reset, settle}
use classic_games.Game2048.Invariant.{frame, turn, IsGood, run, run-IsGood}
use classic_games.Game2048.Outcome.{frames, elapsed, autosave-move, Verdict, settle-Verdict}

abbrev pair : Tile × Tile
pair = (new_tile 2 0 0, new_tile 2 0 1)

-- 2 2 2: the two nearest to the edge merge, the third does not
three :
    process_line (pair.0 ∷ pair.1 ∷ new_tile 2 0 2 ∷ [])
    ≡ merged pair.0 pair.1 ∷ single (new_tile 2 0 2) ∷ []
unfolding process_line
three = refl

abbrev corner : Grid
corner = set_cell empty_grid 0 3 (new_tile 2 0 3)

corner-IsSettled : IsSettled corner
corner-IsSettled = set_cell-IsSettled empty_grid 0 3 2 (record { at = λ r c hr hc. tt })

abbrev twin : Grid
twin = set_cell corner 0 1 (new_tile 2 0 1)

twin-IsSettled : IsSettled twin
twin-IsSettled = set_cell-IsSettled corner 0 1 2 corner-IsSettled

twin_slides : (slide left twin 0 false).score ≡ 4
unfolding slide process_line line_tiles
twin_slides = refl

process_line-eq-merge_rule_example :
    process_line (pair.0 ∷ pair.1 ∷ []) ≡ merge_rule (pair.0 ∷ pair.1 ∷ [])
process_line-eq-merge_rule_example = process_line-eq-merge_rule (pair.0 ∷ pair.1 ∷ [])

slide_total_example : board_sum target_of (slide left twin 0 false).cells ≡ board_sum value_of twin
slide_total_example = slide_total left twin 0 false twin-IsSettled

slide_still_example : (slide right corner 0 false).cells 0 3 ≡ Option.map (at_home 0 3) (corner 0 3)
unfolding slide process_line line_tiles
slide_still_example =
    slide_still right corner 0 false 0 3 corner-IsSettled refl (omega arith) (omega arith)

slide-IsPlaced_example : IsPlaced (slide up twin 0 false).cells
slide-IsPlaced_example = slide-IsPlaced up twin 0 false

can_move_iff_example :
    (can_move twin ≡ true) ↔ ((d : Direction) × ((slide d twin 0 false).moved ≡ true))
can_move_iff_example = can_move_iff twin 0 false 0 3 twin-IsSettled (omega arith) (omega arith) refl

abbrev digest : ℕ → ℕ → Direction → ℕ
digest old count d = old + count

abbrev draw : Draw
draw = record { pick = 5; four = false }

run-IsGood_example :
    IsGood digest (run digest (turn left ∷ frame draw 200 ∷ turn up ∷ []) (reset true 0 draw draw))
run-IsGood_example = run-IsGood digest true 0 draw draw (turn left ∷ frame draw 200 ∷ turn up ∷ [])

abbrev started : Game
started = record {
  grid = twin;
  fading = [];
  score = 0;
  won = false;
  won_announced = false;
  phase = playing;
  anim_t = slide_end;
  queued = [];
  move_count = 0;
  move_digest = 0;
  pre_move = none;
  extra = none;
  effects = [];
}

twin_moves : (move digest left started).0 ≡ true
unfolding move slide process_line line_tiles
twin_moves = refl

autosave-move_example :
    autosave_fields (frames digest ((draw, 16) ∷ (draw, 100) ∷ []) (move digest left started).1)
    ≡ settled_fields started
unfolding elapsed
autosave-move_example =
    autosave-move digest left started ((draw, 16) ∷ (draw, 100) ∷ []) twin_moves (omega arith)

settle-Verdict_example : Verdict (settle draw started)
settle-Verdict_example =
    settle-Verdict draw started 0 3 (IsSettled-IsPlaced twin twin-IsSettled) refl (omega arith)
      (omega arith) refl
