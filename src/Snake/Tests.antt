-- ===== src/Snake/Tests.antt =====
-- Runs of the snake model.
use classic_games.Prelude.{◌≡◌, ◌≢◌, refl, false, List, [], ◌∷◌}
use classic_games.Prelude.Int.{pos, ◌+ℤ◌}
use classic_games.Points.{point_eq, shift, contains}
use classic_games.Snake.{
  left, up, down, vector, next_turn, second, Game, spawn_food, reset, step, advance, eat, die,
  outside, turn_key, drop_turns, catch_up, update, speed_for_level, empty_cells, empty_row,
}
use classic_games.Snake.Food.{FoodFree, spawn_food-IsFree}
use classic_games.Snake.Safety.{
  Input, frame, key, IsSafe, is_over, run, run-IsSafe, respond, run_no_reversal,
}

-- up, then left, in one frame: the quick corner
abbrev corner : List Input
corner = key up ∷ key left ∷ key down ∷ frame (λ n. n) second ∷ []

run-IsSafe_example : IsSafe (run corner (reset 7))
run-IsSafe_example = run-IsSafe 7 corner

spawn_food-IsFree_example : FoodFree ((pos 0, pos 0) ∷ []) (spawn_food 3 ((pos 0, pos 0) ∷ []))
spawn_food-IsFree_example = spawn_food-IsFree 3 ((pos 0, pos 0) ∷ [])

abbrev after : Game
after = run corner (reset 7)

turned : after.body ≡ (pos 12, pos 10) ∷ (pos 12, pos 11) ∷ (pos 11, pos 11) ∷ []
unfolding run respond reset step advance eat die outside turn_key drop_turns update catch_up
    speed_for_level vector shift contains point_eq spawn_food empty_cells empty_row ◌+ℤ◌
turned = refl

lives : is_over after.phase ≡ false
unfolding run respond reset step advance eat die outside turn_key drop_turns update catch_up
    speed_for_level vector shift contains point_eq spawn_food empty_cells empty_row ◌+ℤ◌
lives = refl

run_no_reversal_example :
    shift (pos 12, pos 10) (vector (next_turn after.turn_queue after.direction).0)
    ≢ (pos 12, pos 11)
run_no_reversal_example =
    run_no_reversal 7 corner (pos 12, pos 10) (pos 12, pos 11) ((pos 11, pos 11) ∷ []) lives turned
