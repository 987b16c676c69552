-- ===== src/Tetris/Tests.antt =====
-- Runs of the tetris model, with a shuffle that leaves the seven kinds in their order.
use mathlib.Core.List.{Perm}
use mathlib.Core.List.Perm
use classic_games.Prelude.{
  ℕ, ◌+◌, ◌*◌, ◌≤◌, ◌<◌, ◌≡◌, refl, true, false, some, List, [], ◌∷◌, ◌++◌, replicate, length,
  All-append,
}
use classic_games.Prelude.Int.{pos, ◌-ℤ◌, ◌+ℤ◌}
use classic_games.Tetris.Shapes.{Kind, shape, shape_keys, bar, clockwise}
use classic_games.Tetris.Board.{Row, Grid, collides, cells, occupied, cols, empty_row, new_piece}
use classic_games.Tetris.Play.{Game, left_arrow, hits, fall, distance, reset, clear_lines}
use classic_games.Tetris.Clock.{Input, frame, key_down, let_go, turn, slam, swap}
use classic_games.Tetris.Bag.{draws, draws-Perm}
use classic_games.Tetris.Lines.{IsSized, IsOpen, blocks, All-replicate, clear_lines-blocks}
use classic_games.Tetris.Landing.{distance-lands}
use classic_games.Tetris.Fit.{IsSound}
use classic_games.Tetris.Run.{run, run-IsSound}

abbrev unshuffled : ℕ → List Kind → List Kind
unshuffled n ks = ks

abbrev inputs : List Input
inputs =
    key_down left_arrow
    ∷ frame 200
    ∷ let_go left_arrow
    ∷ turn clockwise
    ∷ slam
    ∷ swap
    ∷ frame 900
    ∷ slam
    ∷ []

run-IsSound_example : IsSound (run unshuffled inputs)
run-IsSound_example = run-IsSound unshuffled inputs

draws-Perm_example :
    Perm ((draws unshuffled 7 [] 0).0) shape_keys
    × ((draws unshuffled 7 [] 0).1 ≡ [])
    × ((draws unshuffled 7 [] 0).2 ≡ 1)
draws-Perm_example = draws-Perm unshuffled (λ m ks. Perm.refl ks) 0

-- a board whose last row is full
abbrev full_last : Grid
full_last = replicate 19 empty_row ++ replicate 10 (some bar) ∷ []

abbrev nearly : Game
nearly = record (reset unshuffled) { board = full_last }

clear_lines-blocks_example :
    IsOpen (clear_lines nearly).board
    × IsSized (clear_lines nearly).board
    × (blocks (clear_lines nearly).board + 10 * (clear_lines nearly).lines
        ≡ blocks full_last + 10 * nearly.lines)
clear_lines-blocks_example = clear_lines-blocks nearly (
  refl,
  All-append (λ row. length row ≡ cols) (replicate 19 empty_row) (replicate 10 (some bar) ∷ [])
      (All-replicate (λ (row : Row). length row ≡ cols) 19 {a = empty_row} refl) (refl, tt),
)

distance-lands_example :
    (hits full_last (new_piece bar) (pos 0) (pos (distance full_last (new_piece bar) + 1)) ≡ true)
    × ((k : ℕ)
        → 0 < k
        → k ≤ distance full_last (new_piece bar)
        → hits full_last (new_piece bar) (pos 0) (pos k) ≡ false)
distance-lands_example = distance-lands full_last (new_piece bar)

drops_to_18 : distance full_last (new_piece bar) ≡ 18
unfolding distance fall ◌-ℤ◌ ◌+ℤ◌ collides cells shape occupied
drops_to_18 = refl
