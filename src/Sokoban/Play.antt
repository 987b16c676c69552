-- ===== src/Sokoban/Play.antt =====
-- client/games/sokoban.py: what `_try_move` and `_undo` do to the board;
-- game_service/sokoban_history.py. The undo history stands newest first. What follows a move, the
-- test for a win and the checkpoint, stands in `Sokoban.Win`.
use mathlib.Core.List.{reverse}
use classic_games.Prelude.Results.{Result, ok, err, ◌>>=◌}
use classic_games.Prelude.{
  ℕ, ◌+◌, ◌||◌, not, Option, none, some, List, [], ◌∷◌, length, ltb, ◌==◌, if◌then◌else◌,
}
use classic_games.Prelude.Int.{pos, negsuc}
use classic_games.Points.{Point, point_eq, shift, offset, contains, remove, add}

-- DIRECTIONS, by the code points of its keys
pub data Direction : Type 0 where
  up down left right : Direction

unfoldable pub vector : Direction → Point
vector up = (pos 0, negsuc 0)
vector down = (pos 0, pos 1)
vector left = (negsuc 0, pos 0)
vector right = (pos 1, pos 0)

unfoldable pub letter : Direction → ℕ
letter up = b'U'
letter down = b'D'
letter left = b'L'
letter right = b'R'

unfoldable pub direction_of : ℕ → Option Direction
direction_of c =
    if c == b'U'
    then some up
    else if c == b'D'
    then some down
    else if c == b'L'
    then some left
    else if c == b'R'
    then some right
    else none

abbrev pub max_commands : ℕ
max_commands = 10_000

-- what an undo step restores
pub record Scene : Type 0 where
  pub player : Point
  pub boxes : List Point
  pub moves : ℕ
  pub pushes : ℕ

pub record Board : Type 0 where
  pub floors : List Point
  pub scene : Scene
  pub history : List Scene

abbrev advance : Point → List Point → ℕ → Board → Board
advance player boxes pushes b = record b {
  scene = record { player = player; boxes = boxes; moves = b.scene.moves + 1; pushes = pushes };
  history = b.scene ∷ b.history;
}

-- `_try_move` up to the count of the move
unfoldable pub walk : Direction → Board → Board
walk d b =
    let old = b.scene in
    let next = shift old.player (vector d) in
    let beyond = shift next (vector d) in
    if not (contains b.floors next)
    then b
    else if contains old.boxes next
    then (if not (contains b.floors beyond) || contains old.boxes beyond
        then b
        else advance next (add beyond (remove next old.boxes)) (old.pushes + 1) b)
    else advance next old.boxes old.pushes b

abbrev pub restore : List Scene → Board → Board
restore [] b = b
restore (s ∷ rest) b = record b { scene = s; history = rest }

unfoldable pub undo : Board → Board
undo b = restore b.history b

-- ValueError, or the KeyError of an offset that is no direction
pub data Fault : Type 0 where
  too_many_steps unknown_offset bad_history unknown_command crosses_wall illegal_push : Fault

-- reverse[offset]
unfoldable pub letter_of : Point → Result Fault ℕ
letter_of v =
    if point_eq v (vector up)
    then ok (letter up)
    else if point_eq v (vector down)
    then ok (letter down)
    else if point_eq v (vector left)
    then ok (letter left)
    else if point_eq v (vector right)
    then ok (letter right)
    else err unknown_offset

-- the letters between neighbours of a list of points
unfoldable pub letters : Point → List Point → Result Fault (List ℕ)
letters p [] = ok []
letters p (q ∷ rest) = do c ← letter_of (offset p q); cs ← letters q rest; ok (c ∷ cs)

-- the positions of the steps, oldest first, then `last`
unfoldable pub points_of : List Scene → Point → List Point
points_of [] last = last ∷ []
points_of (s ∷ rest) last = s.player ∷ points_of rest last

unfoldable pub letters_along : List Point → Result Fault (List ℕ)
letters_along [] = ok []
letters_along (p ∷ rest) = letters p rest

-- `history` oldest first
unfoldable pub encode_history : List Scene → Point → Result Fault (List ℕ)
encode_history history final =
    let cs = letters_along (points_of history final) in
    if ltb max_commands (length history) then err too_many_steps else cs

-- the state of the decoding loop: the scene, and the steps so far, newest first
abbrev pub Replay : Type 0
Replay = Scene × List Scene

unfoldable pub replay_step : List Point → ℕ → Replay → Result Fault Replay
replay_step floors c (s, steps) = elim (direction_of c) [
  | none ↦ err unknown_command
  | some d ↦
      let next = shift s.player (vector d) in
      let beyond = shift next (vector d) in
      if not (contains floors next)
      then err crosses_wall
      else if contains s.boxes next
      then (if not (contains floors beyond) || contains s.boxes beyond
          then err illegal_push
          else ok (
            record {
              player = next;
              boxes = add beyond (remove next s.boxes);
              moves = s.moves + 1;
              pushes = s.pushes + 1;
            },
            s ∷ steps,
          ))
      else ok (
        record { player = next; boxes = s.boxes; moves = s.moves + 1; pushes = s.pushes },
        s ∷ steps,
      )
]

unfoldable pub replay : List Point → List ℕ → Replay → Result Fault Replay
unfolding replay_step
replay floors [] r = ok r
replay floors (c ∷ cs) r = replay_step floors c r >>= replay floors cs

-- the final scene, and the history, oldest first
unfoldable pub decode_history : List ℕ → Point → List Point → List Point → Result Fault Replay
unfolding replay
decode_history commands player boxes floors =
    if ltb max_commands (length commands) then err bad_history else (do
      r ←
          replay floors commands
            (record { player = player; boxes = boxes; moves = 0; pushes = 0 }, [])
      ok (r.0, reverse r.1))
