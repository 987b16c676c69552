-- ===== src/Sokoban/Level.antt =====
-- client/games/sokoban.py: `parse_level`. A text is a list of rows of code points.
pub mod Parsed
use package.classic_games.Prelude.Results.{Result, ok, err, ◌>>=◌}
use package.classic_games.Prelude.{
  ℕ, zero, suc, ◌+◌, Bool, true, false, ◌&&◌, not, Option, none, some, List, [], ◌∷◌, length, ◌==◌,
  if◌then◌else◌,
}
use package.classic_games.Prelude.Int.{pos}
use package.classic_games.Points.{Point, contains, add}

pub data Symbol : Type 0 where
  wall floor goal box box_on_goal man man_on_goal space : Symbol

-- the symbols that `allowed` names
unfoldable pub symbol_of : ℕ → Option Symbol
symbol_of c =
    if c == b'#'
    then some wall
    else if c == b'.'
    then some floor
    else if c == b'T'
    then some goal
    else if c == b'$'
    then some box
    else if c == b'*'
    then some box_on_goal
    else if c == b'@'
    then some man
    else if c == b'+'
    then some man_on_goal
    else if c == b' '
    then some space
    else none

-- the sets of `parse_level`; the newest player stands first
pub record Cells : Type 0 where
  pub walls : List Point
  pub targets : List Point
  pub boxes : List Point
  pub floors : List Point
  pub players : List Point

-- every cell that is neither wall nor space is floor
unfoldable pub put : Symbol → Point → Cells → Cells
put wall p a = record a { walls = add p a.walls }
put space p a = a
put floor p a = record a { floors = add p a.floors }
put goal p a = record a { targets = add p a.targets; floors = add p a.floors }
put box p a = record a { boxes = add p a.boxes; floors = add p a.floors }
put box_on_goal p a = record a {
  boxes = add p a.boxes;
  targets = add p a.targets;
  floors = add p a.floors;
}
put man p a = record a { players = p ∷ a.players; floors = add p a.floors }
put man_on_goal p a = record a {
  players = p ∷ a.players;
  targets = add p a.targets;
  floors = add p a.floors;
}

pub data Fault : Type 0 where
  empty_level ragged_rows unknown_symbol not_one_player unequal_counts no_box : Fault

unfoldable pub parse_cell : ℕ → Point → Cells → Result Fault Cells
parse_cell c p a = elim (symbol_of c) [ none ↦ err unknown_symbol | some s ↦ ok (put s p a) ]

unfoldable pub parse_row : ℕ → ℕ → List ℕ → Cells → Result Fault Cells
parse_row y x [] a = ok a
parse_row y x (c ∷ row) a = parse_cell c (pos x, pos y) a >>= parse_row y (suc x) row

unfoldable pub parse_rows : ℕ → List (List ℕ) → Cells → Result Fault Cells
parse_rows y [] a = ok a
parse_rows y (row ∷ rows) a = parse_row y 0 row a >>= parse_rows (suc y) rows

unfoldable pub same_width : ℕ → List (List ℕ) → Bool
same_width w [] = true
same_width w (row ∷ rows) = length row == w && same_width w rows

pub record Level : Type 0 where
  pub walls : List Point
  pub targets : List Point
  pub boxes : List Point
  pub player : Point
  pub floors : List Point

abbrev pub no_cells : Cells
no_cells = record { walls = []; targets = []; boxes = []; floors = []; players = [] }

-- the checks after the loop
unfoldable pub checked : Cells → List Point → Result Fault Level
checked a (p ∷ []) =
    if not (length a.boxes == length a.targets)
    then err unequal_counts
    else if length a.boxes == 0
    then err no_box
    else ok (record {
      walls = a.walls;
      targets = a.targets;
      boxes = a.boxes;
      player = p;
      floors = a.floors;
    })
checked a _ = err not_one_player

-- `not text or not text[0]`
unfoldable pub parse_level : List (List ℕ) → Result Fault Level
parse_level [] = err empty_level
parse_level ([] ∷ rows) = err empty_level
parse_level ((c ∷ row) ∷ rows) =
    let text = (c ∷ row) ∷ rows in
    if same_width (suc (length row)) text
    then (do a ← parse_rows 0 text no_cells; checked a a.players)
    else err ragged_rows
