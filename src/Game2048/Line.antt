-- ===== src/Game2048/Line.antt =====
-- client/games/game_2048.py: `_process_line`, the merge of one line of tiles, and the rule that it
-- implements.
pub mod Rule
use mathlib.Core.List.{reverse, foldl}
use package.classic_games.Prelude.{Option, none, some, List, [], ◌∷◌, ◌==◌, if◌then◌else◌}
use package.classic_games.Game2048.Board.{Tile}

pub record LineSlot : Type 0 where
  pub tile : Tile
  pub source : Option Tile

abbrev pub single : Tile → LineSlot
single t = record { tile = t; source = none }

abbrev pub merged : Tile → Tile → LineSlot
merged t s = record { tile = t; source = some s }

-- the newest slot takes the tile, or a new slot follows it
abbrev pub take_tile : LineSlot → Option Tile → Tile → List LineSlot → List LineSlot
take_tile s none t rest =
    if s.tile.value == t.value then merged s.tile t ∷ rest else single t ∷ s ∷ rest
take_tile s (some _) t rest = single t ∷ s ∷ rest

-- One round of the loop. The newest slot stands first.
unfoldable pub push_tile : List LineSlot → Tile → List LineSlot
push_tile [] t = single t ∷ []
push_tile (s ∷ rest) t = take_tile s s.source t rest

unfoldable pub process_line : List Tile → List LineSlot
unfolding push_tile
process_line line = reverse (foldl push_tile [] line)
