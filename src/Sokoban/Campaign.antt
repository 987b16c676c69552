-- ===== src/Sokoban/Campaign.antt =====
-- A parsed level, played.
use classic_games.Prelude.{ℕ, ◌≡◌, refl, List, length}
use classic_games.Sokoban.Level.{Level, parse_level}
use classic_games.Prelude.Results.{ok}
use classic_games.Sokoban.Level.Parsed.{parse_level-IsPlayable}
use classic_games.Sokoban.Session.{Action, played, IsSound, play-IsSound}
use mathlib.Core.Path.{subst}

-- A level whose text parses, played by any moves and undos: the player stands on floor and in no
-- box, the boxes are different floor cells, and there are as many of them as targets.
pub parse_level-IsSound :
    (text : List (List ℕ)) (l : Level) (actions : List Action)
    → parse_level text ≡ ok l
    → IsSound l.floors (length l.targets) (played l.floors l.boxes l.player actions).scene
parse_level-IsSound text l actions e =
    let p = parse_level-IsPlayable text l e in
    subst (λ n. IsSound l.floors n (played l.floors l.boxes l.player actions).scene) p.matched
      (play-IsSound l.floors l.boxes l.player actions (record {
        on_floor = p.player_on_floor;
        clear = p.player_free;
        boxes_on_floor = p.boxes_on_floor;
        distinct = p.boxes_distinct;
        counted = refl;
      }))
