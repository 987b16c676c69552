-- ===== src/Catalog.antt =====
-- game_service/catalog.py: the games, with the ruleset and the score policy of each.
use classic_games.Prelude.{Bool, true, false, Option, none, some, if◌then◌else◌}
use classic_games.Prelude.Texts.{Text, codes, text_eq}

pub data ScorePolicy : Type 0 where
  final_only monotonic_revision : ScorePolicy

pub data GameId : Type 0 where
  tetris snake game_2048 sokoban zuma : GameId

abbrev pub same_game : GameId → GameId → Bool
same_game tetris tetris = true
same_game snake snake = true
same_game game_2048 game_2048 = true
same_game sokoban sokoban = true
same_game zuma zuma = true
same_game _ _ = false

unfoldable pub text_of : GameId → Text
text_of tetris = codes "tetris"
text_of snake = codes "snake"
text_of game_2048 = codes "2048"
text_of sokoban = codes "sokoban"
text_of zuma = codes "zuma"

unfoldable pub ruleset_version : GameId → Text
ruleset_version tetris = codes "tetris-assist-3"
ruleset_version snake = codes "snake-classic-1"
ruleset_version game_2048 = codes "2048-classic-2"
ruleset_version sokoban = codes "sokoban-campaign-2"
ruleset_version zuma = codes "zuma-classic-2"

unfoldable pub score_policy : GameId → ScorePolicy
score_policy game_2048 = monotonic_revision
score_policy sokoban = monotonic_revision
score_policy _ = final_only

-- GAME_BY_ID
unfoldable pub game_named : Text → Option GameId
game_named t =
    if text_eq t (text_of tetris)
    then some tetris
    else if text_eq t (text_of snake)
    then some snake
    else if text_eq t (text_of game_2048)
    then some game_2048
    else if text_eq t (text_of sokoban)
    then some sokoban
    else if text_eq t (text_of zuma)
    then some zuma
    else none
