-- ===== src/Lib.antt =====
-- Classic Games Hub: the rules of its games, the launcher's guards, and the service that keeps scores
-- and progress.
--
-- Each game is a class of client/games over `BaseGame` of client/common/ui.py: a frame loop that
-- delivers events to `handle_event` and then time to `update`, and calls `on_game_over` or `on_win`
-- when a game ends. The models take the class's fields as a record, each handler as a function on
-- it, and a session as the fold of its events and frames over the state that `reset` makes. What a
-- game stores or reports (a result, an autosave) is a list of effects in the state, in the order of
-- the calls.
--
--   Prelude    the shared names: numbers, Boolean tests, lists, signed integers (Prelude/Int),
--              Python's exceptions as values (Prelude/Results)
--   Points     grid points, and sets of points as lists with no point twice
--   Game2048   client/games/game_2048.py. Board: `Tile`, `_can_move`, `_spawn_tile`, `_max_tile`.
--              Line: `_process_line`. Slide: the four directions of `_move`. Play: the game, `_move`,
--              the autosave. Tick: `_tick_animations`, `_continue_after_win`, `reset`. The proofs
--              stand in Line/Rule, Slide/*, CanMove, Invariant and Outcome
--   Sokoban    client/games/sokoban.py and game_service/sokoban_history.py. Level: `parse_level`.
--              Play: the board's part of `_try_move` and `_undo`, `encode_history`, `decode_history`.
--              Win: `_try_move`, `_undo` and `_check_win` whole. The proofs stand in Level/Parsed,
--              Trail, Session, Campaign, Clear and Ledger
--   Snake      client/games/snake.py: `_step`, `update`, `_spawn_food`, `handle_event`, `reset`. The
--              proofs stand in Snake/Food and Snake/Safety
--   Tetris     client/games/tetris.py. Shapes: the tables. Board: `Piece`, `_collides`, the board.
--              Play: every command. Clock: `update` and the keys. The proofs stand in Bag, Lines,
--              Landing, Fit and Run
--   Profile    client/profile_controller.py: every method; Launch has the calls and what they leave
--   Catalog    game_service/catalog.py: the games, their rulesets and score policies
--   Store      game_service/store.py: `record_mutation`. Attempts: the tables and their queries.
--              Record: the handler. The proofs stand in Rows, Ledger and Retry
--   Progress   game_service/progress.py. Policy: `validate_progress`, `merge_progress`. The proofs
--              stand in Canonical, Read, RoundTrip, Validate, Keep, Joins, Merge and Replay
--   Mutation   game_service/mutation.py and game_service/profile.py. Normalize:
--              `normalize_score_mutation`, `ProfileIdentity`. The proofs stand in Bounds and Normal
--   Outbox     game_service/local_backend.py, `PersistentStateOutbox`. Shape: `_validate_json_shape`.
--              Values: the policy of Progress. Operation, Resolve: `resolve_operations` and its
--              helpers. The proofs stand in Components, Absorb, Dominance, Kept, Again, Order and
--              Latest
--
-- Conventions. Times are natural numbers of milliseconds, or in Snake of a unit that divides every
-- interval, where the source has floating-point seconds; all the constants of the source are whole in
-- them. Coordinates that may leave the board are signed integers. The random generator is a
-- parameter: the index that `choice` takes, the tile that is drawn, the function that `shuffle` is.
-- A text is the list of its code points (Prelude/Texts), a JSON value is what `json.loads` returns
-- (Prelude/Json). The digest of a payload, the Unicode database, UUIDs and the JSON encoder are
-- parameters. A transaction that raises is rolled back, so an error leaves the store as it was.
--
-- Loops. A loop with a bound of its own in the source (the catch-up steps of Snake, the repeats of
-- Tetris) recurses on that bound. A drop in Tetris recurses on the distance to the floor, which is
-- enough because no piece fits below the floor. The queue of 2048 and the lift of a rotation recurse
-- on the queue and on the debt themselves. The shape check of JSON recurses on the nodes that its limit
-- still allows, and refuses when there are none, as the source does.
--
-- Not modelled: drawing, sound, fonts and mouse hit tests (pure output of pygame); Zuma, which is
-- geometry in floating point; the protocol by which a game saves its score; the launcher's screens
-- and the network; of the game service its SQL schema and migrations, files, imports and tools.
pub mod Prelude
pub mod Points
pub mod Snake
pub mod Sokoban
pub mod Game2048
pub mod Tetris
pub mod Profile
pub mod Catalog
pub mod Store
pub mod Progress
pub mod Outbox
pub mod Mutation
