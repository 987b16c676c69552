-- ===== src/Game2048/Tick.antt =====
-- client/games/game_2048.py: `_tick_animations`, `_continue_after_win` and `reset`.
use classic_games.Prelude.{
  ℕ, ◌+◌, min, Bool, true, false, ◌&&◌, not, Option, none, some, [], ltb, leb, ◌==◌, if◌then◌else◌,
}
use classic_games.Game2048.Board.{Tile, Grid, Draw, empty_grid, can_move, max_tile, spawn_tile}
use classic_games.Game2048.Slide.{Direction}
use classic_games.Game2048.Play.{
  Game, Phase, Extra, playing, won, gameover, queue_autosave, submit_score, slide_end, is_playing,
  emit, save_autosave, drain,
}

-- the tile takes its target value
abbrev pub finish_tile : Option Tile → Option Tile
finish_tile none = none
finish_tile (some t) =
    some (if t.target_value == t.value then t else record t { value = t.target_value })

unfoldable pub finish_merges : Grid → Grid
finish_merges g r c = finish_tile (g r c)

unfoldable pub after_spawn : Draw → Game → Game
after_spawn draw g =
    if is_playing g.phase
    then emit queue_autosave (record g { grid = (spawn_tile draw g.grid).1 })
    else g

-- the state change that a settled board asks for
unfoldable pub pending_phase : Game → Option Phase
pending_phase g =
    if not (is_playing g.phase)
    then none
    else if g.won && not g.won_announced
    then some won
    else if not (can_move g.grid)
    then some gameover
    else none

abbrev pub extra_of : Game → Bool → Extra
extra_of g w = record { max_tile = max_tile g.grid; won = w }

pub apply_pending : Option Phase → Game → Game
unfolding save_autosave
apply_pending none g = g
apply_pending (some won) g = save_autosave (
    emit (submit_score g.score (extra_of g true))
      (record g { won_announced = true; phase = won; queued = [] }))
apply_pending (some _) g =
    let e = extra_of g g.won in
    save_autosave
      (emit (submit_score g.score e) (record g { phase = gameover; queued = []; extra = some e }))

unfoldable pub announce : Game → Game
unfolding apply_pending pending_phase
announce g = record (apply_pending (pending_phase g) g) { pre_move = none }

-- what a slide that has just ended changes, before queued directions are taken
unfoldable pub settle : Draw → Game → Game
unfolding finish_merges after_spawn announce
settle draw g = announce (after_spawn draw (record g { grid = finish_merges g.grid; fading = [] }))

unfoldable pub continue_after_win : Game → Game
unfolding save_autosave
continue_after_win g =
    let alive = record g { queued = []; phase = playing } in
    let e = extra_of g true in
    save_autosave (
      if can_move g.grid
      then alive
      else emit (submit_score g.score e) (record alive { phase = gameover; extra = some e }))

-- `started` is the digest of a fresh attempt; the first game of a window saves nothing
unfoldable pub reset : Bool → ℕ → Draw → Draw → Game
unfolding save_autosave
reset initializing started first second =
    let board = (spawn_tile second (spawn_tile first empty_grid).1).1 in
    let g : Game = record {
      grid = board;
      fading = [];
      score = 0;
      won = false;
      won_announced = false;
      phase = playing;
      anim_t = slide_end;
      queued = [];
      move_count = 0;
      move_digest = started;
      pre_move = none;
      extra = none;
      effects = [];
    } in
    if initializing then g else save_autosave g

module _ (digest : ℕ → ℕ → Direction → ℕ) where
  -- one frame of `dt` milliseconds
  unfoldable pub tick : Draw → ℕ → Game → Game
  unfolding settle
  tick draw dt g =
      let t = if ltb g.anim_t slide_end then min slide_end (g.anim_t + dt) else g.anim_t in
      let g' = record g { anim_t = t } in
      if ltb g.anim_t slide_end && leb slide_end t
      then (let s = settle draw g' in drain digest s.queued s)
      else g'
