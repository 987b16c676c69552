-- ===== src/Game2048/Play.antt =====
-- client/games/game_2048.py: the game around the slide: `reset`, `_move`, `_tick_animations`,
-- `_continue_after_win`, the queue of directions and the fields of the autosave.
-- Time is in milliseconds, so the slide of `ANIM_DURATION` = 0.13 s runs from 0 to `slide_end`.
-- What goes to the backend is a list of effects, in the order of the calls. `digest` stands for the
-- SHA-256 of the move log; `Draw` is the answer of the random generator.
use classic_games.Prelude.{
  ℕ, ◌+◌, Bool, true, false, not, Option, none, some, List, [], ◌∷◌, ◌++◌, ltb, if◌then◌else◌,
}
use classic_games.Game2048.Board.{Tile, Grid, value_of, can_move, max_tile}
use classic_games.Game2048.Slide.{Direction, left, right, up, down, Sliding, slide}

abbrev pub slide_end : ℕ
slide_end = 130

pub data Phase : Type 0 where
  playing paused won gameover : Phase

-- `_settled_autosave_fields`, less the identity of the attempt, the confirmed score and the generator's
-- state
pub record Saved : Type 0 where
  pub game_state : Phase
  pub score : ℕ
  pub won : Bool
  pub won_announced : Bool
  pub move_count : ℕ
  pub move_digest : ℕ
  pub grid : List (List ℕ)

-- the dictionary `extra` of a result
pub record Extra : Type 0 where
  pub max_tile : ℕ
  pub won : Bool

pub data Effect : Type 0 where
  save_slot : Saved → Effect
  queue_autosave : Effect
  submit_score : ℕ → Extra → Effect

pub record Game : Type 0 where
  pub grid : Grid
  pub fading : List Tile
  pub score : ℕ
  pub won : Bool
  pub won_announced : Bool
  pub phase : Phase
  pub anim_t : ℕ
  pub queued : List Direction
  pub move_count : ℕ
  pub move_digest : ℕ
  pub pre_move : Option Saved
  pub extra : Option Extra
  pub effects : List Effect

abbrev pub is_playing : Phase → Bool
is_playing playing = true
is_playing _ = false

-- self.anim_t < 1.0
abbrev pub is_sliding : Game → Bool
is_sliding g = ltb g.anim_t slide_end

abbrev pub saved_row : Grid → ℕ → List ℕ
saved_row g r = value_of (g r 0) ∷ value_of (g r 1) ∷ value_of (g r 2) ∷ value_of (g r 3) ∷ []

unfoldable pub settled_fields : Game → Saved
settled_fields g = record {
  game_state = g.phase;
  score = g.score;
  won = g.won;
  won_announced = g.won_announced;
  move_count = g.move_count;
  move_digest = g.move_digest;
  grid = saved_row g.grid 0 ∷ saved_row g.grid 1 ∷ saved_row g.grid 2 ∷ saved_row g.grid 3 ∷ [];
}

abbrev pub or_saved : Option Saved → Saved → Saved
or_saved none s = s
or_saved (some p) s = p

-- which fields `_build_autosave_state` writes
unfoldable pub autosave_fields : Game → Saved
autosave_fields g =
    if is_sliding g then or_saved g.pre_move (settled_fields g) else settled_fields g

abbrev pub emit : Effect → Game → Game
emit e g = record g { effects = g.effects ++ e ∷ [] }

unfoldable pub save_autosave : Game → Game
save_autosave g = emit (save_slot (autosave_fields g)) g

abbrev pub same_direction : Direction → Direction → Bool
same_direction left left = true
same_direction right right = true
same_direction up up = true
same_direction down down = true
same_direction _ _ = false

-- the queue holds two directions, and never one twice in a row
unfoldable pub enqueue : Direction → List Direction → List Direction
enqueue d [] = d ∷ []
enqueue d (a ∷ []) = if same_direction a d then a ∷ [] else a ∷ d ∷ []
enqueue d queue = queue

unfoldable pub lose_if_locked : Game → Game
unfolding save_autosave
lose_if_locked g =
    if can_move g.grid
    then g
    else (let e : Extra = record { max_tile = max_tile g.grid; won = g.won } in
        let over = record g { phase = gameover; queued = []; extra = some e } in
        emit (submit_score g.score e) (save_autosave over))

abbrev pub slid : Sliding → Option Saved → Game → Game
slid s p g = record g {
  grid = s.cells;
  fading = g.fading ++ s.fading;
  score = s.score;
  won = s.won;
  pre_move = p;
}

module _ (digest : ℕ → ℕ → Direction → ℕ) where
  finish_move : Direction → Game → Sliding → Bool × Game
  unfolding lose_if_locked
  finish_move d g s =
      let start = slid s (some (settled_fields g)) g in
      let count = g.move_count + 1 in
      if s.moved
      then (
        true,
        record start { anim_t = 0; move_count = count; move_digest = digest g.move_digest count d },
      )
      else (false, lose_if_locked (slid s none g))

  unfoldable pub move : Direction → Game → Bool × Game
  unfolding finish_move
  move d g =
      if not (is_playing g.phase)
      then (false, g)
      else if is_sliding g
      then (false, record g { queued = enqueue d g.queued })
      else finish_move d g (slide d g.grid g.score g.won)

  -- while self._queued_directions and self.state == "playing"
  unfoldable pub drain : List Direction → Game → Game
  drain [] g = g
  drain (d ∷ rest) g =
      let (moved, g') = move d (record g { queued = rest }) in
      let next = drain rest g' in if is_playing g.phase then (if moved then g' else next) else g

-- client/common/ui.py: the key P and the loss of focus; `Game2048.handle_event` first drops the
-- queued directions
unfoldable pub pause_key : Game → Game
pause_key g = record g { phase = toggled g.phase; queued = [] }
  where
    toggled : Phase → Phase
    toggled playing = paused
    toggled paused = playing
    toggled p = p

unfoldable pub lose_focus : Game → Game
lose_focus g = record g { phase = (if is_playing g.phase then paused else g.phase); queued = [] }
