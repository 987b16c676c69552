-- ===== src/Tetris/Clock.antt =====
-- client/games/tetris.py: `update`, and the keys of `handle_event`. Times are in milliseconds.
use classic_games.Prelude.{
  ℕ, zero, suc, ◌+◌, ◌-◌, min, Bool, true, false, ◌&&◌, ◌||◌, not, List, [], ◌∷◌, ◌++◌, leb, ◌==◌,
  if◌then◌else◌,
}
use classic_games.Prelude.Int.{ℤ, pos, negsuc, ◌+ℤ◌, ◌-ℤ◌, ltb_ℤ}
use classic_games.Points.{eq_ℤ}
use classic_games.Tetris.Shapes.{Kind, Spin}
use classic_games.Tetris.Board.{cols, rows}
use classic_games.Tetris.Play.{
  Phase, playing, paused, gameover, Key, left_arrow, key_a, right_arrow, key_d, down_arrow, key_s,
  Game, hits, moved, move, rotate, lock, soft_drop, hard_drop, hold_piece,
}

abbrev pub is_playing : Phase → Bool
is_playing playing = true
is_playing _ = false

-- timer <= 0
abbrev pub elapsed : ℤ → Bool
elapsed t = not (ltb_ℤ (pos 0) t)

-- the repeats of a held left or right, `n` at most
unfoldable pub repeat_moves : ℕ → Game → Game
repeat_moves zero g = g
repeat_moves (suc n) g =
    let shifted = move g.horizontal_hold g in
    let rest =
      repeat_moves n
        (record shifted { horizontal_repeat_timer = shifted.horizontal_repeat_timer +ℤ pos 45 }) in
    if elapsed g.horizontal_repeat_timer then rest else g

unfoldable pub tick_moves : ℕ → Game → Game
tick_moves dt g =
    if eq_ℤ g.horizontal_hold (pos 0)
    then g
    else repeat_moves cols
        (record g { horizontal_repeat_timer = g.horizontal_repeat_timer -ℤ pos dt })

abbrev pub key_direction : Key → ℤ
key_direction left_arrow = negsuc 0
key_direction key_a = negsuc 0
key_direction right_arrow = pos 1
key_direction key_d = pos 1
key_direction _ = pos 0

abbrev same_key : Key → Key → Bool
same_key left_arrow left_arrow = true
same_key key_a key_a = true
same_key right_arrow right_arrow = true
same_key key_d key_d = true
same_key down_arrow down_arrow = true
same_key key_s key_s = true
same_key _ _ = false

abbrev pub has_key : List Key → Key → Bool
has_key [] k = false
has_key (j ∷ keys) k = same_key j k || has_key keys k

abbrev without_key : Key → List Key → List Key
without_key k [] = []
without_key k (j ∷ keys) = let rest = without_key k keys in if same_key j k then rest else j ∷ rest

abbrev held_only : List Key → List Key → List Key
held_only pressed [] = []
held_only pressed (k ∷ keys) =
    let rest = held_only pressed keys in if has_key pressed k then k ∷ rest else rest

-- the direction of the last key
abbrev last_direction : List Key → ℤ
last_direction [] = pos 0
last_direction (k ∷ []) = key_direction k
last_direction (k ∷ rest) = last_direction rest

-- `_refresh_held_actions`
unfoldable pub refresh_held : Game → Game
refresh_held g =
    let order = held_only g.pressed_keys g.press_order in
    record g {
      press_order = order;
      horizontal_hold = last_direction order;
      soft_drop_held = has_key g.pressed_keys down_arrow || has_key g.pressed_keys key_s;
    }

-- pressed_keys.add(k), and a new horizontal key at the end of the order
abbrev pub press : Bool → Key → Game → Game
press horizontal k g =
    let is_new = not (has_key g.pressed_keys k) in
    refresh_held (record g {
      pressed_keys = if is_new then k ∷ g.pressed_keys else g.pressed_keys;
      press_order = if is_new && horizontal then g.press_order ++ k ∷ [] else g.press_order;
    })

unfoldable pub press_horizontal : Key → Game → Game
press_horizontal k g =
    let d = key_direction k in
    let pressed = press true k g in
    if not (has_key g.pressed_keys k) && not (eq_ℤ g.horizontal_hold d)
    then record (move d pressed) { horizontal_repeat_timer = pos 160 }
    else pressed

-- a key that is let go, before the keys that all games share
unfoldable pub key_up : Key → Game → Game
key_up k g =
    let released = refresh_held (record g {
      pressed_keys = without_key k g.pressed_keys;
      press_order = without_key k g.press_order;
    }) in
    if not (eq_ℤ (key_direction k) (pos 0)) && not (eq_ℤ released.horizontal_hold (pos 0))
    then record released { horizontal_repeat_timer = pos 45 }
    else released

-- what the loss of focus and the key P put back
unfoldable pub release_all : Phase → Game → Game
release_all p g = record g {
  horizontal_hold = pos 0;
  pressed_keys = [];
  press_order = [];
  soft_drop_held = false;
  horizontal_repeat_timer = pos 0;
  soft_drop_repeat_timer = pos 0;
  drop_timer = 0;
  phase = p;
}

abbrev pub toggled : Phase → Phase
toggled playing = paused
toggled paused = playing
toggled gameover = gameover

unfoldable pub pause_key : Game → Game
pause_key g = release_all (toggled g.phase) g

unfoldable pub lose_focus : Game → Game
lose_focus g = release_all (if is_playing g.phase then paused else g.phase) g

pub data Input : Type 0 where
  frame : ℕ → Input
  key_down : Key → Input
  let_go : Key → Input
  turn : Spin → Input
  slam swap pause blur : Input

module _ (shuffle : ℕ → List Kind → List Kind) where
  unfoldable pub press_down : Key → Game → Game
  press_down k g =
      let pressed = press false k g in
      if not (has_key g.pressed_keys k) && not g.soft_drop_held
      then record (soft_drop shuffle pressed) { soft_drop_repeat_timer = pos 120 }
      else pressed

  -- the repeats of a held down, `n` at most; and whether the piece was locked and replaced
  unfoldable pub repeat_drops : ℕ → Game → Game × Bool
  repeat_drops zero g = (g, false)
  repeat_drops (suc n) g =
      let dropped = soft_drop shuffle g in
      let rest =
        repeat_drops n
          (record dropped { soft_drop_repeat_timer = dropped.soft_drop_repeat_timer +ℤ pos 45 }) in
      if elapsed g.soft_drop_repeat_timer && is_playing g.phase
      then (if dropped.generation == g.generation
          then rest
          else (record dropped { soft_drop_repeat_timer = pos 0; drop_timer = 0 }, true))
      else (g, false)

  unfoldable pub tick_drops : ℕ → Game → Game × Bool
  tick_drops dt g =
      if g.soft_drop_held
      then repeat_drops rows
          (record g { soft_drop_repeat_timer = g.soft_drop_repeat_timer -ℤ pos dt })
      else (g, false)

  -- one row by gravity: a row down without a score, or locked
  unfoldable pub sink : Game → Game
  sink g =
      if not (hits g.board g.piece (pos 0) (pos 1))
      then record g {
        piece = moved (pos 0) (pos 1) g.piece.rot g.piece;
        lift_debt = g.lift_debt - 1;
      }
      else lock shuffle g

  -- the loop of gravity, `n` rows at most
  unfoldable pub fall_due : ℕ → Game → Game
  fall_due zero g = g
  fall_due (suc n) g =
      let sunk = sink (record g { drop_timer = g.drop_timer - g.drop_interval }) in
      let rest = fall_due n sunk in
      if leb g.drop_interval g.drop_timer && is_playing g.phase
      then (if sunk.generation == g.generation then rest else record sunk { drop_timer = 0 })
      else g

  abbrev pub after_drops : ℕ → Game × Bool → Game
  after_drops dt (g, true) = g
  after_drops dt (g, false) = fall_due rows (record g { drop_timer = g.drop_timer + dt })

  -- one frame
  unfoldable pub update : ℕ → Game → Game
  update elapsed_ms g =
      let dt = min elapsed_ms 250 in
      if is_playing g.phase then after_drops dt (tick_drops dt (tick_moves dt g)) else g

  unfoldable pub press_key : Key → Game → Game
  press_key down_arrow g = press_down down_arrow g
  press_key key_s g = press_down key_s g
  press_key k g = press_horizontal k g

  abbrev pub guarded : (Game → Game) → Game → Game
  guarded f g = if is_playing g.phase then f g else g

  -- an event, or the frame that follows
  unfoldable pub respond : Input → Game → Game
  respond (frame dt) g = update dt g
  respond (key_down k) g = guarded (press_key k) g
  respond (let_go k) g = key_up k g
  respond (turn s) g = guarded (rotate s) g
  respond slam g = guarded (hard_drop shuffle) g
  respond swap g = guarded (hold_piece shuffle) g
  respond pause g = pause_key g
  respond blur g = lose_focus g
