-- ===== src/Snake.antt =====
-- client/games/snake.py: the snake. The head of `body` is the snake's head; the queue of turns
-- stands oldest first. Time is counted in units of 1/232792560 s, which every speed from 1 to 20
-- divides, so an interval 1 / speed is a whole number of units. `pick` is the answer of the random
-- generator's `choice`, as an index.
pub mod Food
pub mod Safety
mod Tests
use package.classic_games.Prelude.{
  ℕ, zero, suc, ◌+◌, ◌-◌, ◌*◌, ◌/◌, ◌%◌, min, max, Bool, true, false, ◌&&◌, ◌||◌, not, Option, none,
  some, List, [], ◌∷◌, ◌++◌, get_elem?, length, ltb, leb, ◌==◌, if◌then◌else◌,
}
use package.classic_games.Prelude.Int.{ℤ, pos, negsuc, ltb_ℤ}
use package.classic_games.Points.{Point, point_eq, shift, contains}

abbrev pub cols : ℕ
cols = 24

abbrev pub rows : ℕ
rows = 22

abbrev pub second : ℕ
second = 232792560

-- SNAKE_STALL_DT
abbrev pub stall : ℕ
stall = second / 4

pub data Turn : Type 0 where
  left right up down : Turn

unfoldable pub vector : Turn → Point
vector left = (negsuc 0, pos 0)
vector right = (pos 1, pos 0)
vector up = (pos 0, negsuc 0)
vector down = (pos 0, pos 1)

-- (-d[0], -d[1])
abbrev pub opposite : Turn → Turn
opposite left = right
opposite right = left
opposite up = down
opposite down = up

abbrev pub same_turn : Turn → Turn → Bool
same_turn left left = true
same_turn right right = true
same_turn up up = true
same_turn down down = true
same_turn _ _ = false

pub data Phase : Type 0 where
  playing paused won gameover : Phase

pub record Extra : Type 0 where
  pub length : ℕ
  pub level : ℕ
  pub speed : ℕ
  pub filled_board : Bool

pub data Effect : Type 0 where
  on_game_over on_win : ℕ → Extra → Effect

pub record Game : Type 0 where
  pub body : List Point
  pub direction : Turn
  pub turn_queue : List Turn
  pub pending_direction : Turn
  pub food : Option Point
  pub score : ℕ
  pub phase : Phase
  pub level : ℕ
  pub move_speed : ℕ
  pub move_timer : ℕ
  pub effects : List Effect

unfoldable pub speed_for_level : ℕ → ℕ
speed_for_level level = min 20 (7 + (level - 1))

-- the free cells, row by row
unfoldable pub empty_row : List Point → ℕ → ℕ → List Point
empty_row body y zero = []
empty_row body y (suc x) =
    empty_row body y x ++ (if contains body (pos x, pos y) then [] else (pos x, pos y) ∷ [])

unfoldable pub empty_cells : List Point → ℕ → List Point
empty_cells body zero = []
empty_cells body (suc y) = empty_cells body y ++ empty_row body y cols

abbrev pub choice : ℕ → List Point → Option Point
choice pick l = get_elem? l (pick % length l)

unfoldable pub spawn_food : ℕ → List Point → Option Point
spawn_food pick body = choice pick (empty_cells body rows)

abbrev pub start_body : List Point
start_body = (pos 12, pos 11) ∷ (pos 11, pos 11) ∷ (pos 10, pos 11) ∷ []

unfoldable pub reset : ℕ → Game
reset pick = record {
  body = start_body;
  direction = right;
  turn_queue = [];
  pending_direction = right;
  food = spawn_food pick start_body;
  score = 0;
  phase = playing;
  level = 1;
  move_speed = speed_for_level 1;
  move_timer = 0;
  effects = [];
}

-- queue[-1] if queue else d
abbrev pub last_turn : List Turn → Turn → Turn
last_turn [] d = d
last_turn (t ∷ rest) d = last_turn rest t

abbrev pub next_turn : List Turn → Turn → Turn × List Turn
next_turn [] d = (d, [])
next_turn (t ∷ rest) d = (t, rest)

abbrev pub is_food : Option Point → Point → Bool
is_food none p = false
is_food (some f) p = point_eq f p

-- body[-1]
abbrev pub last_cell : Point → List Point → Point
last_cell p [] = p
last_cell p (q ∷ rest) = last_cell q rest

-- body.pop()
abbrev pub but_last : Point → List Point → List Point
but_last p [] = []
but_last p (q ∷ rest) = p ∷ but_last q rest

unfoldable pub outside : Point → Bool
outside (x, y) =
    ltb_ℤ x (pos 0) || not (ltb_ℤ x (pos cols)) || ltb_ℤ y (pos 0) || not (ltb_ℤ y (pos rows))

abbrev pub extra_of : Game → Bool → Extra
extra_of g filled = record {
  length = length g.body;
  level = g.level;
  speed = g.move_speed;
  filled_board = filled;
}

unfoldable pub die : Game → Game
die g = record g {
  phase = gameover;
  effects = g.effects ++ on_game_over g.score (extra_of g false) ∷ [];
}

-- the snake has just grown onto the food
unfoldable pub eat : ℕ → Game → Game
eat pick g =
    let score = g.score + 10 in
    let level = 1 + (score / 10) / 5 in
    let fed = record g { score = score; level = level; move_speed = speed_for_level level } in
    if length g.body == cols * rows
    then record fed {
      food = none;
      phase = won;
      effects = g.effects ++ on_win score (extra_of fed true) ∷ [];
    }
    else record fed { food = spawn_food pick g.body }

-- the new head, and what stands behind it
unfoldable pub advance : ℕ → Point → Point → List Point → Game → Game
advance pick next head rest g =
    if outside next
    then die g
    else if contains (head ∷ rest) next && not (point_eq next (last_cell head rest))
    then die g
    else if is_food g.food next
    then eat pick (record g { body = next ∷ head ∷ rest })
    else record g { body = next ∷ but_last head rest }

abbrev pub advance_body : ℕ → List Point → Game → Game
advance_body pick [] g = g
advance_body pick (head ∷ rest) g = advance pick (shift head (vector g.direction)) head rest g

-- `_step`
unfoldable pub step : ℕ → Game → Game
step pick g =
    let (d, queue) = next_turn g.turn_queue g.direction in
    advance_body pick g.body
      (record g { direction = d; turn_queue = queue; pending_direction = last_turn queue d })

-- a direction key while playing
unfoldable pub turn_key : Turn → Game → Game
turn_key d g =
    let base = last_turn g.turn_queue g.direction in
    if not (same_turn d base) && not (same_turn d (opposite base)) && ltb (length g.turn_queue) 2
    then record g { turn_queue = g.turn_queue ++ d ∷ []; pending_direction = d }
    else g

-- P or the loss of focus: turns that are not committed are dropped
unfoldable pub drop_turns : Phase → Game → Game
drop_turns p g = record g { turn_queue = []; pending_direction = g.direction; phase = p }

abbrev pub is_playing : Phase → Bool
is_playing playing = true
is_playing _ = false

-- the loop of `update`: at most `n` more steps; step `n` takes the pick of that number
unfoldable pub catch_up : ℕ → (ℕ → ℕ) → Game → Game
catch_up zero picks g = g
catch_up (suc n) picks g =
    let interval = second / g.move_speed in
    let next =
      catch_up n picks (step (picks n) (record g { move_timer = g.move_timer - interval })) in
    if is_playing g.phase && leb interval g.move_timer then next else g

-- one frame of `dt` units of time
unfoldable pub update : (ℕ → ℕ) → ℕ → Game → Game
update picks dt g =
    let interval = second / g.move_speed in
    let stalled = ltb stall dt in
    let timer = min (if stalled then interval else g.move_timer + dt) (4 * interval) in
    if is_playing g.phase
    then catch_up (if stalled then 1 else 4) picks (record g { move_timer = timer })
    else g

-- the key P, for a running or a paused game
unfoldable pub pause_key : Game → Game
pause_key g = drop_turns (toggled g.phase) g
  where
    toggled : Phase → Phase
    toggled playing = paused
    toggled paused = playing
    toggled p = p

unfoldable pub lose_focus : Game → Game
lose_focus g = drop_turns (if is_playing g.phase then paused else g.phase) g
