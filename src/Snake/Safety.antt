-- ===== src/Snake/Safety.antt =====
-- What every step and key keeps true of the snake.
use mathlib.Core.Bool.{false≢true}
use mathlib.Core.List.{foldl}
use mathlib.Core.Path.{subst}
use classic_games.Prelude.{
  ℕ, zero, suc, ◌+◌, ◌-◌, ◌*◌, ◌/◌, ◌≤◌, ◌≡◌, ◌≢◌, refl, sym, ap, ◌∙◌, Bool, true, false, ◌&&◌, not,
  Option, none, some, List, [], ◌∷◌, ◌++◌, length, length-append, ltb, leb, ◌==◌, if◌then◌else◌,
  if_intro, All, arith,
}
use classic_games.Prelude.Int.{ℤ, pos_part, neg_part, ◌+ℤ◌, +ℤ_parts}
use classic_games.Points.{Point, point_eq, point_eq_iff, point_eq_refl, shift, contains}
use classic_games.Points.Sets.{IsDistinct}
use classic_games.Snake.{
  cols, rows, Turn, left, right, up, down, vector, opposite, same_turn, Phase, gameover, Game,
  speed_for_level, start_body, reset, last_turn, next_turn, is_food, last_cell, but_last, outside,
  die, eat, advance, advance_body, step, turn_key, drop_turns, is_playing, catch_up, update, second,
  stall, pause_key, lose_focus,
}
use classic_games.Snake.Food.{FoodFree, spawn_food-IsFree}

abbrev OnBoard : Point → Type 0
OnBoard p = outside p ≡ false

-- consecutive turns are neither equal nor opposite
abbrev pub Chain : Turn → List Turn → Type 0
Chain d [] = Unit
Chain d (t ∷ rest) = (same_turn t d ≡ false) × (same_turn t (opposite d) ≡ false) × Chain t rest

-- the head has come from the second cell by the direction
abbrev pub Neck : Turn → List Point → Type 0
Neck d (head ∷ neck ∷ rest) = head ≡ shift neck (vector d)
Neck d _ = ⊥

abbrev pub is_over : Phase → Bool
is_over gameover = true
is_over _ = false

pub record IsSafe (g : Game) : Type 0 where
  pub distinct : IsDistinct g.body
  pub on_board : All OnBoard g.body
  pub food_free : FoodFree g.body g.food
  pub scored : g.score + 30 ≡ 10 * length g.body
  pub leveled : g.level ≡ 1 + (g.score / 10) / 5
  pub paced : g.move_speed ≡ speed_for_level g.level
  pub short : length g.turn_queue ≤ 2
  pub chained : is_over g.phase ≡ false → Chain g.direction g.turn_queue
  pub neck : is_over g.phase ≡ false → Neck g.direction g.body

-- the cells without the last one
but_last_sub :
    (h q : Point) (r : List Point) → contains (but_last h r) q ≡ true → contains (h ∷ r) q ≡ true
unfolding contains
but_last_sub h q [] e = cc
but_last_sub h q (p ∷ r) e = ground (arith, but_last_sub p q r)

last_cell_in : (h : Point) (r : List Point) → contains (h ∷ r) (last_cell h r) ≡ true
unfolding contains
last_cell_in h [] = ground (arith, point_eq_refl h)
last_cell_in h (p ∷ r) = ground (arith, last_cell_in p r)

but_last_ne :
    (h : Point) (r : List Point)
    → IsDistinct (h ∷ r)
    → contains (but_last h r) (last_cell h r) ≡ false
unfolding contains
but_last_ne h [] u = refl
but_last_ne h (p ∷ r) u =
    ground (arith, but_last_ne p r u.1, point_eq_iff h (last_cell p r), last_cell_in p r)

but_last-IsDistinct : (h : Point) (r : List Point) → IsDistinct (h ∷ r) → IsDistinct (but_last h r)
but_last-IsDistinct h [] u = tt
but_last-IsDistinct h (p ∷ r) u = (ground (arith, but_last_sub p h r), but_last-IsDistinct p r u.1)

but_last-OnBoard : (h : Point) (r : List Point) → All OnBoard (h ∷ r) → All OnBoard (but_last h r)
but_last-OnBoard h [] u = tt
but_last-OnBoard h (p ∷ r) u = (u.0, but_last-OnBoard p r u.1)

length-but_last : (h : Point) (r : List Point) → length (but_last h r) ≡ length r
length-but_last h [] = refl
length-but_last h (p ∷ r) = ap suc (length-but_last p r)

-- the state between the choice of the direction and the move
record IsTurned (g : Game) : Type 0 where
  distinct : IsDistinct g.body
  on_board : All OnBoard g.body
  food_free : FoodFree g.body g.food
  scored : g.score + 30 ≡ 10 * length g.body
  leveled : g.level ≡ 1 + (g.score / 10) / 5
  paced : g.move_speed ≡ speed_for_level g.level
  short : length g.turn_queue ≤ 2
  chained : Chain g.direction g.turn_queue

die-IsSafe : (g : Game) → IsTurned g → IsSafe (die g)
unfolding die
die-IsSafe g h = record {
  distinct = h.distinct;
  on_board = h.on_board;
  food_free = h.food_free;
  scored = h.scored;
  leveled = h.leveled;
  paced = h.paced;
  short = h.short;
  chained = λ e. absurd (false≢true (sym e));
  neck = λ e. absurd (false≢true (sym e));
}

food-IsFree :
    (body : List Point) (food : Option Point) (p : Point)
    → FoodFree body food
    → is_food food p ≡ true
    → contains body p ≡ false
food-IsFree body none p h e = cc
food-IsFree body (some f) p h e = rw (← (point_eq_iff f p).0 e) h.0

kept_food :
    (body : List Point) (food : Option Point) (p head : Point) (rest : List Point)
    → FoodFree (head ∷ rest) food
    → is_food food p ≡ false
    → FoodFree (p ∷ but_last head rest) food
unfolding contains
kept_food body none p head rest h e = tt
kept_food body (some f) p head rest h e =
    (ground (arith, point_eq_iff f p, point_eq_iff p f, but_last_sub head f rest), h.1)

module _ (pick : ℕ) (head : Point) (rest : List Point) (g : Game) where
  abbrev next : Point
  next = shift head (vector g.direction)

  eat-IsSafe :
      IsTurned (record g { body = head ∷ rest })
      → OnBoard next
      → is_food g.food next ≡ true
      → IsSafe (eat pick (record g { body = next ∷ head ∷ rest }))
  unfolding eat
  eat-IsSafe h on ate =
      let grown : List Point = next ∷ head ∷ rest in
      let distinct : IsDistinct grown =
        (food-IsFree (head ∷ rest) g.food next h.food_free ate, h.distinct) in
      let more = h.scored in
      if_intro IsSafe (length grown == cols * rows) _ _
        (λ _. record {
          distinct = distinct;
          on_board = (on, h.on_board);
          food_free = tt;
          scored = omega arith;
          leveled = refl;
          paced = refl;
          short = h.short;
          chained = λ _. h.chained;
          neck = λ _. refl;
        })
        (λ _. record {
          distinct = distinct;
          on_board = (on, h.on_board);
          food_free = spawn_food-IsFree pick grown;
          scored = omega arith;
          leveled = refl;
          paced = refl;
          short = h.short;
          chained = λ _. h.chained;
          neck = λ _. refl;
        })

  -- the new head is not on the cells that stay
  next_free :
      IsDistinct (head ∷ rest)
      → (contains (head ∷ rest) next && not (point_eq next (last_cell head rest))) ≡ false
      → contains (but_last head rest) next ≡ false
  next_free u e = ground (
    arith,
    but_last_sub head next rest,
    but_last_ne head rest u,
    point_eq_iff next (last_cell head rest),
  )

move-IsSafe :
    (head : Point) (rest : List Point) (g : Game)
    → IsTurned (record g { body = head ∷ rest })
    → OnBoard (next 0 head rest g)
    → (contains (head ∷ rest) (next 0 head rest g)
        && not (point_eq (next 0 head rest g) (last_cell head rest)))
      ≡ false
    → is_food g.food (next 0 head rest g) ≡ false
    → IsSafe (record g { body = next 0 head rest g ∷ but_last head rest })
move-IsSafe head [] g h on clear hungry = absurd (too_short (h.scored))
  where
    too_short : g.score + 30 ≡ 10 * 1 → ⊥
    too_short e = omega arith
move-IsSafe head (p ∷ rest) g h on clear hungry =
    let more = h.scored in
    record {
      distinct = (
        next_free 0 head (p ∷ rest) g h.distinct clear,
        but_last-IsDistinct head (p ∷ rest) h.distinct,
      );
      on_board = (on, but_last-OnBoard head (p ∷ rest) h.on_board);
      food_free =
          kept_food (head ∷ p ∷ rest) g.food (next 0 head rest g) head (p ∷ rest) h.food_free
            hungry;
      scored = omega (arith, length-but_last p rest);
      leveled = h.leveled;
      paced = h.paced;
      short = h.short;
      chained = λ _. h.chained;
      neck = λ _. refl;
    }

advance_body-IsSafe :
    (pick : ℕ) (l : List Point) (g : Game)
    → IsTurned (record g { body = l })
    → IsSafe (advance_body pick l (record g { body = l }))
unfolding advance
advance_body-IsSafe pick [] g h = absurd (too_short h.scored)
  where
    too_short : g.score + 30 ≡ 10 * 0 → ⊥
    too_short e = omega arith
advance_body-IsSafe pick (head ∷ rest) g h =
    let p = next pick head rest g in
    let b = record g { body = head ∷ rest } in
    if_intro IsSafe (outside p) _ _ (λ _. die-IsSafe b h)
      (λ on.
        if_intro IsSafe (contains (head ∷ rest) p && not (point_eq p (last_cell head rest))) _ _
          (λ _. die-IsSafe b h)
          (λ clear.
            if_intro IsSafe (is_food g.food p) _ _ (λ ate. eat-IsSafe pick head rest g h on ate)
              (λ hungry. move-IsSafe head rest g h on clear hungry)))

next_turn-Chain :
    (queue : List Turn) (d : Turn)
    → Chain d queue
    → Chain (next_turn queue d).0 (next_turn queue d).1
next_turn-Chain [] d h = tt
next_turn-Chain (t ∷ rest) d h = h.2

next_turn_short :
    (queue : List Turn) (d : Turn) → length queue ≤ 2 → length (next_turn queue d).1 ≤ 2
next_turn_short [] d h = h
next_turn_short (t ∷ rest) d h = omega arith

step-IsSafe : (pick : ℕ) (g : Game) → is_over g.phase ≡ false → IsSafe g → IsSafe (step pick g)
unfolding step
step-IsSafe pick g live h =
    let (d, queue) = next_turn g.turn_queue g.direction in
    let turned = record g {
      direction = d;
      turn_queue = queue;
      pending_direction = last_turn queue d;
    } in
    advance_body-IsSafe pick g.body turned (record {
      distinct = h.distinct;
      on_board = h.on_board;
      food_free = h.food_free;
      scored = h.scored;
      leveled = h.leveled;
      paced = h.paced;
      short = next_turn_short g.turn_queue g.direction h.short;
      chained = next_turn-Chain g.turn_queue g.direction (h.chained live);
    })

Chain-append :
    (d : Turn) (queue : List Turn) (t : Turn)
    → Chain d queue
    → same_turn t (last_turn queue d) ≡ false
    → same_turn t (opposite (last_turn queue d)) ≡ false
    → Chain d (queue ++ t ∷ [])
Chain-append d [] t h a b = (a, b, tt)
Chain-append d (q ∷ queue) t h a b = (h.0, h.1, Chain-append q queue t h.2 a b)

turn_key-IsSafe : (d : Turn) (g : Game) → is_over g.phase ≡ false → IsSafe g → IsSafe (turn_key d g)
unfolding turn_key
turn_key-IsSafe d g live h =
    let base = last_turn g.turn_queue g.direction in
    if_intro IsSafe
      (not (same_turn d base) && not (same_turn d (opposite base)) && ltb (length g.turn_queue) 2) _
      _
      (λ e. record {
        distinct = h.distinct;
        on_board = h.on_board;
        food_free = h.food_free;
        scored = h.scored;
        leveled = h.leveled;
        paced = h.paced;
        short = ground (arith, length-append g.turn_queue (d ∷ []));
        chained = λ _.
            Chain-append g.direction g.turn_queue d (h.chained live) (ground arith) (ground arith);
        neck = h.neck;
      })
      (λ _. h)

drop_turns-IsSafe :
    (p : Phase) (g : Game)
    → (is_over p ≡ false → is_over g.phase ≡ false)
    → IsSafe g
    → IsSafe (drop_turns p g)
unfolding drop_turns
drop_turns-IsSafe p g live h = record {
  distinct = h.distinct;
  on_board = h.on_board;
  food_free = h.food_free;
  scored = h.scored;
  leveled = h.leveled;
  paced = h.paced;
  short = omega arith;
  chained = λ _. tt;
  neck = λ e. h.neck (live e);
}

timed-IsSafe : (t : ℕ) (g : Game) → IsSafe g → IsSafe (record g { move_timer = t })
timed-IsSafe t g h = record {
  distinct = h.distinct;
  on_board = h.on_board;
  food_free = h.food_free;
  scored = h.scored;
  leveled = h.leveled;
  paced = h.paced;
  short = h.short;
  chained = h.chained;
  neck = h.neck;
}

playing_live : (p : Phase) → is_playing p ≡ true → is_over p ≡ false
playing_live p h = ground arith

catch_up-IsSafe : (n : ℕ) (picks : ℕ → ℕ) (g : Game) → IsSafe g → IsSafe (catch_up n picks g)
unfolding catch_up
catch_up-IsSafe zero picks g h = h
catch_up-IsSafe (suc n) picks g h =
    let later = record g { move_timer = g.move_timer - second / g.move_speed } in
    if_intro IsSafe (is_playing g.phase && leb (second / g.move_speed) g.move_timer) _ _
      (λ e.
        catch_up-IsSafe n picks (step (picks n) later)
          (step-IsSafe (picks n) later (playing_live g.phase (ground arith)) (timed-IsSafe _ g h)))
      (λ _. h)

update-IsSafe : (picks : ℕ → ℕ) (dt : ℕ) (g : Game) → IsSafe g → IsSafe (update picks dt g)
unfolding update
update-IsSafe picks dt g h =
    if_intro IsSafe (is_playing g.phase) _ _
      (λ _. catch_up-IsSafe (if ltb stall dt then 1 else 4) picks _ (timed-IsSafe _ g h)) (λ _. h)

-- What can happen to a game. A direction key counts only while playing.
pub data Input : Type 0 where
  frame : (ℕ → ℕ) → ℕ → Input
  key : Turn → Input
  pause : Input
  blur : Input

unfoldable pub respond : Input → Game → Game
respond (frame picks dt) g = update picks dt g
respond (key d) g = if is_playing g.phase then turn_key d g else g
respond pause g = pause_key g
respond blur g = lose_focus g

unfoldable pub run : List Input → Game → Game
run inputs g = foldl (λ s i. respond i s) g inputs

respond-IsSafe : (i : Input) (g : Game) → IsSafe g → IsSafe (respond i g)
unfolding respond pause_key lose_focus
respond-IsSafe (frame picks dt) g h = update-IsSafe picks dt g h
respond-IsSafe (key d) g h =
    if_intro IsSafe (is_playing g.phase) _ _ (λ e. turn_key-IsSafe d g (playing_live g.phase e) h)
      (λ _. h)
respond-IsSafe pause g h = drop_turns-IsSafe _ g (λ e. ground arith) h
respond-IsSafe blur g h = drop_turns-IsSafe _ g (λ e. ground arith) h

run_from : (inputs : List Input) (g : Game) → IsSafe g → IsSafe (run inputs g)
unfolding run
run_from [] g h = h
run_from (i ∷ inputs) g h = run_from inputs (respond i g) (respond-IsSafe i g h)

reset-IsSafe : (pick : ℕ) → IsSafe (reset pick)
unfolding reset contains point_eq outside vector shift ◌+ℤ◌
reset-IsSafe pick = record {
  distinct = (refl, (refl, (refl, tt)));
  on_board = (refl, (refl, (refl, tt)));
  food_free = spawn_food-IsFree pick start_body;
  scored = refl;
  leveled = refl;
  paced = refl;
  short = omega arith;
  chained = λ _. tt;
  neck = λ _. refl;
}

-- From a new game, after any frames, keys, pauses and losses of focus, in any order and with any
-- food: the cells of the snake are different and on the board, the food is on a free cell, the score
-- is ten for each cell beyond three, level and speed follow the score, at most two turns wait, and
-- while the game is not lost they are a chain in which none repeats or reverses the one before, and
-- the head has come from the second cell by the direction.
pub run-IsSafe : (pick : ℕ) (inputs : List Input) → IsSafe (run inputs (reset pick))
run-IsSafe pick inputs = run_from inputs (reset pick) (reset-IsSafe pick)

-- two steps that add up to nothing, in one coordinate
abbrev Cancels : ℤ → ℤ → Type 0
Cancels a b = pos_part a + pos_part b ≡ neg_part a + neg_part b

cancels : (x a b : ℤ) → x +ℤ a +ℤ b ≡ x → Cancels a b
cancels x a b e = omega (arith, +ℤ_parts x a, +ℤ_parts (x +ℤ a) b, ap pos_part e, ap neg_part e)

no_cancel :
    (d t : Turn)
    → same_turn t (opposite d) ≡ false
    → Cancels (vector d).0 (vector t).0
    → Cancels (vector d).1 (vector t).1
    → ⊥
unfolding vector
no_cancel left left ne h k = omega arith
no_cancel _ _ ne h k = ground arith

-- a point moved by two turns comes back only if one reverses the other
there_and_back :
    (p : Point) (d t : Turn)
    → same_turn t (opposite d) ≡ false
    → shift (shift p (vector d)) (vector t) ≢ p
unfolding shift
there_and_back (x, y) d t ne e =
    no_cancel d t ne (cancels x (vector d).0 (vector t).0 (ap (λ (q : Point). q.0) e))
      (cancels y (vector d).1 (vector t).1 (ap (λ (q : Point). q.1) e))

forward : (d : Turn) → same_turn d (opposite d) ≡ false
forward left = refl
forward right = refl
forward up = refl
forward down = refl

next_turn_forward :
    (queue : List Turn) (d : Turn)
    → Chain d queue
    → same_turn (next_turn queue d).0 (opposite d) ≡ false
next_turn_forward [] d h = forward d
next_turn_forward (t ∷ rest) d h = h.1

-- In a game that is not lost, after any inputs, the cell that the next step enters is never the
-- second cell of the snake: no keys, however fast, make the snake turn back on itself.
pub run_no_reversal :
    (pick : ℕ) (inputs : List Input) (head second_cell : Point) (rest : List Point)
    → is_over (run inputs (reset pick)).phase ≡ false
    → (run inputs (reset pick)).body ≡ head ∷ second_cell ∷ rest
    → shift head (
        vector
          (next_turn (run inputs (reset pick)).turn_queue (run inputs (reset pick)).direction).0)
      ≢ second_cell
run_no_reversal pick inputs head second_cell rest live body e =
    let g = run inputs (reset pick) in
    let h = run-IsSafe pick inputs in
    let neck : Neck g.direction (head ∷ second_cell ∷ rest) =
      subst (Neck g.direction) body (h.neck live) in
    there_and_back second_cell g.direction (next_turn g.turn_queue g.direction).0
      (next_turn_forward g.turn_queue g.direction (h.chained live))
      (ap (λ p. shift p (vector (next_turn g.turn_queue g.direction).0)) (sym neck) ∙ e)
