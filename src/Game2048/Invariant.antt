-- ===== src/Game2048/Invariant.antt =====
-- What every call keeps true of a game of 2048.
use classic_games.Prelude.{
  ℕ, ◌+◌, ◌≤◌, ◌<◌, ◌≡◌, min, refl, Bool, true, false, ◌&&◌, not, Option, none, some, List, [], ◌∷◌,
  if_intro, length, ltb, leb, if◌then◌else◌, arith,
}
use mathlib.Core.List.{foldl}
use classic_games.Game2048.Board.{
  Tile, Grid, Draw, empty_grid, spawn_tile, AtRest, IsSettled, can_move,
}
use classic_games.Game2048.Slide.{Direction, slide}
use classic_games.Game2048.Slide.Still.{slide-reset_from}
use classic_games.Game2048.Slide.Total.{reset_from-IsSettled}
use classic_games.Game2048.Slide.Placed.{
  AtPlace, IsPlaced, slide-IsPlaced, IsSettled-IsPlaced, spawn_tile-IsSettled,
}
use classic_games.Game2048.Play.{
  Game, Extra, Phase, playing, paused, won, gameover, slide_end, is_playing, is_sliding,
  settled_fields, save_autosave, enqueue, lose_if_locked, move, drain, pause_key, lose_focus,
}
use classic_games.Game2048.Tick.{
  extra_of, finish_tile, finish_merges, after_spawn, announce, apply_pending, pending_phase, settle,
  tick, continue_after_win, reset,
}

length-enqueue : (d : Direction) (q : List Direction) → length q ≤ 2 → length (enqueue d q) ≤ 2
unfolding enqueue
length-enqueue d [] h = omega arith
length-enqueue d (a ∷ []) h = ground arith
length-enqueue d (a ∷ b ∷ rest) h = h

still-IsSettled :
    (d : Direction) (g : Game)
    → IsSettled g.grid
    → (slide d g.grid g.score g.won).moved ≡ false
    → IsSettled (slide d g.grid g.score g.won).cells
still-IsSettled d g h still = record {
  at = λ r c hr hc.
      rw (slide-reset_from d g.grid g.score g.won r c h still hr hc)
        ((reset_from-IsSettled g.grid h).at r c hr hc);
}

finish_tile-AtRest : (r c : ℕ) (o : Option Tile) → AtPlace r c o → AtRest r c (finish_tile o)
finish_tile-AtRest r c none h = tt
finish_tile-AtRest r c (some t) h = ground arith

pub finish_merges-IsSettled : (g : Grid) → IsPlaced g → IsSettled (finish_merges g)
unfolding finish_merges
finish_merges-IsSettled g h = record {
  at = λ r c hr hc. finish_tile-AtRest r c (g r c) (h.at r c hr hc);
}

-- a game whose slide has ended, on a settled board
record Landed (g : Game) : Type 0 where
  board : IsSettled g.grid
  ended : g.anim_t ≡ slide_end
  short : length g.queued ≤ 2

after_spawn-Landed : (draw : Draw) (g : Game) → Landed g → Landed (after_spawn draw g)
unfolding after_spawn
after_spawn-Landed draw g h =
    if_intro Landed (is_playing g.phase) _ _
      (λ _. record {
        board = spawn_tile-IsSettled draw g.grid h.board;
        ended = h.ended;
        short = h.short;
      })
      (λ _. h)

announce-Landed : (g : Game) → Landed g → Landed (announce g)
unfolding announce
announce-Landed g h = pending (pending_phase g)
  where
    pending : (p : Option Phase) → Landed (record (apply_pending p g) { pre_move = none })
    pending none = record { board = h.board; ended = h.ended; short = h.short }
    pending (some won) = record { board = h.board; ended = h.ended; short = omega arith }
    pending (some _) = record { board = h.board; ended = h.ended; short = omega arith }

settle-Landed :
    (draw : Draw) (g : Game)
    → IsPlaced g.grid
    → g.anim_t ≡ slide_end
    → length g.queued ≤ 2
    → Landed (settle draw g)
unfolding settle
settle-Landed draw g board ended short = announce-Landed _ (
    after_spawn-Landed draw _
      (record { board = finish_merges-IsSettled g.grid board; ended = ended; short = short }))

abbrev is_paused : Phase → Bool
is_paused paused = true
is_paused _ = false

abbrev is_won : Phase → Bool
is_won won = true
is_won _ = false

-- What can happen to a game: frames, which stop the animation while paused (`update_overlay`), keys
-- and swipes, the choice to play on after a win, the pause key and the loss of focus.
pub data Input : Type 0 where
  frame : Draw → ℕ → Input
  turn : Direction → Input
  play_on : Input
  pause : Input
  blur : Input

-- the board before the slide `d` that is under way: settled, at rest and in play; the slide has moved
-- something and has made the present board, score and flags, and counted and logged one move
module _ (digest : ℕ → ℕ → Direction → ℕ) where
  abbrev pub IsBefore : Game → Direction → Game → Type 0
  IsBefore before d g =
      let s = slide d before.grid before.score before.won in
      IsSettled before.grid
      × (slide_end ≤ before.anim_t)
      × (is_playing before.phase ≡ true)
      × (s.moved ≡ true)
      × (g.grid ≡ s.cells)
      × (g.score ≡ s.score)
      × (g.won ≡ s.won)
      × (g.won_announced ≡ before.won_announced)
      × (g.move_count ≡ before.move_count + 1)
      × (g.move_digest ≡ digest before.move_digest (before.move_count + 1) d)
      × (g.pre_move ≡ some (settled_fields before))

  -- what is kept for the autosave are the fields of that game
  abbrev pub IsKept : Game → Type 0
  IsKept g = (before : Game) × (d : Direction) × IsBefore before d g

  -- During a slide the fields before it are kept for the autosave; at rest the board is settled.
  -- The queue holds at most two directions.
  pub record IsGood (g : Game) : Type 0 where
    pub placed : IsPlaced g.grid
    pub rest : slide_end ≤ g.anim_t → IsSettled g.grid
    pub in_time : g.anim_t ≤ slide_end
    pub short : length g.queued ≤ 2
    pub saved : g.anim_t < slide_end → IsKept g

  lose_if_locked-IsGood : (g : Game) → IsGood g → IsGood (lose_if_locked g)
  unfolding lose_if_locked
  lose_if_locked-IsGood g h =
      if_intro IsGood (can_move g.grid) _ _ (λ _. h)
        (λ _. record {
          placed = h.placed;
          rest = h.rest;
          in_time = h.in_time;
          short = omega arith;
          saved = h.saved;
        })

  abbrev Good2 : Bool × Game → Type 0
  Good2 p = IsGood p.1

  pub move-IsGood : (d : Direction) (g : Game) → IsGood g → IsGood (move digest d g).1
  unfolding move
  move-IsGood d g h =
      if_intro Good2 (not (is_playing g.phase)) _ _ (λ _. h)
        (λ playing_now.
          if_intro Good2 (is_sliding g) _ _
            (λ _. record {
              placed = h.placed;
              rest = h.rest;
              in_time = h.in_time;
              short = length-enqueue d g.queued h.short;
              saved = h.saved;
            })
            (λ at_rest.
              let board = slide-IsPlaced d g.grid g.score g.won in
              if_intro Good2 (slide d g.grid g.score g.won).moved _ _
                (λ moved. record {
                  placed = board;
                  rest = λ late. absurd (omega arith);
                  in_time = omega arith;
                  short = h.short;
                  saved = λ _. (
                    g,
                    d,
                    (
                      h.rest (ground arith),
                      ground arith,
                      ground (arith, playing_now),
                      moved,
                      refl,
                      refl,
                      refl,
                      refl,
                      refl,
                      refl,
                      refl,
                    ),
                  );
                })
                (λ still. lose_if_locked-IsGood _ (record {
                  placed = board;
                  rest = λ late. still-IsSettled d g (h.rest late) still;
                  in_time = h.in_time;
                  short = h.short;
                  saved = λ early. absurd (ground arith);
                }))))

  pub drain-IsGood :
      (queue : List Direction) (g : Game)
      → length queue ≤ 2
      → IsGood g
      → IsGood (drain digest queue g)
  unfolding drain
  drain-IsGood [] g l h = h
  drain-IsGood (d ∷ rest) g l h =
      let next = record g { queued = rest } in
      let good = move-IsGood d next (record {
        placed = h.placed;
        rest = h.rest;
        in_time = h.in_time;
        short = omega arith;
        saved = h.saved;
      }) in
      if_intro IsGood (is_playing g.phase) _ _
        (λ _.
          if_intro IsGood (move digest d next).0 _ _ (λ _. good)
            (λ _. drain-IsGood rest (move digest d next).1 (omega arith) good))
        (λ _. h)

  Landed-IsGood : (g : Game) → Landed g → IsGood g
  Landed-IsGood g h = record {
    placed = IsSettled-IsPlaced g.grid h.board;
    rest = λ _. h.board;
    in_time = omega arith;
    short = h.short;
    saved = λ early. absurd (omega arith);
  }

  pub tick-IsGood : (draw : Draw) (dt : ℕ) (g : Game) → IsGood g → IsGood (tick digest draw dt g)
  unfolding tick
  tick-IsGood draw dt g h =
      let t = if ltb g.anim_t slide_end then min slide_end (g.anim_t + dt) else g.anim_t in
      let g' = record g { anim_t = t } in
      let ends = ltb g.anim_t slide_end && leb slide_end t in
      if_intro IsGood ends _ _
        (λ e.
          let landed = settle-Landed draw g' h.placed (ground arith) h.short in
          drain-IsGood (settle draw g').queued (settle draw g') landed.short
            (Landed-IsGood (settle draw g') landed))
        (λ e. record {
          placed = h.placed;
          rest = λ late. h.rest (ground arith);
          in_time = ground arith;
          short = h.short;
          saved = λ early. h.saved (ground arith);
        })

  save_autosave-IsGood : (g : Game) → IsGood g → IsGood (save_autosave g)
  unfolding save_autosave
  save_autosave-IsGood g h = record {
    placed = h.placed;
    rest = h.rest;
    in_time = h.in_time;
    short = h.short;
    saved = h.saved;
  }

  no_queue :
      (g : Game) (p : Phase) (e : Option Extra)
      → IsGood g
      → IsGood (record g { phase = p; queued = []; extra = e })
  no_queue g p e h = record {
    placed = h.placed;
    rest = h.rest;
    in_time = h.in_time;
    short = omega arith;
    saved = h.saved;
  }

  pub continue_after_win-IsGood : (g : Game) → IsGood g → IsGood (continue_after_win g)
  unfolding continue_after_win
  continue_after_win-IsGood g h = save_autosave-IsGood _ (
      if_intro IsGood (can_move g.grid) _ _ (λ _. no_queue g playing g.extra h)
        (λ _.
          let lost = no_queue g gameover (some (extra_of g true)) h in
          record {
            placed = lost.placed;
            rest = lost.rest;
            in_time = lost.in_time;
            short = lost.short;
            saved = lost.saved;
          }))

  reset-IsGood :
      (initializing : Bool) (started : ℕ) (first second : Draw)
      → IsGood (reset initializing started first second)
  unfolding reset
  reset-IsGood initializing started first second =
      if_intro IsGood initializing _ _ (λ _. fresh) (λ _. save_autosave-IsGood _ fresh)
    where
      board : IsSettled (spawn_tile second (spawn_tile first empty_grid).1).1
      board =
          spawn_tile-IsSettled second _
            (spawn_tile-IsSettled first empty_grid (record { at = λ r c hr hc. tt }))

      fresh : IsGood (reset true started first second)
      fresh = Landed-IsGood _ (record { board = board; ended = refl; short = omega arith })

  pause_key-IsGood : (g : Game) → IsGood g → IsGood (pause_key g)
  unfolding pause_key
  pause_key-IsGood g h = record {
    placed = h.placed;
    rest = h.rest;
    in_time = h.in_time;
    short = omega arith;
    saved = h.saved;
  }

  lose_focus-IsGood : (g : Game) → IsGood g → IsGood (lose_focus g)
  unfolding lose_focus
  lose_focus-IsGood g h = record {
    placed = h.placed;
    rest = h.rest;
    in_time = h.in_time;
    short = omega arith;
    saved = h.saved;
  }

  pub respond : Input → Game → Game
  respond (frame draw dt) g = if is_paused g.phase then g else tick digest draw dt g
  respond (turn d) g = (move digest d g).1
  respond play_on g = if is_won g.phase then continue_after_win g else g
  respond pause g = pause_key g
  respond blur g = lose_focus g

  pub run : List Input → Game → Game
  run inputs g = foldl (λ s i. respond i s) g inputs

  respond-IsGood : (i : Input) (g : Game) → IsGood g → IsGood (respond i g)
  unfolding respond
  respond-IsGood (frame draw dt) g h =
      if_intro IsGood (is_paused g.phase) _ _ (λ _. h) (λ _. tick-IsGood draw dt g h)
  respond-IsGood (turn d) g h = move-IsGood d g h
  respond-IsGood play_on g h =
      if_intro IsGood (is_won g.phase) _ _ (λ _. continue_after_win-IsGood g h) (λ _. h)
  respond-IsGood pause g h = pause_key-IsGood g h
  respond-IsGood blur g h = lose_focus-IsGood g h

  run_from : (inputs : List Input) (g : Game) → IsGood g → IsGood (run inputs g)
  unfolding run
  run_from [] g h = h
  run_from (i ∷ inputs) g h = run_from inputs (respond i g) (respond-IsGood i g h)

  -- From a fresh game, after any frames, moves, pauses and continuations, in any order: every tile
  -- of the board is alive and knows its cell, a board at rest is settled, and the queue holds at most
  -- two directions. During a slide the fields that are kept for the autosave are those of a game in
  -- play, at rest on a settled board, of which the slide has made the present board, score and flags
  -- by one move more.
  pub run-IsGood :
      (initializing : Bool) (started : ℕ) (first second : Draw) (inputs : List Input)
      → IsGood (run inputs (reset initializing started first second))
  run-IsGood initializing started first second inputs =
      run_from inputs _ (reset-IsGood initializing started first second)
