-- ===== src/Tetris/Run.antt =====
-- What holds of a game of tetris after any inputs.
use mathlib.Core.List.{foldl}
use mathlib.Core.Path.{subst}
use classic_games.Prelude.{
  ℕ, zero, suc, ◌-◌, ◌≡◌, refl, Bool, true, false, ◌&&◌, not, List, [], ◌∷◌, length, if◌then◌else◌,
  if_intro, ◌==◌, leb,
}
use classic_games.Prelude.Int.{pos, ◌+ℤ◌}
use classic_games.Points.{eq_ℤ}
use classic_games.Tetris.Shapes.{Kind}
use classic_games.Tetris.Board.{Row, rows, cols, empty_row, is_full}
use classic_games.Tetris.Play.{
  Key, left_arrow, key_a, right_arrow, key_d, down_arrow, key_s, Game, Phase, paused, gameover,
  playing, reset, soft_drop, rotate, hard_drop, hold_piece, drop_interval_for,
}
use classic_games.Tetris.Clock.{
  is_playing, elapsed, repeat_moves, tick_moves, press, press_horizontal, press_down, press_key,
  key_up, refresh_held, release_all, toggled, pause_key, lose_focus, repeat_drops, tick_drops, sink,
  fall_due, after_drops, update, Input, frame, key_down, let_go, turn, slam, swap, pause, blur,
  guarded, respond, has_key, key_direction,
}
use classic_games.Tetris.Lines.{All-replicate}
use classic_games.Tetris.Fit.{
  is_over, Kept, Fits, IsSound, move-IsSound, rotate-IsSound, spawn-IsSound, soft_drop-IsSound,
  sink-IsSound, hard_drop-IsSound, hold_piece-IsSound,
}

repeat_moves-IsSound : (n : ℕ) (g : Game) → IsSound g → IsSound (repeat_moves n g)
unfolding repeat_moves
repeat_moves-IsSound zero g s = s
repeat_moves-IsSound (suc n) g s =
    if_intro IsSound (elapsed g.horizontal_repeat_timer) _ _
      (λ _. repeat_moves-IsSound n _ (move-IsSound g.horizontal_hold g s)) (λ _. s)

tick_moves-IsSound : (dt : ℕ) (g : Game) → IsSound g → IsSound (tick_moves dt g)
unfolding tick_moves
tick_moves-IsSound dt g s =
    if_intro IsSound (eq_ℤ g.horizontal_hold (pos 0)) _ _ (λ _. s)
      (λ _. repeat_moves-IsSound cols _ s)

press_horizontal-IsSound : (k : Key) (g : Game) → IsSound g → IsSound (press_horizontal k g)
unfolding press_horizontal refresh_held
press_horizontal-IsSound k g s =
    if_intro IsSound
      (not (has_key g.pressed_keys k) && not (eq_ℤ g.horizontal_hold (key_direction k))) _ _
      (λ _. move-IsSound (key_direction k) (press true k g) s) (λ _. s)

key_up-IsSound : (k : Key) (g : Game) → IsSound g → IsSound (key_up k g)
unfolding key_up refresh_held
key_up-IsSound k g s = if_intro IsSound _ _ _ (λ _. s) (λ _. s)

-- neither the pause nor the loss of focus ends a game
release_all-IsSound :
    (p : Phase) (g : Game) → is_over g.phase ≡ is_over p → IsSound g → IsSound (release_all p g)
unfolding release_all
release_all-IsSound p g e s =
    subst (λ o. Kept g.board g.level g.lines g.drop_interval o × Fits g.board g.piece o) e s

is_over-toggled : (p : Phase) → is_over p ≡ is_over (toggled p)
is_over-toggled playing = refl
is_over-toggled paused = refl
is_over-toggled gameover = refl

is_over-blurred : (p : Phase) → is_over p ≡ is_over (if is_playing p then paused else p)
is_over-blurred playing = refl
is_over-blurred paused = refl
is_over-blurred gameover = refl

pause_key-IsSound : (g : Game) → IsSound g → IsSound (pause_key g)
unfolding pause_key
pause_key-IsSound g s = release_all-IsSound (toggled g.phase) g (is_over-toggled g.phase) s

lose_focus-IsSound : (g : Game) → IsSound g → IsSound (lose_focus g)
unfolding lose_focus
lose_focus-IsSound g s =
    release_all-IsSound (if is_playing g.phase then paused else g.phase) g (is_over-blurred g.phase)
      s

module _ (shuffle : ℕ → List Kind → List Kind) where
  press_down-IsSound : (k : Key) (g : Game) → IsSound g → IsSound (press_down shuffle k g)
  unfolding press_down refresh_held
  press_down-IsSound k g s =
      if_intro IsSound (not (has_key g.pressed_keys k) && not g.soft_drop_held) _ _
        (λ _. soft_drop-IsSound shuffle (press false k g) s) (λ _. s)

  repeat_drops-IsSound : (n : ℕ) (g : Game) → IsSound g → IsSound ((repeat_drops shuffle n g).0)
  unfolding repeat_drops
  repeat_drops-IsSound zero g s = s
  repeat_drops-IsSound (suc n) g s =
      let dropped = soft_drop shuffle g in
      let t = soft_drop-IsSound shuffle g s in
      let later = record dropped {
        soft_drop_repeat_timer = dropped.soft_drop_repeat_timer +ℤ pos 45;
      } in
      if_intro (λ (r : Game × Bool). IsSound (r.0))
        (elapsed g.soft_drop_repeat_timer && is_playing g.phase) _ _
        (λ _.
          if_intro (λ (r : Game × Bool). IsSound (r.0))
            ((soft_drop shuffle g).generation == g.generation) (repeat_drops shuffle n later)
            (record dropped { soft_drop_repeat_timer = pos 0; drop_timer = 0 }, true)
            (λ _. repeat_drops-IsSound n later t) (λ _. t))
        (λ _. s)

  fall_due-IsSound : (n : ℕ) (g : Game) → IsSound g → IsSound (fall_due shuffle n g)
  unfolding fall_due
  fall_due-IsSound zero g s = s
  fall_due-IsSound (suc n) g s =
      let due = record g { drop_timer = g.drop_timer - g.drop_interval } in
      let t = sink-IsSound shuffle due s in
      if_intro IsSound (leb g.drop_interval g.drop_timer && is_playing g.phase) _ _
        (λ _.
          if_intro IsSound ((sink shuffle due).generation == due.generation)
            (fall_due shuffle n (sink shuffle due)) (record (sink shuffle due) { drop_timer = 0 })
            (λ _. fall_due-IsSound n (sink shuffle due) t) (λ _. t))
        (λ _. s)

  after_drops-IsSound :
      (dt : ℕ) (r : Game × Bool) → IsSound (r.0) → IsSound (after_drops shuffle dt r)
  after_drops-IsSound dt (g, true) s = s
  after_drops-IsSound dt (g, false) s = fall_due-IsSound rows _ s

  tick_drops-IsSound : (dt : ℕ) (g : Game) → IsSound g → IsSound ((tick_drops shuffle dt g).0)
  unfolding tick_drops
  tick_drops-IsSound dt g s =
      if_intro (λ (r : Game × Bool). IsSound (r.0)) g.soft_drop_held _ _
        (λ _. repeat_drops-IsSound rows _ s) (λ _. s)

  update-IsSound : (dt : ℕ) (g : Game) → IsSound g → IsSound (update shuffle dt g)
  unfolding update
  update-IsSound dt g s =
      if_intro IsSound (is_playing g.phase) _ _
        (λ _. after_drops-IsSound _ _ (tick_drops-IsSound _ _ (tick_moves-IsSound _ g s))) (λ _. s)

  press_key-IsSound : (k : Key) (g : Game) → IsSound g → IsSound (press_key shuffle k g)
  unfolding press_key
  press_key-IsSound left_arrow g s = press_horizontal-IsSound left_arrow g s
  press_key-IsSound key_a g s = press_horizontal-IsSound key_a g s
  press_key-IsSound right_arrow g s = press_horizontal-IsSound right_arrow g s
  press_key-IsSound key_d g s = press_horizontal-IsSound key_d g s
  press_key-IsSound down_arrow g s = press_down-IsSound down_arrow g s
  press_key-IsSound key_s g s = press_down-IsSound key_s g s

  guarded-IsSound :
      (f : Game → Game) (g : Game) → IsSound g → IsSound (f g) → IsSound (guarded shuffle f g)
  guarded-IsSound f g s t = if_intro IsSound (is_playing g.phase) _ _ (λ _. t) (λ _. s)

  respond-IsSound : (i : Input) (g : Game) → IsSound g → IsSound (respond shuffle i g)
  unfolding respond
  respond-IsSound (frame dt) g s = update-IsSound dt g s
  respond-IsSound (key_down k) g s =
      guarded-IsSound (press_key shuffle k) g s (press_key-IsSound k g s)
  respond-IsSound (let_go k) g s = key_up-IsSound k g s
  respond-IsSound (turn spin) g s = guarded-IsSound (rotate spin) g s (rotate-IsSound spin g s)
  respond-IsSound slam g s = guarded-IsSound (hard_drop shuffle) g s (hard_drop-IsSound shuffle g s)
  respond-IsSound swap g s =
      guarded-IsSound (hold_piece shuffle) g s (hold_piece-IsSound shuffle g s)
  respond-IsSound pause g s = pause_key-IsSound g s
  respond-IsSound blur g s = lose_focus-IsSound g s

  reset-IsSound : IsSound (reset shuffle)
  unfolding reset is_full drop_interval_for
  reset-IsSound = spawn-IsSound shuffle _ (record {
    sized = (refl, All-replicate (λ (row : Row). length row ≡ cols) rows {a = empty_row} refl);
    leveled = refl;
    paced = refl;
    open_rows = λ _. All-replicate (λ (row : Row). is_full row ≡ false) rows {a = empty_row} refl;
  })

  abbrev pub run : List Input → Game
  run inputs = foldl (λ g i. respond shuffle i g) (reset shuffle) inputs

  keep :
      (inputs : List Input) (g : Game)
      → IsSound g
      → IsSound (foldl (λ g i. respond shuffle i g) g inputs)
  keep [] g s = s
  keep (i ∷ inputs) g s = keep inputs (respond shuffle i g) (respond-IsSound i g s)

  -- From a new game of tetris, after any frames and keys and however the bags are shuffled: the
  -- board has 20 rows of 10 cells, level and speed follow the lines, and while the game is not over
  -- no row is full and the piece overlaps no block, wall or floor.
  pub run-IsSound : (inputs : List Input) → IsSound (run inputs)
  run-IsSound inputs = keep inputs (reset shuffle) reset-IsSound
