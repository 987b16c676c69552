-- ===== src/Tetris/Fit.antt =====
-- The falling piece always fits, and the board keeps its size and its full rows cleared.
use classic_games.Prelude.{
  ℕ, zero, suc, ◌+◌, ◌/◌, ◌≡◌, refl, Bool, true, false, not, Option, none, some, List, [], ◌∷◌, map,
  if_intro, ◌==◌, arith,
}
use classic_games.Prelude.Int.{ℤ, pos, ◌+ℤ◌, +ℤ_zero, +ℤ_right_comm}
use classic_games.Points.{Point}
use classic_games.Tetris.Shapes.{Kind, Spin, turned, shape}
use classic_games.Tetris.Board.{
  Grid, Piece, place, cells, cells_here, collides, blocked, topped_out, cleared,
}
use classic_games.Tetris.Play.{
  Phase, gameover, Game, drop_interval_for, hits, moved, move, settle_lift, first_fit, kick_to,
  rotate, clear_lines, enter, draw_next, spawn, hold_piece, swap_held, lock, soft_drop, hard_drop,
}
use classic_games.Tetris.Clock.{sink}
use classic_games.Tetris.Lines.{
  IsSized, IsOpen, write_cells-IsSized, clear_rows-IsSized, clear_rows-IsOpen,
}

abbrev pub is_over : Phase → Bool
is_over gameover = true
is_over _ = false

-- what holds of the board and the counters
pub record Kept (b : Grid) (level lines interval : ℕ) (over : Bool) : Type 0 where
  pub sized : IsSized b
  pub leveled : level ≡ 1 + lines / 10
  pub paced : interval ≡ drop_interval_for level
  pub open_rows : over ≡ false → IsOpen b

abbrev pub Fits : Grid → Piece → Bool → Type 0
Fits b p over = over ≡ false → collides b (cells_here p) ≡ false

abbrev pub IsKept : Game → Type 0
IsKept g = Kept g.board g.level g.lines g.drop_interval (is_over g.phase)

abbrev pub IsSound : Game → Type 0
IsSound g = IsKept g × Fits g.board g.piece (is_over g.phase)

-- a piece that was moved, where it was tried
place-moved :
    (p : Piece) (dx dy : ℤ) (c : ℕ × ℕ)
    → place (p.x +ℤ dx) (p.y +ℤ dy) (pos 0) (pos 0) c ≡ place p.x p.y dx dy c
place-moved p dx dy (a, b) = rw (
  +ℤ_zero (p.x +ℤ dx +ℤ pos a),
  +ℤ_zero (p.y +ℤ dy +ℤ pos b),
  +ℤ_right_comm (p.x) dx (pos a),
  +ℤ_right_comm (p.y) dy (pos b),
)

cells_here-moved : (p : Piece) (dx dy : ℤ) (r : ℕ) → cells_here (moved dx dy r p) ≡ cells p dx dy r
unfolding cells_here cells
cells_here-moved p dx dy r = go (shape p.kind r)
  where
    go :
        (cs : List (ℕ × ℕ))
        → map (place (p.x +ℤ dx) (p.y +ℤ dy) (pos 0) (pos 0)) cs ≡ map (place p.x p.y dx dy) cs
    go [] = refl
    go (c ∷ cs) = rw (place-moved p dx dy c, go cs)

-- a piece moved to where it fits
refit_moved :
    (b : Grid) (p : Piece) (over : Bool) (dx dy : ℤ) (r : ℕ)
    → collides b (cells p dx dy r) ≡ false
    → Fits b (moved dx dy r p) over
refit_moved b p over dx dy r e _ = rw (cells_here-moved p dx dy r) e

pub move-IsSound : (dx : ℤ) (g : Game) → IsSound g → IsSound (move dx g)
unfolding move
move-IsSound dx g s =
    if_intro IsSound (hits g.board g.piece dx (pos 0)) _ _ (λ _. s)
      (λ e. (s.0, refit_moved g.board g.piece (is_over g.phase) dx (pos 0) g.piece.rot e))

settle_lift-IsSound : (n : ℕ) (g : Game) → IsSound g → IsSound (settle_lift n g)
unfolding settle_lift
settle_lift-IsSound zero g s = s
settle_lift-IsSound (suc n) g s =
    if_intro IsSound (hits g.board g.piece (pos 0) (pos 1)) _ _ (λ _. s)
      (λ e.
        settle_lift-IsSound n _
          (s.0, refit_moved g.board g.piece (is_over g.phase) (pos 0) (pos 1) g.piece.rot e))

first_fit-fits :
    (b : Grid) (p : Piece) (r : ℕ) (ks : List Point) (k : Point)
    → first_fit b p r ks ≡ some k
    → collides b (cells p k.0 k.1 r) ≡ false
unfolding first_fit
first_fit-fits b p r [] k e = cc
first_fit-fits b p r (j ∷ ks) k e = ground (arith, first_fit-fits b p r ks k)

kick_to-IsSound :
    (r : ℕ) (o : Option Point) (g : Game)
    → IsSound g
    → ((k : Point) → o ≡ some k → collides g.board (cells g.piece k.0 k.1 r) ≡ false)
    → IsSound (kick_to r o g)
kick_to-IsSound r none g s h = s
kick_to-IsSound r (some (kx, ky)) g s h =
    settle_lift-IsSound _ _
      (s.0, refit_moved g.board g.piece (is_over g.phase) kx ky r (h (kx, ky) refl))

pub rotate-IsSound : (spin : Spin) (g : Game) → IsSound g → IsSound (rotate spin g)
unfolding rotate cells_here cells
rotate-IsSound spin g s =
    let r = turned spin g.piece.rot in
    let target = cells g.piece (pos 0) (pos 0) r in
    if_intro IsSound (blocked g.board target) _ _ (λ _. s)
      (λ _.
        if_intro IsSound (not (collides g.board target)) _ _
          (λ e. settle_lift-IsSound _ _ (s.0, fits_in_place r e))
          (λ _. kick_to-IsSound r _ g s (first_fit-fits g.board g.piece r _)))
  where
    fits_in_place :
        (r : ℕ)
        → not (collides g.board (cells g.piece (pos 0) (pos 0) r)) ≡ true
        → Fits g.board (record (g.piece) { rot = r }) (is_over g.phase)
    fits_in_place r e _ = ground (arith, e)

refuted : {b : Bool} → not b ≡ true → b ≡ false
refuted {b} e = ground arith

enter-IsSound : (top : Bool) (g : Game) → IsKept g → IsSound (enter top g)
enter-IsSound top g k =
    if_intro IsSound (collides g.board (cells_here g.piece)) _ _
      (λ _. (
        record { sized = k.sized; leveled = k.leveled; paced = k.paced; open_rows = λ e. cc },
        λ e. cc,
      ))
      (λ e. (k, λ _. e))

clear_lines-IsKept :
    (g : Game)
    → IsSized g.board
    → g.level ≡ 1 + g.lines / 10
    → g.drop_interval ≡ drop_interval_for g.level
    → IsKept (clear_lines g)
unfolding clear_lines
clear_lines-IsKept g z l i =
    if_intro IsKept (cleared g.board == 0) _ _
      (λ _. record {
        sized = clear_rows-IsSized g.board z;
        leveled = l;
        paced = i;
        open_rows = λ _. clear_rows-IsOpen g.board;
      })
      (λ _. record {
        sized = clear_rows-IsSized g.board z;
        leveled = refl;
        paced = refl;
        open_rows = λ _. clear_rows-IsOpen g.board;
      })

module _ (shuffle : ℕ → List Kind → List Kind) where
  pub spawn-IsSound : (g : Game) → IsKept g → IsSound (spawn shuffle g)
  unfolding spawn draw_next
  spawn-IsSound g k = enter-IsSound false _ k

  lock-IsSound : (g : Game) → IsKept g → IsSound (lock shuffle g)
  unfolding lock
  lock-IsSound g k =
      let cs = cells_here g.piece in
      let z = write_cells-IsSized g.piece.kind cs g.board k.sized in
      if_intro IsSound (topped_out cs) _ _
        (λ _. (
          record { sized = z; leveled = k.leveled; paced = k.paced; open_rows = λ e. cc },
          λ e. cc,
        ))
        (λ _. spawn-IsSound _ (clear_lines-IsKept _ z k.leveled k.paced))

  pub soft_drop-IsSound : (g : Game) → IsSound g → IsSound (soft_drop shuffle g)
  unfolding soft_drop
  soft_drop-IsSound g s =
      if_intro IsSound (not (hits g.board g.piece (pos 0) (pos 1))) _ _
        (λ e. (
          s.0,
          refit_moved g.board g.piece (is_over g.phase) (pos 0) (pos 1) g.piece.rot (refuted e),
        ))
        (λ _. lock-IsSound g s.0)

  pub sink-IsSound : (g : Game) → IsSound g → IsSound (sink shuffle g)
  unfolding sink
  sink-IsSound g s =
      if_intro IsSound (not (hits g.board g.piece (pos 0) (pos 1))) _ _
        (λ e. (
          s.0,
          refit_moved g.board g.piece (is_over g.phase) (pos 0) (pos 1) g.piece.rot (refuted e),
        ))
        (λ _. lock-IsSound g s.0)

  pub hard_drop-IsSound : (g : Game) → IsSound g → IsSound (hard_drop shuffle g)
  unfolding hard_drop
  hard_drop-IsSound g s = lock-IsSound _ s.0

  pub hold_piece-IsSound : (g : Game) → IsSound g → IsSound (hold_piece shuffle g)
  unfolding hold_piece draw_next
  hold_piece-IsSound g s = if_intro IsSound g.hold_used _ _ (λ _. s) (λ _. swapped g.held_kind)
    where
      swapped : (o : Option Kind) → IsSound (swap_held shuffle o g)
      swapped none = enter-IsSound true _ s.0
      swapped (some k) = enter-IsSound true _ s.0
