-- ===== src/Tetris/Play.antt =====
-- client/games/tetris.py: the game, and each command of the player on its piece. A result is an
-- effect, in place of the call of `on_game_over` that stores it. `rng.shuffle` is the parameter
-- `shuffle`, whose first argument counts its calls. The piece is there from the end of `reset` on.
use classic_games.Prelude.{
  ℕ, zero, suc, ◌+◌, ◌-◌, ◌*◌, ◌/◌, max, Bool, true, false, not, Option, none, some, List, [], ◌∷◌,
  ◌++◌, replicate, ◌==◌, if◌then◌else◌,
}
use classic_games.Prelude.Int.{ℤ, pos, ◌+ℤ◌, ◌-ℤ◌, pos_part, neg_part, ltb_ℤ}
use classic_games.Points.{Point}
use classic_games.Tetris.Shapes.{Kind, bar, shape_keys, Spin, turned, kicks}
use classic_games.Tetris.Board.{
  Grid, Piece, new_piece, cells, cells_here, collides, blocked, write_cells, topped_out, cleared,
  clear_rows, empty_row, rows,
}

pub data Phase : Type 0 where
  playing paused gameover : Phase

-- the dictionary `extra` of a result
pub record Extra : Type 0 where
  pub lines : ℕ
  pub level : ℕ
  pub top_out : Bool

pub data Effect : Type 0 where
  on_game_over : ℕ → Extra → Effect

pub data Key : Type 0 where
  left_arrow key_a right_arrow key_d down_arrow key_s : Key

-- times in milliseconds
pub record Game : Type 0 where
  pub board : Grid
  pub piece : Piece
  pub piece_bag : List Kind
  pub shuffles : ℕ
  pub next_kind : Kind
  pub held_kind : Option Kind
  pub hold_used : Bool
  pub score : ℕ
  pub lines : ℕ
  pub level : ℕ
  pub drop_timer : ℕ
  pub drop_interval : ℕ
  pub horizontal_hold : ℤ
  pub pressed_keys : List Key
  pub press_order : List Key
  pub horizontal_repeat_timer : ℤ
  pub soft_drop_held : Bool
  pub soft_drop_repeat_timer : ℤ
  pub phase : Phase
  pub rot_count : ℕ
  pub lift_debt : ℕ
  pub generation : ℕ
  pub effects : List Effect

unfoldable pub drop_interval_for : ℕ → ℕ
drop_interval_for level = max 80 (800 - (level - 1) * 70)

abbrev pub end_game : Bool → Game → Game
end_game top g = record g {
  phase = gameover;
  effects =
      g.effects
      ++ on_game_over g.score (record { lines = g.lines; level = g.level; top_out = top }) ∷ [];
}

-- list.pop(); a bag that was shuffled is not empty
abbrev pub pop_from : Kind → List Kind → Kind × List Kind
pop_from k [] = (k, [])
pop_from k (j ∷ rest) = let (last, front) = pop_from j rest in (last, k ∷ front)

abbrev pub pop_bag : List Kind → Kind × List Kind
pop_bag [] = (bar, [])
pop_bag (k ∷ rest) = pop_from k rest

-- board.collides(piece.cells(dx, dy))
abbrev pub hits : Grid → Piece → ℤ → ℤ → Bool
hits b p dx dy = collides b (cells p dx dy p.rot)

abbrev pub moved : ℤ → ℤ → ℕ → Piece → Piece
moved dx dy r p = record p { x = p.x +ℤ dx; y = p.y +ℤ dy; rot = r }

-- the drop of `_ghost_cells` and `_hard_drop`
unfoldable pub fall : ℕ → Grid → Piece → ℕ → ℕ
fall zero b p d = d
fall (suc n) b p d =
    let rest = fall n b p (suc d) in if hits b p (pos 0) (pos (d + 1)) then d else rest

-- the fuel is the distance to the floor
unfoldable pub distance : Grid → Piece → ℕ
distance b p = fall (pos_part (pos rows -ℤ p.y)) b p 0

unfoldable pub ghost_cells : Game → List Point
ghost_cells g = cells g.piece (pos 0) (pos (distance g.board g.piece)) g.piece.rot

unfoldable pub move : ℤ → Game → Game
move dx g =
    if hits g.board g.piece dx (pos 0)
    then g
    else record g { piece = moved dx (pos 0) g.piece.rot g.piece }

-- `_settle_rotation_lift`, for a debt of `n`
unfoldable pub settle_lift : ℕ → Game → Game
settle_lift zero g = g
settle_lift (suc n) g =
    let rest =
      settle_lift n
        (record g { piece = moved (pos 0) (pos 1) g.piece.rot g.piece; lift_debt = n }) in
    if hits g.board g.piece (pos 0) (pos 1) then g else rest

unfoldable pub first_fit : Grid → Piece → ℕ → List Point → Option Point
first_fit b p r [] = none
first_fit b p r (k ∷ rest) =
    let later = first_fit b p r rest in if collides b (cells p k.0 k.1 r) then later else some k

-- the debt after a kick by `ky`
abbrev pub debt_after : ℤ → ℕ → ℕ
debt_after ky debt = if ltb_ℤ ky (pos 0) then debt + neg_part ky else debt - pos_part ky

abbrev pub settled : Game → Game
settled g = settle_lift g.lift_debt g

abbrev pub kick_to : ℕ → Option Point → Game → Game
kick_to r none g = g
kick_to r (some (kx, ky)) g = settled (record g {
  piece = moved kx ky r g.piece;
  rot_count = g.rot_count + 1;
  lift_debt = debt_after ky g.lift_debt;
})

unfoldable pub rotate : Spin → Game → Game
rotate s g =
    let r = turned s g.piece.rot in
    let target = cells g.piece (pos 0) (pos 0) r in
    if blocked g.board target
    then g
    else if not (collides g.board target)
    then settled (record g { piece = record (g.piece) { rot = r }; rot_count = g.rot_count + 1 })
    else kick_to r (first_fit g.board g.piece r (kicks g.piece.kind s g.piece.rot)) g

unfoldable pub clear_lines : Game → Game
clear_lines g =
    let n = cleared g.board in
    let swept = record g { board = clear_rows g.board } in
    let lines = g.lines + n in
    let level = 1 + lines / 10 in
    if n == 0 then swept else record swept {
      score = g.score + n * n * 100 * g.level;
      lines = lines;
      level = level;
      drop_interval = drop_interval_for level;
    }

-- after a new piece: the game ends where it does not fit
abbrev pub enter : Bool → Game → Game
enter top g = if collides g.board (cells_here g.piece) then end_game top g else g

module _ (shuffle : ℕ → List Kind → List Kind) where
  -- the bag, filled when it is empty
  abbrev pub fill : List Kind → ℕ → List Kind × ℕ
  fill [] n = (shuffle n shape_keys, suc n)
  fill (k ∷ bag) n = (k ∷ bag, n)

  unfoldable pub draw_bag_kind : List Kind → ℕ → Kind × List Kind × ℕ
  draw_bag_kind bag n = let (full, m) = fill bag n in let (k, rest) = pop_bag full in (k, rest, m)

  -- next_kind = _draw_bag_kind()
  unfoldable pub draw_next : Game → Game
  draw_next g =
      let (k, bag, n) = draw_bag_kind g.piece_bag g.shuffles in
      record g { next_kind = k; piece_bag = bag; shuffles = n }

  unfoldable pub spawn : Game → Game
  spawn g =
      enter false
        (record (draw_next (record g {
          generation = g.generation + 1;
          lift_debt = 0;
          piece = new_piece g.next_kind;
        })) { hold_used = false })

  abbrev pub replace : Kind → Game → Game
  replace k g = enter true (record g {
    generation = g.generation + 1;
    piece = new_piece k;
    lift_debt = 0;
    drop_timer = 0;
    hold_used = true;
  })

  abbrev pub swap_held : Option Kind → Game → Game
  swap_held none g = replace g.next_kind (draw_next (record g { held_kind = some (g.piece.kind) }))
  swap_held (some k) g = replace k (record g { held_kind = some (g.piece.kind) })

  unfoldable pub hold_piece : Game → Game
  hold_piece g = if g.hold_used then g else swap_held g.held_kind g

  unfoldable pub lock : Game → Game
  lock g =
      let placed = record g {
        drop_timer = 0;
        board = write_cells g.piece.kind (cells_here g.piece) g.board;
      } in
      if topped_out (cells_here g.piece) then end_game true placed else spawn (clear_lines placed)

  -- one row down, or locked
  unfoldable pub soft_drop : Game → Game
  soft_drop g =
      if not (hits g.board g.piece (pos 0) (pos 1))
      then record g {
        piece = moved (pos 0) (pos 1) g.piece.rot g.piece;
        lift_debt = g.lift_debt - 1;
        score = g.score + 1;
      }
      else lock g

  unfoldable pub hard_drop : Game → Game
  hard_drop g =
      let d = distance g.board g.piece in
      lock (record g {
        piece = moved (pos 0) (pos d) g.piece.rot g.piece;
        lift_debt = 0;
        score = g.score + d;
      })

  unfoldable pub reset : Game
  reset =
      let (k, bag, n) = draw_bag_kind [] 0 in
      spawn (record {
        board = replicate rows empty_row;
        piece = new_piece k;
        piece_bag = bag;
        shuffles = n;
        next_kind = k;
        held_kind = none;
        hold_used = false;
        score = 0;
        lines = 0;
        level = 1;
        drop_timer = 0;
        drop_interval = drop_interval_for 1;
        horizontal_hold = pos 0;
        pressed_keys = [];
        press_order = [];
        horizontal_repeat_timer = pos 0;
        soft_drop_held = false;
        soft_drop_repeat_timer = pos 0;
        phase = playing;
        rot_count = 0;
        lift_debt = 0;
        generation = 0;
        effects = [];
      })
