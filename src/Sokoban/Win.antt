-- ===== src/Sokoban/Win.antt =====
-- client/games/sokoban.py: `_try_move`, `_undo` and `_check_win` on the whole game, with the keys that
-- call them. A set of levels is a list in order; a set of cells is a list of cells. What goes to the
-- backend is a list of effects: a progress value to merge, a score to submit, and the session of the
-- campaign to save, active or not. The backend can merge progress. The futures and messages of
-- these writes, and what a finished write of the session changes, are not modelled.
use classic_games.Prelude.{
  ℕ, ◌+◌, ◌-◌, max, min, Bool, true, false, ◌&&◌, ◌||◌, not, Option, none, some, List, [], ◌∷◌,
  ◌++◌, length, ltb, ◌==◌, if◌then◌else◌,
}
use classic_games.Points.{Point, shift, contains}
use classic_games.Progress.Policy.{
  Metric, assign, lookup, insert, sorted_union, Progress, no_progress,
}
use classic_games.Sokoban.Play.{Direction, vector, Board, walk, undo}

pub data Phase : Type 0 where
  playing paused won : Phase

-- the dictionary `result`
pub record Result : Type 0 where
  pub level_index : ℕ
  pub level_score : ℕ
  pub counted_level_score : ℕ
  pub practice_score : Option ℕ
  pub total_score : ℕ
  pub moves : ℕ
  pub pushes : ℕ
  pub completed_levels : ℕ
  pub practice : Bool
  pub completed_all : Bool

pub data Effect : Type 0 where
  write_campaign write_practice : Progress → Effect
  submit_score : ℕ → Result → Effect
  save_session : Bool → Effect

pub record Game : Type 0 where
  pub board : Board
  pub targets : List Point
  pub phase : Phase
  pub practice_mode : Bool
  pub level_idx : ℕ
  pub score : ℕ
  pub total_score : ℕ
  pub unlocked_level : ℕ
  pub level_scores : Metric
  pub completed_levels : List ℕ
  pub saved_completed_levels : List ℕ
  pub practice_level_scores : Metric
  pub practice_best_moves : Metric
  pub practice_best_pushes : Metric
  pub practice_completed_levels : List ℕ
  pub confirmed_total : Option ℕ
  pub pending_total : Option ℕ
  pub session_active : Bool
  pub extra : Option Result
  pub effects : List Effect

-- len(LEVELS)
abbrev pub level_count : ℕ
level_count = 16

abbrev pub is_playing : Phase → Bool
is_playing playing = true
is_playing _ = false

abbrev pub emit : Effect → Game → Game
emit e g = record g { effects = g.effects ++ e ∷ [] }

unfoldable pub all_in : List Point → List Point → Bool
all_in [] ys = true
all_in (x ∷ xs) ys = contains ys x && all_in xs ys

-- self.boxes == self.targets
abbrev pub same_cells : List Point → List Point → Bool
same_cells xs ys = all_in xs ys && all_in ys xs

unfoldable pub sum_values : Metric → ℕ
sum_values [] = 0
sum_values ((k, n) ∷ entries) = n + sum_values entries

unfoldable pub max_of : List ℕ → ℕ
max_of [] = 0
max_of (n ∷ ns) = max n (max_of ns)

abbrev pub get_or : ℕ → Option ℕ → ℕ
get_or d none = d
get_or d (some n) = n

-- self.total_score > self._confirmed_total, and != self._pending_total
abbrev pub is_improved : ℕ → Option ℕ → Bool
is_improved total none = true
is_improved total (some n) = ltb n total

abbrev pub is_pending : ℕ → Option ℕ → Bool
is_pending total none = false
is_pending total (some n) = total == n

abbrev pub level_score : Game → ℕ
level_score g = 1000 - g.board.scene.moves

-- the practice ledger after a clear
unfoldable pub record_practice : Game → Game
record_practice g =
    let i = g.level_idx in
    let moves = g.board.scene.moves in
    let pushes = g.board.scene.pushes in
    record g {
      practice_level_scores =
          assign i (max (get_or 0 (lookup i g.practice_level_scores)) (level_score g))
            g.practice_level_scores;
      practice_completed_levels = insert i g.practice_completed_levels;
      practice_best_moves =
          assign i (min (get_or moves (lookup i g.practice_best_moves)) moves)
            g.practice_best_moves;
      practice_best_pushes =
          assign i (min (get_or pushes (lookup i g.practice_best_pushes)) pushes)
            g.practice_best_pushes;
    }

unfoldable pub practice_value : Game → Progress
practice_value g = record no_progress {
  completed_levels = some g.practice_completed_levels;
  level_scores = some g.practice_level_scores;
  best_moves = some g.practice_best_moves;
  best_pushes = some g.practice_best_pushes;
}

-- the campaign's ledger after a clear
unfoldable pub record_campaign : Game → Game
record_campaign g =
    let i = g.level_idx in
    let scores =
      assign i (max (get_or 0 (lookup i g.level_scores)) (level_score g)) g.level_scores in
    let completed = insert i g.completed_levels in
    record g {
      level_scores = scores;
      completed_levels = completed;
      total_score = sum_values scores;
      unlocked_level = max g.unlocked_level (min level_count (max_of completed + 2));
      saved_completed_levels = sorted_union completed g.saved_completed_levels;
    }

unfoldable pub campaign_value : Game → Progress
campaign_value g = record no_progress {
  unlocked_level = some (min level_count (max_of g.completed_levels + 2));
  completed_levels = some g.completed_levels;
  level_scores = some g.level_scores;
}

unfoldable pub result_of : Bool → ℕ → ℕ → Game → Result
result_of all counted completed g = record {
  level_index = g.level_idx;
  level_score = level_score g;
  counted_level_score = counted;
  practice_score = if g.practice_mode then some counted else none;
  total_score = g.total_score;
  moves = g.board.scene.moves;
  pushes = g.board.scene.pushes;
  completed_levels = completed;
  practice = g.practice_mode;
  completed_all = all;
}

-- the score is submitted for a whole campaign that improves on what is confirmed or pending
unfoldable pub show_result : Bool → Result → Game → Game
show_result all r g =
    let shown = record g { phase = won; extra = some r } in
    if all
      && is_improved g.total_score g.confirmed_total
      && not (is_pending g.total_score g.pending_total)
    then emit (submit_score g.total_score r)
        (record shown { pending_total = some g.total_score; score = g.total_score })
    else shown

unfoldable pub win_practice : Game → Game
win_practice g =
    let h = record_practice g in
    let counted = get_or 0 (lookup g.level_idx h.practice_level_scores) in
    let k = record h { score = counted } in
    show_result false (result_of false counted (length h.practice_completed_levels) k)
      (emit (write_practice (practice_value h)) k)

unfoldable pub win_campaign : Game → Game
win_campaign g =
    let h = record_campaign g in
    let counted = get_or 0 (lookup g.level_idx h.level_scores) in
    let all = length h.completed_levels == level_count in
    let k = record h { score = h.total_score } in
    show_result all (result_of all counted (length h.completed_levels) k)
      (emit (write_campaign (campaign_value h)) k)

unfoldable pub check_win : Game → Game
check_win g =
    if same_cells g.board.scene.boxes g.targets
    then if g.practice_mode then win_practice g else win_campaign g
    else g

-- `_refresh_resumed_checkpoint`
unfoldable pub refresh_checkpoint : Game → Game
refresh_checkpoint g =
    if not g.session_active || g.practice_mode
    then g
    else emit (save_session (is_playing g.phase)) g

-- the guards of `_try_move`
unfoldable pub can_walk : Direction → Board → Bool
can_walk d b =
    let next = shift b.scene.player (vector d) in
    let beyond = shift next (vector d) in
    contains b.floors next
    && (not (contains b.scene.boxes next)
        || contains b.floors beyond && not (contains b.scene.boxes beyond))

unfoldable pub try_move : Direction → Game → Game
try_move d g =
    if can_walk d g.board
    then refresh_checkpoint (check_win (record g { board = walk d g.board }))
    else g

unfoldable pub take_back : Game → Game
take_back g = elim g.board.history [
  | [] ↦ g
  | s ∷ rest ↦ refresh_checkpoint (record g { board = undo g.board })
]

-- the keys of the directions, and U
unfoldable pub direction_key : Direction → Game → Game
direction_key d g = if is_playing g.phase then try_move d g else g

unfoldable pub undo_key : Game → Game
undo_key g = if is_playing g.phase then take_back g else g
