-- ===== src/Sokoban/Clear.antt =====
-- client/games/sokoban.py: a move, the key that takes it back, and the clear of a level.
use mathlib.Core.Path.{subst}
use classic_games.Prelude.{
  ◌+◌, ◌≡◌, refl, sym, ap, ◌∙◌, ◌⊎◌, inl, inr, Bool, true, false, ◌||◌, not, Option, none, some,
  List, [], ◌∷◌, Bool-cases, Option-cases, if_intro, arith,
}
use classic_games.Sokoban.Play.{Direction, Scene, Board, walk, undo}
use classic_games.Sokoban.Trail.{legal, after, walk-legal}
use classic_games.Sokoban.Session.{legal-moves}
use classic_games.Sokoban.Win.{
  won, Result, Effect, Game, is_playing, same_cells, show_result, win_practice, win_campaign,
  check_win, record_practice, record_campaign, refresh_checkpoint, can_walk, try_move, take_back,
  direction_key, undo_key,
}

abbrev is_step : Option Scene → Bool
is_step none = false
is_step (some s) = true

can_walk-legal : (d : Direction) (b : Board) → can_walk d b ≡ is_step (legal b.floors d b.scene)
unfolding can_walk legal
can_walk-legal d b = ground arith

-- two games that differ at most in what they have told the backend
abbrev pub IsSame : Game → Game → Type 0
IsSame g h = ◌≡◌ {A = Game} (record g { effects = [] }) (record h { effects = [] })

refreshed : (g : Game) → (e : List Effect) × (refresh_checkpoint g ≡ record g { effects = e })
unfolding refresh_checkpoint
refreshed g =
    if_intro {A = Game} (λ h. (e : List Effect) × (h ≡ record g { effects = e }))
      (not g.session_active || g.practice_mode) _ _ (λ _. (g.effects, refl)) (λ _. (_, refl))

-- a level that is cleared
abbrev IsCleared : Game → Game → Type 0
IsCleared g h = (h.phase ≡ won) × (h.board ≡ g.board)

show_result-IsCleared : (all : Bool) (r : Result) (g : Game) → IsCleared g (show_result all r g)
unfolding show_result
show_result-IsCleared all r g =
    if_intro {A = Game} (IsCleared g) _ _ _ (λ _. (refl, refl)) (λ _. (refl, refl))

check_win-IsCleared :
    (g : Game) → same_cells g.board.scene.boxes g.targets ≡ true → IsCleared g (check_win g)
unfolding check_win win_practice win_campaign record_practice record_campaign
check_win-IsCleared g e = rw e (
    if_intro {A = Game} (IsCleared g) g.practice_mode (win_practice g) (win_campaign g)
      (λ _. show_result-IsCleared _ _ _) (λ _. show_result-IsCleared _ _ _))

check_win_lost : (g : Game) → same_cells g.board.scene.boxes g.targets ≡ false → check_win g ≡ g
unfolding check_win
check_win_lost g e = rw e refl

refreshed-IsSame : (g : Game) → IsSame (refresh_checkpoint g) g
refreshed-IsSame g = let (e, r) = refreshed g in ap (λ (h : Game). record h { effects = [] }) r

-- the key U on a board with one step of history
undone :
    (y : Game) (b : Board) (s : Scene)
    → is_playing y.phase ≡ true
    → IsSame
        (undo_key (record y { board = record b { scene = s; history = b.scene ∷ b.history } }))
        (record y { board = b })
unfolding undo_key take_back undo
undone y b s p = rw p (refreshed-IsSame (record y { board = b }))

module _ (d : Direction) (g : Game) where
  -- the game after the step, before the test for a win
  abbrev stepped : Game
  stepped = record g { board = walk d g.board }

  refused_key : legal g.board.floors d g.board.scene ≡ none → direction_key d g ≡ g
  unfolding direction_key try_move
  refused_key e =
      rw (can_walk-legal d g.board, e)
        (if_intro {A = Game} (λ h. h ≡ g) (is_playing g.phase) _ _ (λ _. refl) (λ _. refl))

  moved_key :
      (s : Scene)
      → is_playing g.phase ≡ true
      → legal g.board.floors d g.board.scene ≡ some s
      → direction_key d g ≡ refresh_checkpoint (check_win stepped)
  unfolding direction_key try_move
  moved_key s p e = rw (p, can_walk-legal d g.board, e) refl

  -- a move that clears nothing is taken back
  taken_back :
      (s : Scene)
      → is_playing g.phase ≡ true
      → legal g.board.floors d g.board.scene ≡ some s
      → same_cells (walk d g.board).scene.boxes g.targets ≡ false
      → IsSame (undo_key (direction_key d g)) g
  taken_back s p e lost =
      let (f, r) = refreshed stepped in
      let y : Game = record g { effects = f } in
      let moved : direction_key d g ≡ record stepped { effects = f } =
        moved_key s p e ∙ (ap refresh_checkpoint (check_win_lost stepped lost) ∙ r) in
      let onto : direction_key d g ≡ record y {
        board = record g.board { scene = s; history = g.board.scene ∷ g.board.history };
      } =
        moved ∙ ap (λ b. record y { board = b }) (walk-legal d g.board ∙ ap (after g.board) e) in
      subst (λ x. IsSame (undo_key x) g) (sym onto) (undone y g.board s p)

  one_more :
      (s : Scene)
      → legal g.board.floors d g.board.scene ≡ some s
      → (walk d g.board).scene.moves ≡ g.board.scene.moves + 1
  one_more s e = rw (walk-legal d g.board, e) (legal-moves g.board.floors d g.board.scene s e)

  kept_board :
      (s : Scene)
      → is_playing g.phase ≡ true
      → legal g.board.floors d g.board.scene ≡ some s
      → same_cells (walk d g.board).scene.boxes g.targets ≡ false
      → (direction_key d g).board ≡ walk d g.board
  kept_board s p e lost =
      let (f, r) = refreshed stepped in
      ap (λ (h : Game). h.board)
        (moved_key s p e ∙ (ap refresh_checkpoint (check_win_lost stepped lost) ∙ r))

  cleared :
      (s : Scene)
      → is_playing g.phase ≡ true
      → legal g.board.floors d g.board.scene ≡ some s
      → same_cells (walk d g.board).scene.boxes g.targets ≡ true
      → ((direction_key d g).board ≡ walk d g.board)
        × ((direction_key d g).phase ≡ won)
        × (undo_key (direction_key d g) ≡ direction_key d g)
  unfolding undo_key
  cleared s p e won_now =
      let (f, r) = refreshed (check_win stepped) in
      let (w, b) = check_win-IsCleared stepped won_now in
      let key = moved_key s p e ∙ r in
      let phase : (direction_key d g).phase ≡ won = ap (λ (h : Game). h.phase) key ∙ w in
      (ap (λ (h : Game). h.board) key ∙ b, phase, rw phase refl)

  -- A direction key in a game in play does one of three things. The rule of a step refuses it, and the
  -- game stays as it is. Or the player moves, which adds one to the moves, and not all boxes stand on
  -- the targets: then the key U takes the move back whole, and the game is as before it but for what it
  -- has told the backend. Or the move clears the level: the game is won, and the key U does nothing.
  pub undo_key-direction_key :
      is_playing g.phase ≡ true
      → ((legal g.board.floors d g.board.scene ≡ none) × (direction_key d g ≡ g))
        ⊎ ((same_cells (walk d g.board).scene.boxes g.targets ≡ false)
            × ((walk d g.board).scene.moves ≡ g.board.scene.moves + 1)
            × ((direction_key d g).board ≡ walk d g.board)
            × IsSame (undo_key (direction_key d g)) g)
        ⊎ ((same_cells (walk d g.board).scene.boxes g.targets ≡ true)
            × ((walk d g.board).scene.moves ≡ g.board.scene.moves + 1)
            × ((direction_key d g).board ≡ walk d g.board)
            × ((direction_key d g).phase ≡ won)
            × (undo_key (direction_key d g) ≡ direction_key d g))
  undo_key-direction_key p = elim (Option-cases (legal g.board.floors d g.board.scene)) [
    | inl e ↦ inl (e, refused_key e)
    | inr (s, e) ↦ elim (Bool-cases (same_cells (walk d g.board).scene.boxes g.targets)) [
      | inl won_now ↦
          let (b, w, u) = cleared s p e won_now in inr (inr (won_now, one_more s e, b, w, u))
      | inr lost ↦ inr (inl (lost, one_more s e, kept_board s p e lost, taken_back s p e lost))
    ]
  ]
