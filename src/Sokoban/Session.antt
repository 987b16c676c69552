-- ===== src/Sokoban/Session.antt =====
-- Any play of a level: what it keeps, and that its saved session restores it.
use mathlib.Core.List.{reverse, foldl}
use mathlib.Core.Path.{subst}
use classic_games.Prelude.Results.{ok}
use classic_games.Prelude.{
  ℕ, ◌+◌, ◌≤◌, ◌≡◌, refl, sym, ap, ◌∙◌, true, false, inl, inr, ◌⊎◌, Option, none, some, List, [],
  ◌∷◌, length, length-reverse, le→not_ltb, ltb, arith, Option-cases,
}
use classic_games.Points.{Point, point_eq_iff, point_eq_refl, shift, contains, remove, add}
use classic_games.Points.Sets.{
  IsDistinct, Within, contains-remove, contains-add, remove-Within, add-Within, replaced_facts,
}
use classic_games.Sokoban.Play.{
  Direction, vector, max_commands, Scene, Board, walk, restore, undo, encode_history,
  decode_history,
}
use classic_games.Sokoban.Trail.{
  Trail, begin, step, legal, after, walk-legal, codes, length-codes, legal-player, replay-codes,
  letters-codes,
}

pub legal-moves :
    (floors : List Point) (d : Direction) (s t : Scene)
    → legal floors d s ≡ some t
    → t.moves ≡ s.moves + 1
unfolding legal
legal-moves floors d s t h = ground arith

pub data Action : Type 0 where
  go : Direction → Action
  take_back : Action

unfoldable pub act : Action → Board → Board
act (go d) b = walk d b
act take_back b = undo b

unfoldable pub play : List Action → Board → Board
unfolding act
play actions b = foldl (λ s a. act a s) b actions

-- a level as `load_level` puts it up
abbrev pub fresh : List Point → List Point → Point → Board
fresh floors boxes player = record {
  floors = floors;
  scene = record { player = player; boxes = boxes; moves = 0; pushes = 0 };
  history = [];
}

after-Trail :
    (start : Scene) (d : Direction) (b : Board) (o : Option Scene)
    → Trail b.floors start b.history b.scene
    → legal b.floors d b.scene ≡ o
    → Trail b.floors start (after b o).history (after b o).scene
after-Trail start d b none t e = t
after-Trail start d b (some s) t e = step d t e

after-floors : (b : Board) (o : Option Scene) → (after b o).floors ≡ b.floors
after-floors b none = refl
after-floors b (some s) = refl

-- the history leads from `start` to the scene by legal steps on these floors
record Tracks (floors : List Point) (start : Scene) (b : Board) : Type 0 where
  same : b.floors ≡ floors
  trail : Trail b.floors start b.history b.scene

walk-Tracks :
    (floors : List Point) (start : Scene) (d : Direction) (b : Board)
    → Tracks floors start b
    → Tracks floors start (walk d b)
walk-Tracks floors start d b t = rw walk-legal (
    let o = legal b.floors d b.scene in
    let f = after-floors b o in
    record {
      same = f ∙ t.same;
      trail =
          subst (λ fl. Trail fl start (after b o).history (after b o).scene) (sym f)
            (after-Trail start d b o t.trail refl);
    })

restore-Trail :
    (start : Scene) (b : Board) {h : List Scene} {s : Scene}
    → Trail b.floors start h s
    → Trail b.floors start b.history b.scene
    → Trail b.floors start (restore h b).history (restore h b).scene
restore-Trail start b begin t = t
restore-Trail start b (step d before e) t = before

restore-floors : (h : List Scene) (b : Board) → (restore h b).floors ≡ b.floors
restore-floors [] b = refl
restore-floors (s ∷ h) b = refl

undo-Tracks :
    (floors : List Point) (start : Scene) (b : Board)
    → Tracks floors start b
    → Tracks floors start (undo b)
unfolding undo
undo-Tracks floors start b t =
    let f = restore-floors b.history b in
    record {
      same = f ∙ t.same;
      trail =
          subst (λ fl. Trail fl start (undo b).history (undo b).scene) (sym f)
            (restore-Trail start b t.trail t.trail);
    }

play-Tracks :
    (floors : List Point) (start : Scene) (actions : List Action) (b : Board)
    → Tracks floors start b
    → Tracks floors start (play actions b)
unfolding play
play-Tracks floors start [] b t = t
play-Tracks floors start (go d ∷ actions) b t =
    play-Tracks floors start actions (walk d b) (walk-Tracks floors start d b t)
play-Tracks floors start (take_back ∷ actions) b t =
    play-Tracks floors start actions (undo b) (undo-Tracks floors start b t)

module _ (floors boxes : List Point) (player : Point) (actions : List Action) where
  abbrev pub played : Board
  played = play actions (fresh floors boxes player)

  played_trail : Trail floors (fresh floors boxes player).scene played.history played.scene
  played_trail =
      let t =
        play-Tracks floors (fresh floors boxes player).scene actions (fresh floors boxes player)
          (record { same = refl; trail = begin }) in
      subst (λ fl. Trail fl (fresh floors boxes player).scene played.history played.scene) t.same
        t.trail

  -- Any level, played by any moves, refused ones and undone ones included, up to the limit on the
  -- history: the history encodes to a word of commands, and that word decodes, from the start of
  -- the level, to the scene of the game and its whole history.
  pub decode-encode :
      length played.history ≤ max_commands
      → (commands : List ℕ) × (encode_history (reverse played.history) played.scene.player
          ≡ ok commands)
        × (decode_history commands player boxes floors ≡ ok (played.scene, reverse played.history))
  unfolding encode_history decode_history
  decode-encode fits =
      let t = played_trail in
      let short : ltb max_commands (length (reverse played.history)) ≡ false =
        le→not_ltb _ max_commands (omega (arith, length-reverse played.history)) in
      let brief : ltb max_commands (length (codes t)) ≡ false =
        le→not_ltb _ max_commands (omega (arith, length-codes t)) in
      (codes t, rw (short, encode_history) (letters-codes t), rw (brief, replay-codes t))

-- The player stands on floor and not in a box; the boxes are `count` different floor cells.
pub record IsSound (floors : List Point) (count : ℕ) (s : Scene) : Type 0 where
  pub on_floor : contains floors s.player ≡ true
  pub clear : contains s.boxes s.player ≡ false
  pub boxes_on_floor : Within s.boxes floors
  pub distinct : IsDistinct s.boxes
  pub counted : length s.boxes ≡ count

-- what a legal step needs of the cells in front of the player
legal_cases :
    (floors : List Point) (d : Direction) (s t : Scene)
    → legal floors d s ≡ some t
    → (contains floors (shift s.player (vector d)) ≡ true)
      × ((contains s.boxes (shift s.player (vector d)) ≡ false) × (t.boxes ≡ s.boxes)
          ⊎ (contains s.boxes (shift s.player (vector d)) ≡ true)
            × (contains floors (shift (shift s.player (vector d)) (vector d)) ≡ true)
            × (contains s.boxes (shift (shift s.player (vector d)) (vector d)) ≡ false)
            × (t.boxes
                ≡ add
                    (shift (shift s.player (vector d)) (vector d))
                    (remove (shift s.player (vector d)) s.boxes)))
unfolding legal
legal_cases floors d s t h = ground arith

legal-IsSound :
    (floors : List Point) (count : ℕ) (d : Direction) (s t : Scene)
    → IsSound floors count s
    → legal floors d s ≡ some t
    → IsSound floors count t
legal-IsSound floors count d s t h e =
    let next = shift s.player (vector d) in
    let beyond = shift next (vector d) in
    let at = legal-player floors d s t e in
    let (floor, how) = legal_cases floors d s t e in
    elim how [
      | inl (free, same) ↦ record {
        on_floor = rw at floor;
        clear = rw (at, same) free;
        boxes_on_floor = rw same h.boxes_on_floor;
        distinct = rw same h.distinct;
        counted = rw same h.counted;
      }
      | inr (box, room, empty, pushed) ↦
          let (distinct, counted) = replaced_facts next beyond s.boxes h.distinct box empty in
          record {
            on_floor = rw at floor;
            clear =
                rw (at, pushed)
                  (contains-add beyond next (remove next s.boxes)
                    ∙ ground (
                      arith,
                      contains-remove next next s.boxes,
                      point_eq_refl next,
                      point_eq_iff beyond next,
                    ));
            boxes_on_floor = rw pushed (
                add-Within beyond (remove next s.boxes) floors room
                  (remove-Within next s.boxes floors h.boxes_on_floor));
            distinct = rw pushed distinct;
            counted = rw pushed (counted ∙ h.counted);
          }
    ]

Trail-IsSound :
    {floors : List Point} {count : ℕ} {start : Scene} {h : List Scene} {s : Scene}
    → IsSound floors count start
    → Trail floors start h s
    → IsSound floors count s
Trail-IsSound sound begin = sound
Trail-IsSound {floors} {count} sound (step {s} {t = t'} d t e) =
    legal-IsSound floors count d s t' (Trail-IsSound sound t) e

-- From a level whose player stands on floor and in no box, and whose boxes are different floor
-- cells, any moves and undos keep all of that, and the number of boxes.
pub play-IsSound :
    (floors boxes : List Point) (player : Point) (actions : List Action)
    → IsSound floors (length boxes) (fresh floors boxes player).scene
    → IsSound floors (length boxes) (played floors boxes player actions).scene
play-IsSound floors boxes player actions sound =
    Trail-IsSound sound (played_trail floors boxes player actions)

-- the board's part of a move and its undo
pub undo-walk :
    (d : Direction) (b : Board)
    → (walk d b ≡ b) × (legal b.floors d b.scene ≡ none)
      ⊎ (undo (walk d b) ≡ b)
        × (length (walk d b).history ≡ length b.history + 1)
        × ((walk d b).scene.moves ≡ b.scene.moves + 1)
undo-walk d b = elim (Option-cases (legal b.floors d b.scene)) [
  | inl e ↦ inl (walk-legal d b ∙ ap (after b) e, e)
  | inr (s, e) ↦
      let moved = walk-legal d b ∙ ap (after b) e in
      inr (
        rw moved (unfold undo in refl),
        rw moved (omega arith),
        rw moved (legal-moves b.floors d b.scene s e),
      )
]
