-- ===== src/Sokoban/Trail.antt =====
-- The history of a game is a trail of legal steps, whatever was moved and undone; what is encoded
-- decodes to the same game.
use mathlib.Core.Path.{fun_ext}
use mathlib.Core.List.{reverse, reverse-cons}
use classic_games.Prelude.Results.{Result, ok, ◌>>=◌, >>=-assoc}
use classic_games.Prelude.{
  ℕ, ◌+◌, ◌≡◌, refl, sym, ap, ◌∙◌, not, Option, none, some, List, [], ◌∷◌, ◌++◌, length,
  length-append, if◌then◌else◌, arith,
}
use classic_games.Points.{Point, point_eq, shift, offset, offset-shift, contains, remove, add}
use classic_games.Sokoban.Play.{
  Fault, Direction, up, down, left, right, vector, letter, direction_of, Scene, Board, walk,
  letter_of, letters, points_of, letters_along, Replay, replay_step, replay,
}

-- The rule of one step: the next cell is floor; a box there goes to a free floor cell beyond it.
unfoldable pub legal : List Point → Direction → Scene → Option Scene
legal floors d s =
    let next = shift s.player (vector d) in
    let beyond = shift next (vector d) in
    if not (contains floors next)
    then none
    else if not (contains s.boxes next)
    then some (record { player = next; boxes = s.boxes; moves = s.moves + 1; pushes = s.pushes })
    else if contains floors beyond
    then (if contains s.boxes beyond
        then none
        else some (record {
          player = next;
          boxes = add beyond (remove next s.boxes);
          moves = s.moves + 1;
          pushes = s.pushes + 1;
        }))
    else none

-- a refused step changes nothing; another adds the old scene to the history
abbrev pub after : Board → Option Scene → Board
after b none = b
after b (some s) = record b { scene = s; history = b.scene ∷ b.history }

pub walk-legal : (d : Direction) (b : Board) → walk d b ≡ after b (legal b.floors d b.scene)
unfolding walk legal
walk-legal d b = ground arith

direction_of-letter : (d : Direction) → direction_of (letter d) ≡ some d
unfolding direction_of letter
direction_of-letter up = refl
direction_of-letter down = refl
direction_of-letter left = refl
direction_of-letter right = refl

letter_of-vector : (d : Direction) → letter_of (vector d) ≡ ok (letter d)
unfolding letter_of letter vector point_eq
letter_of-vector up = refl
letter_of-vector down = refl
letter_of-vector left = refl
letter_of-vector right = refl

pub legal-player :
    (floors : List Point) (d : Direction) (s t : Scene)
    → legal floors d s ≡ some t
    → t.player ≡ shift s.player (vector d)
unfolding legal
legal-player floors d s t h = ground arith

replay_step-legal :
    (floors : List Point) (d : Direction) (s t : Scene) (steps : List Scene)
    → legal floors d s ≡ some t
    → replay_step floors (letter d) (s, steps) ≡ ok (t, s ∷ steps)
unfolding replay_step legal
replay_step-legal floors d s t steps h = rw (direction_of-letter d, replay_step) (ground arith)

-- A history, newest first, whose steps are legal and lead from `start` to the scene.
pub data Trail (floors : List Point) (start : Scene) : List Scene → Scene → Type 0 where
  begin : Trail floors start [] start
  step :
      {h : List Scene} {s t : Scene} (d : Direction)
      → Trail floors start h s
      → legal floors d s ≡ some t
      → Trail floors start (s ∷ h) t

module _ {floors : List Point} {start : Scene} where
  pub codes : {h : List Scene} {s : Scene} → Trail floors start h s → List ℕ
  codes begin = []
  codes (step d t e) = codes t ++ letter d ∷ []

  pub length-codes :
      {h : List Scene} {s : Scene} (t : Trail floors start h s) → length (codes t) ≡ length h
  unfolding codes
  length-codes begin = refl
  length-codes (step d t e) = length-append (codes t) _ ∙ omega (arith, length-codes t)

replay-append :
    (floors : List Point) (cs ds : List ℕ) (r : Replay)
    → replay floors (cs ++ ds) r ≡ (replay floors cs r >>= replay floors ds)
unfolding replay
replay-append floors [] ds r = refl
replay-append floors (c ∷ cs) ds r =
    ap (λ k. replay_step floors c r >>= k) (fun_ext (replay-append floors cs ds))
    ∙ sym (>>=-assoc (replay_step floors c r) (replay floors cs) (replay floors ds))

module _ {floors : List Point} {start : Scene} where
  pub replay-codes :
      {h : List Scene} {s : Scene} (t : Trail floors start h s)
      → replay floors (codes t) (start, []) ≡ ok (s, h)
  unfolding codes replay
  replay-codes begin = refl
  replay-codes (step {h} {s} {t = t'} d t e) =
      replay-append floors (codes t) (letter d ∷ []) (start, [])
      ∙ rw (replay-codes t, replay_step-legal floors d s t' h e)

-- one more letter
abbrev snoc_letter : Point → Point → List ℕ → Result Fault (List ℕ)
snoc_letter p q cs = letter_of (offset p q) >>= λ c. ok (cs ++ c ∷ [])

letters-snoc :
    (p : Point) (steps : List Scene) (last q : Point)
    → letters p (points_of steps last ++ q ∷ [])
      ≡ (letters p (points_of steps last) >>= snoc_letter last q)
unfolding letters points_of
letters-snoc p [] last q = ground arith
letters-snoc p (s ∷ steps) last q = ground (arith, letters-snoc s.player steps last q)

points_of-snoc :
    (steps : List Scene) (s : Scene) (q : Point)
    → points_of (steps ++ s ∷ []) q ≡ points_of steps s.player ++ q ∷ []
unfolding points_of
points_of-snoc [] s q = refl
points_of-snoc (r ∷ steps) s q = ap (◌∷◌ r.player) (points_of-snoc steps s q)

letters_along-snoc :
    (steps : List Scene) (last q : Point)
    → letters_along (points_of steps last ++ q ∷ [])
      ≡ (letters_along (points_of steps last) >>= snoc_letter last q)
unfolding letters_along points_of letters
letters_along-snoc [] last q = ground arith
letters_along-snoc (s ∷ steps) last q = letters-snoc s.player steps last q

module _ {floors : List Point} {start : Scene} where
  pub letters-codes :
      {h : List Scene} {s : Scene} (t : Trail floors start h s)
      → letters_along (points_of (reverse h) s.player) ≡ ok (codes t)
  unfolding codes letters_along points_of letters
  letters-codes begin = refl
  letters-codes (step {h} {s} {t = t'} d t e) =
      let moved : offset s.player t'.player ≡ vector d =
        ap (offset s.player) (legal-player floors d s t' e) ∙ offset-shift s.player (vector d) in
      ap (λ l. letters_along (points_of l t'.player)) (reverse-cons s h)
      ∙ ap letters_along (points_of-snoc (reverse h) s t'.player)
      ∙ letters_along-snoc (reverse h) s.player t'.player
      ∙ rw (letters-codes t, moved, letter_of-vector d)
