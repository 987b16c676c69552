-- ===== src/Sokoban/Level/Parsed.antt =====
-- What a level that parses is like.
use mathlib.Core.Path.{subst}
use classic_games.Prelude.Results.{Result, ok, err, ok_inj, >>=-ok}
use classic_games.Prelude.{
  ℕ, suc, ◌≤◌, ◌<◌, ◌≡◌, refl, ◌∙◌, Bool, true, false, ◌&&◌, ◌⊎◌, inl, inr, Option, none, some,
  List, [], ◌∷◌, length, if◌then◌else◌, arith, Bool-cases,
}
use classic_games.Prelude.Int.{pos}
use classic_games.Points.{Point, point_eq_iff, point_eq_refl, contains, add}
use classic_games.Points.Sets.{IsDistinct, Within, contains-add, add-IsDistinct}
use classic_games.Sokoban.Level.{
  Symbol, wall, floor, goal, box, box_on_goal, man, man_on_goal, space, unknown_symbol, ragged_rows,
  Fault, symbol_of, Cells, put, parse_cell, parse_row, parse_rows, same_width, Level, no_cells,
  checked, parse_level,
}

-- The text before row `y`, column `x` has been read.
record Read (y x : ℕ) (a : Cells) : Type 0 where
  unread : (i j : ℕ) → (y < j) ⊎ (y ≡ j) × (x ≤ i) → contains a.floors (pos i, pos j) ≡ false
  boxes_on_floor : Within a.boxes a.floors
  targets_on_floor : Within a.targets a.floors
  players_on_floor : Within a.players a.floors
  apart : (q : Point) → contains a.boxes q ≡ true → contains a.players q ≡ false
  boxes_distinct : IsDistinct a.boxes
  targets_distinct : IsDistinct a.targets

abbrev add_if : Bool → Point → List Point → List Point
add_if b p s = if b then add p s else s

abbrev cons_if : Bool → Point → List Point → List Point
cons_if b p s = if b then p ∷ s else s

-- a floor cell, with what stands on it
abbrev extend : Bool → Bool → Bool → Point → Cells → Cells
extend t b m p a = record a {
  targets = add_if t p a.targets;
  boxes = add_if b p a.boxes;
  players = cons_if m p a.players;
  floors = add p a.floors;
}

add_if-Within :
    (b : Bool) (p : Point) (s t : List Point) → Within s t → Within (add_if b p s) (add p t)
add_if-Within b p s t h q e = ground (arith, contains-add p q s, contains-add p q t, h q)

cons_if-Within :
    (b : Bool) (p : Point) (s t : List Point) → Within s t → Within (cons_if b p s) (add p t)
unfolding contains
cons_if-Within b p s t h q e = ground (arith, contains-add p q t, h q)

add_if-IsDistinct :
    (b : Bool) (p : Point) (s : List Point) → IsDistinct s → IsDistinct (add_if b p s)
add_if-IsDistinct true p s h = add-IsDistinct p s h
add_if-IsDistinct false p s h = h

outside : (s t : List Point) (p : Point) → Within s t → contains t p ≡ false → contains s p ≡ false
outside s t p h e = ground (arith, h p)

extend-Read :
    (y x : ℕ) (t b m : Bool) (a : Cells)
    → (b && m) ≡ false
    → Read y x a
    → Read y (suc x) (extend t b m (pos x, pos y) a)
unfolding contains
extend-Read y x t b m a one r =
    let p : Point = (pos x, pos y) in
    let new : contains a.floors p ≡ false = r.unread x y (inr (refl, omega arith)) in
    record {
      unread = λ i j after.
          contains-add p (pos i, pos j) a.floors
          ∙ ground (arith, point_eq_iff p (pos i, pos j), r.unread i j);
      boxes_on_floor = add_if-Within b p a.boxes a.floors r.boxes_on_floor;
      targets_on_floor = add_if-Within t p a.targets a.floors r.targets_on_floor;
      players_on_floor = cons_if-Within m p a.players a.floors r.players_on_floor;
      apart = λ q e. ground (
        arith,
        contains-add p q a.boxes,
        point_eq_iff p q,
        r.apart q,
        outside a.boxes a.floors p r.boxes_on_floor new,
        outside a.players a.floors p r.players_on_floor new,
      );
      boxes_distinct = add_if-IsDistinct b p a.boxes r.boxes_distinct;
      targets_distinct = add_if-IsDistinct t p a.targets r.targets_distinct;
    }

pass-Read : (y x : ℕ) (a : Cells) → Read y x a → Read y (suc x) a
pass-Read y x a r = record {
  unread = λ i j after. r.unread i j (omega arith);
  boxes_on_floor = r.boxes_on_floor;
  targets_on_floor = r.targets_on_floor;
  players_on_floor = r.players_on_floor;
  apart = r.apart;
  boxes_distinct = r.boxes_distinct;
  targets_distinct = r.targets_distinct;
}

walled-Read :
    (y x : ℕ) (w : List Point) (a : Cells) → Read y x a → Read y x (record a { walls = w })
walled-Read y x w a r = record {
  unread = r.unread;
  boxes_on_floor = r.boxes_on_floor;
  targets_on_floor = r.targets_on_floor;
  players_on_floor = r.players_on_floor;
  apart = r.apart;
  boxes_distinct = r.boxes_distinct;
  targets_distinct = r.targets_distinct;
}

put-Read : (s : Symbol) (y x : ℕ) (a : Cells) → Read y x a → Read y (suc x) (put s (pos x, pos y) a)
unfolding put
put-Read wall y x a r = walled-Read y (suc x) (add (pos x, pos y) a.walls) a (pass-Read y x a r)
put-Read floor y x a r = extend-Read y x false false false a refl r
put-Read goal y x a r = extend-Read y x true false false a refl r
put-Read box y x a r = extend-Read y x false true false a refl r
put-Read box_on_goal y x a r = extend-Read y x true true false a refl r
put-Read man y x a r = extend-Read y x false false true a refl r
put-Read man_on_goal y x a r = extend-Read y x true false true a refl r
put-Read space y x a r = pass-Read y x a r

row_end-Read : (y x : ℕ) (a : Cells) → Read y x a → Read (suc y) 0 a
row_end-Read y x a r = record {
  unread = λ i j after. r.unread i j (inl (omega arith));
  boxes_on_floor = r.boxes_on_floor;
  targets_on_floor = r.targets_on_floor;
  players_on_floor = r.players_on_floor;
  apart = r.apart;
  boxes_distinct = r.boxes_distinct;
  targets_distinct = r.targets_distinct;
}

parse_cell-Read :
    (c y x : ℕ) (a b : Cells) → Read y x a → parse_cell c (pos x, pos y) a ≡ ok b → Read y (suc x) b
unfolding parse_cell
parse_cell-Read c y x a b r e = known (symbol_of c) e
  where
    known :
        (o : Option Symbol)
        → (elim o as (λ _. Result Fault Cells) [
          | none ↦ err unknown_symbol
          | some s ↦ ok (put s (pos x, pos y) a)
        ])
          ≡ ok b
        → Read y (suc x) b
    known none q = cc
    known (some s) q = subst (Read y (suc x)) (ok_inj q) (put-Read s y x a r)

-- a row ends at some column
parse_row-Read :
    (y x : ℕ) (row : List ℕ) (a b : Cells)
    → Read y x a
    → parse_row y x row a ≡ ok b
    → Read (suc y) 0 b
unfolding parse_row
parse_row-Read y x [] a b r e = subst (Read (suc y) 0) (ok_inj e) (row_end-Read y x a r)
parse_row-Read y x (c ∷ row) a b r e =
    let (a', p, q) = >>=-ok (parse_cell c (pos x, pos y) a) (parse_row y (suc x) row) e in
    parse_row-Read y (suc x) row a' b (parse_cell-Read c y x a a' r p) q

parse_rows-Read :
    (y : ℕ) (rows : List (List ℕ)) (a b : Cells)
    → Read y 0 a
    → parse_rows y rows a ≡ ok b
    → (n : ℕ) × Read n 0 b
unfolding parse_rows
parse_rows-Read y [] a b r e = (y, subst (Read y 0) (ok_inj e) r)
parse_rows-Read y (row ∷ rows) a b r e =
    let (a', p, q) = >>=-ok (parse_row y 0 row a) (parse_rows (suc y) rows) e in
    parse_rows-Read (suc y) rows a' b (parse_row-Read y 0 row a a' r p) q

no_cells-Read : Read 0 0 no_cells
unfolding contains
no_cells-Read = record {
  unread = λ i j after. refl;
  boxes_on_floor = λ q e. cc;
  targets_on_floor = λ q e. cc;
  players_on_floor = λ q e. cc;
  apart = λ q e. refl;
  boxes_distinct = tt;
  targets_distinct = tt;
}

-- The player stands on floor and in no box; boxes and targets are floor cells, no two the same, as
-- many of one as of the other, and at least one.
pub record IsPlayable (l : Level) : Type 0 where
  pub player_on_floor : contains l.floors l.player ≡ true
  pub player_free : contains l.boxes l.player ≡ false
  pub boxes_on_floor : Within l.boxes l.floors
  pub targets_on_floor : Within l.targets l.floors
  pub boxes_distinct : IsDistinct l.boxes
  pub targets_distinct : IsDistinct l.targets
  pub matched : length l.boxes ≡ length l.targets
  pub some_box : 0 < length l.boxes

abbrev level_of : Cells → Point → Level
level_of a p = record {
  walls = a.walls;
  targets = a.targets;
  boxes = a.boxes;
  player = p;
  floors = a.floors;
}

checked_parts :
    (a : Cells) (p : Point) (l : Level)
    → checked a (p ∷ []) ≡ ok l
    → (level_of a p ≡ l) × (length a.boxes ≡ length a.targets) × (0 < length a.boxes)
unfolding checked
checked_parts a p l e = ground arith

level_of-IsPlayable :
    (n : ℕ) (a : Cells) (p : Point)
    → Read n 0 a
    → contains a.players p ≡ true
    → length a.boxes ≡ length a.targets
    → 0 < length a.boxes
    → IsPlayable (level_of a p)
level_of-IsPlayable n a p r here matched some_box = record {
  player_on_floor = r.players_on_floor p here;
  player_free = ground (arith, r.apart p);
  boxes_on_floor = r.boxes_on_floor;
  targets_on_floor = r.targets_on_floor;
  boxes_distinct = r.boxes_distinct;
  targets_distinct = r.targets_distinct;
  matched = matched;
  some_box = some_box;
}

checked-IsPlayable :
    (n : ℕ) (a : Cells) (players : List Point) (l : Level)
    → Read n 0 a
    → a.players ≡ players
    → checked a players ≡ ok l
    → IsPlayable l
checked-IsPlayable n a (p ∷ []) l r same e =
    let (level, matched, some_box) = checked_parts a p l e in
    let here : contains a.players p ≡ true = rw same (unfold contains in rw (point_eq_refl p)) in
    subst IsPlayable level (level_of-IsPlayable n a p r here matched some_box)
checked-IsPlayable n a [] l r same e = absurd (not_ok e)
  where
    not_ok : checked a [] ≡ ok l → ⊥
    not_ok q = unfold checked in cc
checked-IsPlayable n a (p ∷ q ∷ rest) l r same e = absurd (not_ok e)
  where
    not_ok : checked a (p ∷ q ∷ rest) ≡ ok l → ⊥
    not_ok q = unfold checked in cc

-- Every text that `parse_level` accepts gives a playable level.
pub parse_level-IsPlayable :
    (text : List (List ℕ)) (l : Level) → parse_level text ≡ ok l → IsPlayable l
unfolding parse_level
parse_level-IsPlayable [] l e = cc
parse_level-IsPlayable ([] ∷ rows) l e = cc
parse_level-IsPlayable ((c ∷ row) ∷ rows) l e =
    elim (Bool-cases (same_width (suc (length row)) ((c ∷ row) ∷ rows))) [
      | inl wide ↦
          let (a, p, q) =
            >>=-ok (parse_rows 0 ((c ∷ row) ∷ rows) no_cells) (λ x. checked x x.players)
              (rw wide at e) in
          let (n, r) = parse_rows-Read 0 ((c ∷ row) ∷ rows) no_cells a no_cells-Read p in
          checked-IsPlayable n a a.players l r refl q
      | inr ragged ↦ absurd (ragged_err (rw ragged at e))
    ]
  where
    ragged_err : ◌≡◌ {A = Result Fault Level} (err ragged_rows) (ok l) → ⊥
    ragged_err q = cc
