-- ===== src/Game2048/Line/Rule.antt =====
-- The merging rule of 2048, and that `_process_line` follows it.
use mathlib.Core.List.{reverse, reverse_aux, foldl}
use classic_games.Prelude.{
  ◌≤◌, ◌≡◌, refl, inl, inr, Option, none, some, List, [], ◌∷◌, ◌++◌, ◌==◌, length, if◌then◌else◌,
  Bool-cases, arith,
}
use classic_games.Game2048.Board.{Tile}
use classic_games.Game2048.Line.{LineSlot, single, merged, push_tile, process_line}

-- From the destination edge on: two neighbours of one value become one slot, which takes no third
-- tile; any other tile has a slot of its own.
unfoldable pub merge_rule : List Tile → List LineSlot
merge_rule [] = []
merge_rule (a ∷ []) = single a ∷ []
merge_rule (a ∷ b ∷ rest) =
    let joined = merged a b ∷ merge_rule rest in
    let apart = single a ∷ merge_rule (b ∷ rest) in if a.value == b.value then joined else apart

mutual
  unfolding push_tile merge_rule

  fold_open :
      (ts : List Tile) (a : Tile) (rest : List LineSlot)
      → reverse (foldl push_tile (single a ∷ rest) ts) ≡ reverse_aux rest (merge_rule (a ∷ ts))
  fold_open [] a rest = refl
  fold_open (t ∷ ts) a rest = elim (Bool-cases (a.value == t.value)) [
    | inl e ↦ rw e (fold_joined ts a t rest)
    | inr e ↦ rw e (fold_open ts t (single a ∷ rest))
  ]

  fold_joined :
      (ts : List Tile) (a b : Tile) (rest : List LineSlot)
      → reverse (foldl push_tile (merged a b ∷ rest) ts)
        ≡ reverse_aux rest (merged a b ∷ merge_rule ts)
  fold_joined [] a b rest = refl
  fold_joined (t ∷ ts) a b rest = fold_open ts t (merged a b ∷ rest)

-- For every line, the slots that the loop builds are those of the merging rule.
pub process_line-eq-merge_rule : (line : List Tile) → process_line line ≡ merge_rule line
unfolding process_line push_tile merge_rule
process_line-eq-merge_rule [] = refl
process_line-eq-merge_rule (t ∷ ts) = fold_open ts t []

-- the tiles of the slots, in their order
unfoldable pub slot_tiles : List LineSlot → List Tile
slot_tiles [] = []
slot_tiles (record_slot ∷ rest) = record_slot.tile ∷ sources record_slot.source ++ slot_tiles rest
  where
    sources : Option Tile → List Tile
    sources none = []
    sources (some t) = t ∷ []

length-merge_rule : (line : List Tile) → length (merge_rule line) ≤ length line
unfolding merge_rule
length-merge_rule [] = omega arith
length-merge_rule (a ∷ []) = omega arith
length-merge_rule (a ∷ b ∷ rest) =
    ground (arith, length-merge_rule rest, length-merge_rule (b ∷ rest))

pub length-process_line : (line : List Tile) → length (process_line line) ≤ length line
length-process_line line = rw process_line-eq-merge_rule (length-merge_rule line)
