-- ===== src/Game2048/Outcome.antt =====
-- What a slide ends in, and what is saved while it runs.
use mathlib.Core.Bool.{false≢true}
use classic_games.Prelude.{
  ℕ, ◌+◌, ◌<◌, ◌≡◌, min, refl, sym, ap, ◌∙◌, Bool, true, false, ◌&&◌, inl, inr, Option, none, some,
  List, [], ◌∷◌, Bool-cases, Option-cases, ltb, leb, if◌then◌else◌, arith,
}
use classic_games.Game2048.Board.{
  Tile, Grid, Draw, size, is_none, choice, cells_where, spawn_tile, IsSettled, can_move,
}
use classic_games.Game2048.Slide.{Direction, slide}
use classic_games.Game2048.Slide.Placed.{IsPlaced, spawn_tile-IsSettled}
use classic_games.Game2048.Invariant.{finish_merges-IsSettled}
use classic_games.Game2048.CanMove.{can_move_iff}
use classic_games.Game2048.Play.{
  Game, Phase, Saved, playing, won, gameover, slide_end, settled_fields, autosave_fields, move,
  drain,
}
use classic_games.Game2048.Tick.{
  finish_tile, finish_merges, after_spawn, announce, apply_pending, pending_phase, settle, tick,
}

module _ (digest : ℕ → ℕ → Direction → ℕ) where
  pub frames : List (Draw × ℕ) → Game → Game
  frames [] g = g
  frames ((draw, dt) ∷ rest) g = frames rest (tick digest draw dt g)

unfoldable pub elapsed : List (Draw × ℕ) → ℕ
elapsed [] = 0
elapsed ((draw, dt) ∷ rest) = dt + elapsed rest

module _ (digest : ℕ → ℕ → Direction → ℕ) where
  early_tick :
      (draw : Draw) (dt : ℕ) (g : Game)
      → g.anim_t + dt < slide_end
      → tick digest draw dt g ≡ record g { anim_t = g.anim_t + dt }
  unfolding tick
  early_tick draw dt g h =
      let t = if ltb g.anim_t slide_end then min slide_end (g.anim_t + dt) else g.anim_t in
      let at : t ≡ g.anim_t + dt = ground arith in
      let ends : (ltb g.anim_t slide_end && leb slide_end t) ≡ false = ground arith in
      ap
        (λ b.
          if b
          then (let s = settle draw (record g { anim_t = t }) in drain digest s.queued s)
          else record g { anim_t = t })
        ends
      ∙ ap (λ a. record g { anim_t = a }) at

  early_frames :
      (l : List (Draw × ℕ)) (g : Game)
      → g.anim_t + elapsed l < slide_end
      → frames digest l g ≡ record g { anim_t = g.anim_t + elapsed l }
  unfolding frames elapsed
  early_frames [] g h =
      let e : g.anim_t ≡ g.anim_t + 0 = omega arith in ap (λ a. record g { anim_t = a }) e
  early_frames ((draw, dt) ∷ rest) g h =
      let e : g.anim_t + dt + elapsed rest ≡ g.anim_t + (dt + elapsed rest) = omega arith in
      ap (frames digest rest) (early_tick draw dt g (omega arith))
      ∙ early_frames rest (record g { anim_t = g.anim_t + dt }) (omega arith)
      ∙ ap (λ a. record g { anim_t = a }) e

  move_starts :
      (d : Direction) (g : Game)
      → (move digest d g).0 ≡ true
      → ((move digest d g).1.anim_t ≡ 0) × ((move digest d g).1.pre_move ≡ some (settled_fields g))
  unfolding move
  move_starts d g h = ground arith

  saved_early :
      (g : Game) (s : Saved) (a : ℕ)
      → a < slide_end
      → g.pre_move ≡ some s
      → autosave_fields (record g { anim_t = a }) ≡ s
  unfolding autosave_fields
  saved_early g s a h e = ground arith

  -- After a move that slides something, and any frames that together last less than the slide,
  -- an autosave writes the board, the score, the flags and the move log as they were before the
  -- move: nothing of the unfinished slide is saved.
  pub autosave-move :
      (d : Direction) (g : Game) (l : List (Draw × ℕ))
      → (move digest d g).0 ≡ true
      → elapsed l < slide_end
      → autosave_fields (frames digest l (move digest d g).1) ≡ settled_fields g
  autosave-move d g l moved h =
      let (starts, keeps) = move_starts d g moved in
      ap autosave_fields (early_frames l (move digest d g).1 (omega arith))
      ∙ saved_early (move digest d g).1 (settled_fields g) _ (omega arith) keeps

is_none-finish : (o : Option Tile) → is_none (finish_tile o) ≡ is_none o
is_none-finish none = refl
is_none-finish (some t) = refl

is_none-if :
    (b : Bool) (t : Tile) (o : Option Tile)
    → is_none o ≡ false
    → is_none (if b then some t else o) ≡ false
is_none-if true t o h = refl
is_none-if false t o h = h

is_none-spawn :
    (draw : Draw) (g : Grid) (r c : ℕ)
    → is_none (g r c) ≡ false
    → is_none ((spawn_tile draw g).1 r c) ≡ false
unfolding spawn_tile
is_none-spawn draw g r c h =
    elim (Option-cases (choice draw (cells_where (λ i j. is_none (g i j))))) [
      | inl e ↦ rw (e, spawn_tile) h
      | inr (p, e) ↦ rw (e, spawn_tile) (is_none-if _ _ (g r c) h)
    ]

abbrev pub Verdict : Game → Type 0
Verdict s =
    (s.phase ≡ gameover → (d : Direction) → (slide d s.grid s.score s.won).moved ≡ false)
    × (s.phase ≡ playing → (d : Direction) × ((slide d s.grid s.score s.won).moved ≡ true))

grid-announce : (g : Game) → (announce g).grid ≡ g.grid
unfolding announce
grid-announce g = pending (pending_phase g)
  where
    pending : (p : Option Phase) → (apply_pending p g).grid ≡ g.grid
    pending none = refl
    pending (some won) = refl
    pending (some _) = refl

phase-announce :
    (g : Game)
    → g.phase ≡ playing
    → ((announce g).phase ≡ gameover → can_move g.grid ≡ false)
      × ((announce g).phase ≡ playing → can_move g.grid ≡ true)
unfolding announce
phase-announce g h = ground arith

module _ (draw : Draw) (g : Game) where
  landed : Game
  landed = after_spawn draw (record g { grid = finish_merges g.grid; fading = [] })

  landed_facts :
      (r c : ℕ)
      → IsPlaced g.grid
      → g.phase ≡ playing
      → is_none (g.grid r c) ≡ false
      → (landed.phase ≡ playing) × IsSettled landed.grid × (is_none (landed.grid r c) ≡ false)
  unfolding landed after_spawn finish_merges
  landed_facts r c board now tile = rw now (
    refl,
    spawn_tile-IsSettled draw _ (finish_merges-IsSettled g.grid board),
    is_none-spawn draw _ r c (is_none-finish (g.grid r c) ∙ tile),
  )

-- When a slide ends in a game that goes on, on a board that holds a tile: after the new tile has
-- come, a game that is declared over has no direction in which a slide would move anything, and a
-- game that is still played has one.
pub settle-Verdict :
    (draw : Draw) (g : Game) (r c : ℕ)
    → IsPlaced g.grid
    → g.phase ≡ playing
    → r < size
    → c < size
    → is_none (g.grid r c) ≡ false
    → Verdict (settle draw g)
unfolding settle landed
settle-Verdict draw g r c board now hr hc tile =
    let (goes, rests, holds) = landed_facts draw g r c board now tile in
    let b = landed draw g in
    let (over, on) = phase-announce b goes in
    let same = grid-announce b in
    let s = announce b in
    let iff = can_move_iff b.grid s.score s.won r c rests hr hc holds in
    (
      λ e d. rw same (elim (Bool-cases (slide d b.grid s.score s.won).moved) [
        | inl m ↦ absurd (false≢true (sym (over e) ∙ iff.1 (d, m)))
        | inr m ↦ m
      ]),
      λ e. rw same (iff.0 (on e)),
    )
