-- ===== src/Sokoban/Ledger.antt =====
-- client/games/sokoban.py and game_service/progress.py: what the clear of a level writes is progress
-- that the service accepts.
use classic_games.Prelude.{
  ℕ, ◌≤◌, ◌<◌, ◌≡◌, refl, max, min, Bool, true, false, Option, none, some, arith,
}
use classic_games.Prelude.Results.{ok}
use classic_games.Prelude.Texts.{codes, text_eq}
use classic_games.Prelude.Json.{object}
use classic_games.Catalog.{sokoban}
use classic_games.Progress.Policy.{Metric, assign, lookup, validate_progress, fields_of, max_score}
use classic_games.Progress.Canonical.{
  IsSorted, IsMetric, insert-IsSorted, assign-IsMetric, lookup_le,
}
use classic_games.Progress.Read.{IsUnicode, IsSokoban}
use classic_games.Progress.Keep.{validate_progress-fields_of}
use classic_games.Sokoban.Win.{
  Game, level_count, get_or, level_score, record_practice, practice_value, record_campaign,
  campaign_value,
}

-- the ledgers of a game: in order, of levels that there are, with numbers in bounds
pub record IsLedger (g : Game) : Type 0 where
  pub level : g.level_idx < level_count
  pub scores : IsMetric level_count g.level_scores
  pub completed : IsSorted level_count g.completed_levels
  pub practice_scores : IsMetric level_count g.practice_level_scores
  pub practice_moves : IsMetric level_count g.practice_best_moves
  pub practice_pushes : IsMetric level_count g.practice_best_pushes
  pub practice_completed : IsSorted level_count g.practice_completed_levels
  pub moves : g.board.scene.moves ≤ max_score
  pub pushes : g.board.scene.pushes ≤ max_score

module _ (count i n : ℕ) (m : Metric) (s : IsMetric count m) (l : i < count)
    (b : n ≤ max_score) where
  assign-max : IsMetric count (assign i (max (get_or 0 (lookup i m)) n) m)
  assign-max =
      assign-IsMetric count i _ m l (bounded (lookup i m) (λ v e. lookup_le count i v m s e)) s
    where
      bounded :
          (o : Option ℕ) → ((v : ℕ) → o ≡ some v → v ≤ max_score) → max (get_or 0 o) n ≤ max_score
      bounded none h = omega arith
      bounded (some v) h = omega (arith, h v refl)

  assign-min : IsMetric count (assign i (min (get_or n (lookup i m)) n) m)
  assign-min = assign-IsMetric count i _ m l (bounded (lookup i m)) s
    where
      bounded : (o : Option ℕ) → min (get_or n o) n ≤ max_score
      bounded none = omega arith
      bounded (some v) = omega arith

record_campaign-IsLedger : (g : Game) → IsLedger g → IsLedger (record_campaign g)
unfolding record_campaign
record_campaign-IsLedger g h = record {
  level = h.level;
  scores =
      assign-max level_count g.level_idx (level_score g) g.level_scores h.scores h.level
        (omega arith);
  completed = insert-IsSorted level_count g.level_idx g.completed_levels h.level h.completed;
  practice_scores = h.practice_scores;
  practice_moves = h.practice_moves;
  practice_pushes = h.practice_pushes;
  practice_completed = h.practice_completed;
  moves = h.moves;
  pushes = h.pushes;
}

record_practice-IsLedger : (g : Game) → IsLedger g → IsLedger (record_practice g)
unfolding record_practice
record_practice-IsLedger g h = record {
  level = h.level;
  scores = h.scores;
  completed = h.completed;
  practice_scores =
      assign-max level_count g.level_idx (level_score g) g.practice_level_scores h.practice_scores
        h.level (omega arith);
  practice_moves =
      assign-min level_count g.level_idx g.board.scene.moves g.practice_best_moves h.practice_moves
        h.level h.moves;
  practice_pushes =
      assign-min level_count g.level_idx g.board.scene.pushes g.practice_best_pushes
        h.practice_pushes h.level h.pushes;
  practice_completed =
      insert-IsSorted level_count g.level_idx g.practice_completed_levels h.level
        h.practice_completed;
  moves = h.moves;
  pushes = h.pushes;
}

campaign_value-IsSokoban : (g : Game) → IsLedger g → IsSokoban true (campaign_value g)
unfolding campaign_value
campaign_value-IsSokoban g h = record {
  unlocked = (omega arith, omega arith);
  completed = h.completed;
  scores = h.scores;
  moves = tt;
  pushes = tt;
  no_highest = refl;
  no_all = refl;
  practice_locked = λ e. cc;
}

practice_value-IsSokoban : (g : Game) → IsLedger g → IsSokoban false (practice_value g)
unfolding practice_value
practice_value-IsSokoban g h = record {
  unlocked = tt;
  completed = h.practice_completed;
  scores = h.practice_scores;
  moves = h.practice_moves;
  pushes = h.practice_pushes;
  no_highest = refl;
  no_all = refl;
  practice_locked = λ e. refl;
}

module _ (isdigit : ℕ → Bool) (decimal : ℕ → Option ℕ) where
  -- Where the Unicode database knows the ASCII digits and their values: a game whose ledgers are in
  -- order and in bounds records a clear, and the ledgers stay so. The progress value made of them is
  -- accepted by the policy and read back as it is, that of the campaign under its key and that of
  -- practice under its own.
  pub validate_progress-campaign_value :
      IsUnicode isdigit decimal
      → (g : Game) → IsLedger g
      → IsLedger (record_campaign g)
        × IsLedger (record_practice g)
        × (validate_progress isdigit decimal sokoban
              (codes "campaign")
              (object (fields_of (campaign_value (record_campaign g))))
            ≡ ok (campaign_value (record_campaign g)))
        × (validate_progress isdigit decimal sokoban
              (codes "practice")
              (object (fields_of (practice_value (record_practice g))))
            ≡ ok (practice_value (record_practice g)))
  unfolding text_eq
  validate_progress-campaign_value u g h =
      let c = record_campaign-IsLedger g h in
      let p = record_practice-IsLedger g h in
      (
        c,
        p,
        validate_progress-fields_of isdigit decimal u sokoban (codes "campaign") _
            (refl, campaign_value-IsSokoban (record_campaign g) c),
        validate_progress-fields_of isdigit decimal u sokoban (codes "practice") _
            (refl, practice_value-IsSokoban (record_practice g) p),
      )
