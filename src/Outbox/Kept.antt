-- ===== src/Outbox/Kept.antt =====
-- game_service/local_backend.py and game_service/progress.py: an aggregate loses no progress of the
-- operations that it is made of.
use mathlib.Core.Path.{subst}
use classic_games.Prelude.{ℕ, ◌≤◌, ◌≡◌, refl, sym, ap, ◌∙◌, Bool, true, Option, none, some, arith}
use classic_games.Prelude.Results.{Result, ok, err, ok_inj}
use classic_games.Prelude.Texts.{Text}
use classic_games.Prelude.Json.{Json}
use classic_games.Outbox.Operation.{Arguments, merge_progress, Operation, merged}
use classic_games.Outbox.Resolve.{from_value, same_row, resolve_operations}
use classic_games.Outbox.Absorb.{err_ne_ok, merged_of}
use classic_games.Prelude.Json.{object}
use classic_games.Catalog.{GameId, game_named}
use classic_games.Progress.Policy.{Progress, validate_progress, fields_of, or_empty}
use classic_games.Progress.Policy
use classic_games.Progress.Read.{IsUnicode}
use classic_games.Progress.Merge.{IsKept, merge_reads, merge_progress-IsKept}
use classic_games.Outbox.Values.{
  merge_game, value_of, ValueFault, invalid_progress, plain_value_error,
}
use classic_games.Outbox.Absorb.{arguments_of}
use classic_games.Outbox.Dominance.{joined}

-- what is kept of two values of progress, for a game and a key
module _ (isdigit : ℕ → Bool) (decimal : ℕ → Option ℕ) (game_id key : Text)
    (existing added result : Json) where
  pub record KeepsBoth : Type 0 where
    pub game : GameId
    pub game_is : game_named game_id ≡ some game
    pub old : Progress
    pub new : Progress
    pub both : Progress
    pub old_read : validate_progress isdigit decimal game key (or_empty existing) ≡ ok old
    pub new_read : validate_progress isdigit decimal game key added ≡ ok new
    pub both_written : result ≡ object (fields_of both)
    pub old_kept : IsKept old both
    pub new_kept : IsKept new both

refused : {f : ValueFault} {v : Json} → ◌≡◌ {A = Result ValueFault Json} (err f) (ok v) → ⊥
refused d = cc

module _ (isdigit : ℕ → Bool) (decimal : ℕ → Option ℕ) (u : IsUnicode isdigit decimal) where
  merged_value :
      (m : Result Policy.Fault Progress) (v : Json)
      → value_of m ≡ ok v
      → (r : Progress) × (m ≡ ok r) × (v ≡ object (fields_of r))
  unfolding value_of
  merged_value (ok r) v h = (r, refl, sym (ok_inj h))
  merged_value (err f) v h = absurd (refused h)

  from_value_ok : (m : Result ValueFault Json) (v : Json) → from_value m ≡ ok v → m ≡ ok v
  unfolding from_value
  from_value_ok (ok w) v h = ap ok (ok_inj h)
  from_value_ok (err invalid_progress) v h = absurd (err_ne_ok h)
  from_value_ok (err plain_value_error) v h = absurd (err_ne_ok h)

  keeps_both :
      (o : Option GameId) (game_id key : Text) (existing added result : Json)
      → game_named game_id ≡ o
      → merge_game isdigit decimal o key existing added ≡ ok result
      → KeepsBoth isdigit decimal game_id key existing added result
  unfolding merge_game
  keeps_both none game_id key existing added result g h = absurd (refused h)
  keeps_both (some game) game_id key existing added result g h =
      let (r, e, v) =
        merged_value (Policy.merge_progress isdigit decimal game key existing added) result h in
      let (old, new, a, b) = merge_reads isdigit decimal game key existing added r e in
      let (s, f, k, l) =
        merge_progress-IsKept isdigit decimal u game key existing added old new a b in
      record {
        game = game;
        game_is = g;
        old = old;
        new = new;
        both = r;
        old_read = a;
        new_read = b;
        both_written = v;
        old_kept = subst (IsKept old) (ok_inj (sym f ∙ e)) k;
        new_kept = subst (IsKept new) (ok_inj (sym f ∙ e)) l;
      }

  module _ (digest : Json → Text) where
    -- Where the Unicode database knows the ASCII digits and their values: two journals that are
    -- resolved by a merge are progress of one profile, game and key, and the aggregate is that too,
    -- with a revision that is no lower than either. Its value is a canonical one in which nothing is
    -- lost of what the policy reads of the two values.
    pub resolve_operations-KeepsBoth :
        (existing o w : Operation)
        → resolve_operations isdigit decimal digest existing o ≡ ok (w, merged)
        → (old : Arguments) × (new : Arguments) × (result : Json) × (arguments_of existing.body
            ≡ some old)
          × (arguments_of o.body ≡ some new)
          × (w.body ≡ merge_progress (record new { value = result }))
          × (same_row old new ≡ true)
          × (existing.logical_revision ≤ w.logical_revision)
          × (o.logical_revision ≤ w.logical_revision)
          × KeepsBoth isdigit decimal new.game_id new.item old.value new.value result
    resolve_operations-KeepsBoth existing o w h =
        let (_, (_, _, (old, new, a, b, m))) = merged_of isdigit decimal digest existing o w h in
        let j = joined isdigit decimal digest existing o old new w m in
        (
          old,
          new,
          j.value,
          a,
          b,
          j.result.body,
          j.rows,
          rw j.result.revision_kept (omega arith),
          rw j.result.revision_kept (omega arith),
          keeps_both (game_named new.game_id) new.game_id new.item old.value new.value j.value refl
              (from_value_ok _ j.value j.value_read),
        )
