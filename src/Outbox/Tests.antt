-- ===== src/Outbox/Tests.antt =====
-- Runs of the journal of pending state. The digest is one text for every value.
use classic_games.Prelude.{
  All, ℕ, ◌-◌, ◌≤◌, ◌≡◌, refl, Bool, true, false, Option, none, some, List, [], ◌∷◌, if◌then◌else◌,
}
use classic_games.Prelude.Results.{ok}
use classic_games.Prelude.Texts.{Text, codes, text_eq, text_ltb, is_digit}
use classic_games.Prelude.Json.{Json, object, end, field}
use classic_games.Progress.Policy.{number, fields_of}
use classic_games.Progress.Read.{IsUnicode}
use classic_games.Outbox.Operation.{
  setting, kind_of, precedes, Arguments, merge_progress, set_setting, Operation, Resolution,
  duplicate, incoming, superseded, merged, component_relation, hash_of,
}
use classic_games.Outbox.Resolve.{same_row, resolve_operations}
use classic_games.Outbox.Latest.{IsAlike, In, deliver, deliver-latest}
use classic_games.Outbox.Absorb.{arguments_of}
use classic_games.Outbox.Dominance.{resolve_operations-merged}
use classic_games.Outbox.Kept.{KeepsBoth, resolve_operations-KeepsBoth}
use classic_games.Outbox.Again.{IsAnswered, resolve_again}

abbrev decimal : ℕ → Option ℕ
decimal c = if is_digit c then some (c - 48) else none

ascii_digits : IsUnicode is_digit decimal
ascii_digits = record { digits = λ c h. h; decimals = λ c h. rw h refl }

abbrev digest : Json → Text
digest v = codes "00ff"

abbrev row : ℕ → Arguments
row level = record {
  profile_id = codes "p";
  game_id = codes "zuma";
  item = codes "campaign";
  value = object (field (codes "unlocked_level") (number level) end);
}

abbrev progress_op : Text → ℕ → ℕ → Operation
progress_op id level revision = record {
  operation_id = id;
  key = codes "k";
  body = merge_progress (row level);
  ruleset_version = codes "zuma-classic-2";
  logical_revision = revision;
  updated_at = 5;
  components = record { operation_id = id; payload_hash = codes "00ff" } ∷ [];
  payload_hash = codes "00ff";
}

abbrev older : Operation
older = progress_op (codes "b") 3 7

abbrev newer : Operation
newer = progress_op (codes "a") 2 9

abbrev joined_op : Operation
joined_op = record {
  operation_id = codes "aggregate-00ff";
  key = codes "k";
  body = merge_progress (row 3);
  ruleset_version = codes "zuma-classic-2";
  logical_revision = 9;
  updated_at = 5;
  components =
      record { operation_id = codes "a"; payload_hash = codes "00ff" }
      ∷ record { operation_id = codes "b"; payload_hash = codes "00ff" }
      ∷ [];
  payload_hash = codes "00ff";
}

joins : resolve_operations is_digit decimal digest older newer ≡ ok (joined_op, merged)
unfolding classic_games.Outbox.Operation.any_differs
    classic_games.Outbox.Operation.progress_components classic_games.Outbox.Operation.all_within
    classic_games.Outbox.Operation.kind_of classic_games.Outbox.Operation.component_relation
    classic_games.Outbox.Operation.hash_of classic_games.Outbox.Operation.add_component
    classic_games.Outbox.Operation.add_components classic_games.Outbox.Operation.argument_list
    classic_games.Outbox.Operation.component_items classic_games.Outbox.Operation.insert_component
    classic_games.Outbox.Operation.items_of classic_games.Outbox.Operation.json_of
    classic_games.Outbox.Operation.kind_text classic_games.Outbox.Operation.method_text
    classic_games.Outbox.Operation.ruleset_json classic_games.Outbox.Operation.sort_components
    classic_games.Outbox.Resolve.resolve_operations classic_games.Outbox.Resolve.resolve_progress
    classic_games.Outbox.Resolve.resolve_orders classic_games.Outbox.Resolve.resolve_methods
    classic_games.Outbox.Resolve.merge_operations classic_games.Outbox.Resolve.merge_arguments
    classic_games.Outbox.Resolve.from_value classic_games.Outbox.Resolve.aggregate
    classic_games.Outbox.Resolve.aggregate_id classic_games.Outbox.Resolve.from_shape
    classic_games.Outbox.Resolve.later_wins classic_games.Outbox.Shape.is_long
    classic_games.Outbox.Shape.push_children classic_games.Outbox.Shape.push_items
    classic_games.Outbox.Shape.push_keys classic_games.Outbox.Shape.push_values
    classic_games.Outbox.Shape.validate_json_shape classic_games.Outbox.Shape.validate_nodes
    classic_games.Outbox.Values.merge_game classic_games.Catalog.game_named
    classic_games.Outbox.Values.value_of classic_games.Catalog.text_of
    classic_games.Prelude.Json.get classic_games.Prelude.Json.keys_within
    classic_games.Prelude.Json.truthy classic_games.Prelude.Texts.text_eq
    classic_games.Prelude.Texts.text_ltb classic_games.Progress.Policy.bounded_int
    classic_games.Progress.Policy.fields_of classic_games.Progress.Policy.merge_progress
    classic_games.Progress.Policy.validate_progress classic_games.Progress.Policy.zuma_fields
    classic_games.Progress.Policy.merged classic_games.Progress.Policy.check_boolean
joins = refl

resolve_operations-merged_example :
    (resolve_operations is_digit decimal digest joined_op older ≡ ok (joined_op, duplicate))
    × (resolve_operations is_digit decimal digest joined_op newer ≡ ok (joined_op, duplicate))
resolve_operations-merged_example =
    resolve_operations-merged is_digit decimal digest older newer joined_op joins

resolve_operations-KeepsBoth_example :
    (old : Arguments) × (new : Arguments) × (result : Json) × (arguments_of older.body ≡ some old)
    × (arguments_of newer.body ≡ some new)
    × (joined_op.body ≡ merge_progress (record new { value = result }))
    × (same_row old new ≡ true)
    × (7 ≤ 9)
    × (9 ≤ 9)
    × KeepsBoth is_digit decimal new.game_id new.item old.value new.value result
resolve_operations-KeepsBoth_example =
    resolve_operations-KeepsBoth is_digit decimal ascii_digits digest older newer joined_op joins

resolve_again_example : IsAnswered is_digit decimal digest joined_op newer
resolve_again_example = resolve_again is_digit decimal digest older newer joined_op merged joins

abbrev setting_op : Text → ℕ → Operation
setting_op id revision = record {
  operation_id = id;
  key = codes "setting";
  body = set_setting [];
  ruleset_version = [];
  logical_revision = revision;
  updated_at = 5;
  components = [];
  payload_hash = id;
}

setting_op-IsAlike :
    (id : Text) (n : ℕ) → IsAlike (codes "setting") setting (λ _ i. i) (setting_op id n)
unfolding kind_of
setting_op-IsAlike id n = record { key_is = refl; kind_is = refl; hash_is = refl }

abbrev early_setting : Operation
early_setting = setting_op (codes "x") 4

abbrev late_setting : Operation
late_setting = setting_op (codes "a") 6

deliver-latest_example :
    (w : Operation) × (deliver is_digit decimal digest early_setting
        (late_setting ∷ early_setting ∷ [])
      ≡ ok w)
    × In w (early_setting ∷ late_setting ∷ early_setting ∷ [])
    × All (λ o. precedes w o ≡ false) (early_setting ∷ late_setting ∷ early_setting ∷ [])
deliver-latest_example =
    deliver-latest is_digit decimal digest (codes "setting") setting (λ _ i. i) refl early_setting
      (late_setting ∷ early_setting ∷ []) (setting_op-IsAlike (codes "x") 4)
      (setting_op-IsAlike (codes "a") 6, (setting_op-IsAlike (codes "x") 4, tt))
