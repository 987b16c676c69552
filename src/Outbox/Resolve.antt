-- ===== src/Outbox/Resolve.antt =====
-- game_service/local_backend.py: `_operation` of an aggregate, `_merge_progress_operations` and
-- `resolve_operations`.
use classic_games.Prelude.{
  ℕ, max, Bool, true, false, ◌&&◌, not, Option, List, [], ◌++◌, ltb, take, if◌then◌else◌,
}
use classic_games.Prelude.Results.{Result, ok, err, ◌>>=◌}
use classic_games.Prelude.Texts.{Text, codes, text_eq}
use classic_games.Prelude.Json.{Json, string, array, object, end, field}
use classic_games.Outbox.Shape.{
  ShapeFault, json_too_complex, json_string_too_large, validate_json_shape,
}
use classic_games.Outbox.Values.{ValueFault, invalid_progress, plain_value_error, merge_values}
use classic_games.Outbox.Operation.{
  Fault, state_key_conflict, state_ruleset_conflict, state_operation_conflict,
  invalid_state_revision, invalid_state_timestamp, bad_progress, bad_shape, bad_string, value_error,
  Component, Arguments, Body, set_progress, merge_progress, Operation, progress, kind_of, same_kind,
  Resolution, duplicate, incoming, superseded, merged, max_revision, max_timestamp, component_items,
  json_of, sort_components, add_components, progress_components, component_relation, precedes,
  same_order,
}

unfoldable pub from_shape : Result {0} ShapeFault Unit → Result {0} Fault Unit
from_shape (ok tt) = ok tt
from_shape (err json_too_complex) = err bad_shape
from_shape (err json_string_too_large) = err bad_string

unfoldable pub from_value : Result ValueFault Json → Result Fault Json
from_value (ok v) = ok v
from_value (err invalid_progress) = err bad_progress
from_value (err plain_value_error) = err value_error

abbrev pub same_row : Arguments → Arguments → Bool
same_row a b =
    text_eq a.profile_id b.profile_id && text_eq a.game_id b.game_id && text_eq a.item b.item

module _ (digest : Json → Text) where
  -- aggregate-{digest[:48]}
  unfoldable pub aggregate_id : Text → List Component → Text
  aggregate_id key components =
      codes "aggregate-"
      ++ take 48 (
          digest (
            object (
              field (codes "key") (string key)
                (field (codes "components") (array (component_items components)) end))))

  -- `_operation` for merge_progress, with its components given and any time up to the limit allowed
  unfoldable pub aggregate :
      Text → Arguments → Text → ℕ → List Component → ℕ → Result Fault Operation
  aggregate key args rules revision components updated =
      let unhashed : Operation = record {
        operation_id = aggregate_id key components;
        key = key;
        body = merge_progress args;
        ruleset_version = rules;
        logical_revision = revision;
        updated_at = updated;
        components = sort_components components;
        payload_hash = [];
      } in
      if ltb max_revision revision
      then err invalid_state_revision
      else if ltb max_timestamp updated
      then err invalid_state_timestamp
      else (from_shape (validate_json_shape (json_of unhashed)) >>= λ _.
          ok (record unhashed { payload_hash = digest (json_of unhashed) }))

module _ (isdigit : ℕ → Bool) (decimal : ℕ → Option ℕ) (digest : Json → Text) where
  unfoldable pub merge_arguments :
      Operation → Operation → Arguments → Arguments → Result Fault Operation
  merge_arguments existing o old new =
      if not (same_row old new)
      then err state_key_conflict
      else if not (text_eq existing.ruleset_version o.ruleset_version)
      then err state_ruleset_conflict
      else do
        value ← from_value (merge_values isdigit decimal new.game_id new.item old.value new.value)
        first ← add_components (progress_components existing) []
        components ← add_components (progress_components o) first
        aggregate digest o.key (record new { value = value }) o.ruleset_version
            (max existing.logical_revision o.logical_revision) (sort_components components)
            (max existing.updated_at o.updated_at)

  -- the last comparison: the greater order wins
  unfoldable pub later_wins : Operation → Operation → Result Fault (Operation × Resolution)
  later_wins existing o =
      if precedes o existing then ok (existing, superseded) else ok (o, incoming)

  unfoldable pub merge_operations :
      Operation → Operation → Arguments → Arguments → Result Fault (Operation × Resolution)
  merge_operations existing o old new = merge_arguments existing o old new >>= λ w. ok (w, merged)

  -- by the methods of the two operations
  unfoldable pub resolve_methods :
      Operation → Operation → Body → Body → Result Fault (Operation × Resolution)
  resolve_methods existing o (set_progress old) (set_progress new) = later_wins existing o
  resolve_methods existing o (merge_progress old) (set_progress new) = later_wins existing o
  resolve_methods existing o (set_progress old) (merge_progress new) =
      let merging = merge_operations existing o old new in
      if precedes o existing then ok (existing, superseded) else merging
  resolve_methods existing o (merge_progress old) (merge_progress new) =
      merge_operations existing o old new
  resolve_methods existing o _ _ = later_wins existing o

  unfoldable pub resolve_orders : Operation → Operation → Result Fault (Operation × Resolution)
  resolve_orders existing o =
      if same_order o existing
      then if text_eq o.payload_hash existing.payload_hash
        then ok (existing, duplicate)
        else err state_operation_conflict
      else resolve_methods existing o existing.body o.body

  -- the dominance of a progress aggregate, before any order is compared
  unfoldable pub resolve_progress : Operation → Operation → Result Fault (Operation × Resolution)
  resolve_progress existing o = component_relation existing o >>= λ absorbed.
      if absorbed
      then ok (existing, duplicate)
      else (component_relation o existing >>= λ absorbing.
          if absorbing then ok (o, incoming) else resolve_orders existing o)

  unfoldable pub resolve_operations : Operation → Operation → Result Fault (Operation × Resolution)
  resolve_operations existing o =
      if not (text_eq existing.key o.key && same_kind (kind_of existing.body) (kind_of o.body))
      then err state_key_conflict
      else if same_kind (kind_of o.body) progress
      then resolve_progress existing o
      else resolve_orders existing o

-- `put` writes the journal anew
unfoldable pub is_published : Resolution → Bool
is_published duplicate = false
is_published superseded = false
is_published _ = true
