-- ===== src/Outbox/Shape.antt =====
-- game_service/local_backend.py: `_validate_json_shape`. The stack has its top in front; the nodes
-- that are still allowed are the fuel of the loop, so it ends where the source raises.
use classic_games.Prelude.{ℕ, zero, suc, ◌+◌, Bool, List, [], ◌∷◌, ltb, length, if◌then◌else◌}
use classic_games.Prelude.Results.{Result, ok, err}
use classic_games.Prelude.Json.{Json, string, array, object, Items, nil, item, Fields, end, field}

pub data ShapeFault : Type 0 where
  json_too_complex json_string_too_large : ShapeFault

abbrev pub max_json_depth : ℕ
max_json_depth = 32

abbrev pub max_json_nodes : ℕ
max_json_nodes = 100000

abbrev pub max_json_string : ℕ
max_json_string = 65536

-- stack.extend: each child goes on top of the ones before it
unfoldable pub push_items : ℕ → Items → List (Json × ℕ) → List (Json × ℕ)
push_items d nil stack = stack
push_items d (item v rest) stack = push_items d rest ((v, d) ∷ stack)

unfoldable pub push_keys : ℕ → Fields → List (Json × ℕ) → List (Json × ℕ)
push_keys d end stack = stack
push_keys d (field k v rest) stack = push_keys d rest ((string k, d) ∷ stack)

unfoldable pub push_values : ℕ → Fields → List (Json × ℕ) → List (Json × ℕ)
push_values d end stack = stack
push_values d (field k v rest) stack = push_values d rest ((v, d) ∷ stack)

unfoldable pub push_children : ℕ → Json → List (Json × ℕ) → List (Json × ℕ)
push_children d (object v) stack = push_values d v (push_keys d v stack)
push_children d (array v) stack = push_items d v stack
push_children d _ stack = stack

unfoldable pub is_long : Json → Bool
is_long (string t) = ltb max_json_string (length t)
is_long _ = ltb 1 0

unfoldable pub validate_nodes : ℕ → List (Json × ℕ) → Result {0} ShapeFault Unit
validate_nodes left [] = ok tt
validate_nodes zero (top ∷ stack) = err json_too_complex
validate_nodes (suc left) ((v, d) ∷ stack) =
    let rest = validate_nodes left (push_children (d + 1) v stack) in
    if ltb max_json_depth d
    then err json_too_complex
    else if is_long v
    then err json_string_too_large
    else rest

unfoldable pub validate_json_shape : Json → Result {0} ShapeFault Unit
validate_json_shape v = validate_nodes max_json_nodes ((v, 0) ∷ [])
