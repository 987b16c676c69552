-- ===== src/Outbox/Operation.antt =====
-- game_service/local_backend.py: the operations of `PersistentStateOutbox` and `resolve_operations`.
-- The digest is a parameter: the SHA-256 of the canonical JSON of a value.
use classic_games.Prelude.{
  ℕ, Bool, true, false, ◌&&◌, ◌||◌, not, Option, none, some, List, [], ◌∷◌, ltb, ◌==◌,
  if◌then◌else◌,
}
use classic_games.Prelude.Results.{Result, ok, err, ◌>>=◌}
use classic_games.Prelude.Texts.{Text, codes, text_eq, text_ltb}
use classic_games.Prelude.Json.{
  Json, null, integer, string, array, object, Items, nil, item, end, field,
}
use classic_games.Prelude.Int.{pos}

-- the StoreErrors of this module; `value_error` is a ValueError that no handler catches
pub data Fault : Type 0 where
  state_key_conflict state_ruleset_conflict state_operation_conflict : Fault
  invalid_state_revision invalid_state_timestamp : Fault
  bad_progress bad_shape bad_string value_error : Fault

pub record Component : Type 0 where
  pub operation_id : Text
  pub payload_hash : Text

-- args of a progress operation; its fifth argument is the rules of the operation
pub record Arguments : Type 0 where
  pub profile_id : Text
  pub game_id : Text
  pub item : Text
  pub value : Json

-- the method with its arguments
pub data Body : Type 0 where
  ensure_profile set_setting save_slot : List Json → Body
  set_progress merge_progress : Arguments → Body

pub record Operation : Type 0 where
  pub operation_id : Text
  pub key : Text
  pub body : Body
  pub ruleset_version : Text
  pub logical_revision : ℕ
  pub updated_at : ℕ
  pub components : List Component
  pub payload_hash : Text

pub data Kind : Type 0 where
  profile setting progress slot : Kind

unfoldable pub kind_of : Body → Kind
kind_of (ensure_profile a) = profile
kind_of (set_setting a) = setting
kind_of (set_progress a) = progress
kind_of (merge_progress a) = progress
kind_of (save_slot a) = slot

abbrev pub same_kind : Kind → Kind → Bool
same_kind profile profile = true
same_kind setting setting = true
same_kind progress progress = true
same_kind slot slot = true
same_kind _ _ = false

pub data Resolution : Type 0 where
  duplicate incoming superseded merged : Resolution

abbrev pub max_revision : ℕ
max_revision = 9223372036854775807

-- MAX_STATE_TIMESTAMP, in milliseconds
abbrev pub max_timestamp : ℕ
max_timestamp = 100000000000000000000000

-- an operation as the dictionary that is hashed, without its hash; the time, a float there, is whole
unfoldable pub component_items : List Component → Items
component_items [] = nil
component_items (c ∷ cs) =
    item
      (object (
        field (codes "operation_id") (string c.operation_id)
          (field (codes "payload_hash") (string c.payload_hash) end)))
      (component_items cs)

unfoldable pub items_of : List Json → Items
items_of [] = nil
items_of (v ∷ vs) = item v (items_of vs)

unfoldable pub kind_text : Kind → Text
kind_text profile = codes "profile"
kind_text setting = codes "setting"
kind_text progress = codes "progress"
kind_text slot = codes "slot"

unfoldable pub method_text : Body → Text
method_text (ensure_profile a) = codes "ensure_profile"
method_text (set_setting a) = codes "set_setting"
method_text (set_progress a) = codes "set_progress"
method_text (merge_progress a) = codes "merge_progress"
method_text (save_slot a) = codes "save_slot"

unfoldable pub argument_list : Body → Text → List Json
argument_list (ensure_profile vs) rules = vs
argument_list (set_setting vs) rules = vs
argument_list (save_slot vs) rules = vs
argument_list (set_progress a) rules =
    string a.profile_id ∷ string a.game_id ∷ string a.item ∷ a.value ∷ string rules ∷ []
argument_list (merge_progress a) rules =
    string a.profile_id ∷ string a.game_id ∷ string a.item ∷ a.value ∷ string rules ∷ []

unfoldable pub ruleset_json : Body → Text → Json
ruleset_json (ensure_profile a) rules = null
ruleset_json (set_setting a) rules = null
ruleset_json _ rules = string rules

unfoldable pub json_of : Operation → Json
json_of o = object (
    field (codes "schema_version") (integer (pos 3)) (
      field (codes "operation_id") (string o.operation_id) (
        field (codes "key") (string o.key) (
          field (codes "kind") (string (kind_text (kind_of o.body))) (
            field (codes "method") (string (method_text o.body)) (
              field (codes "args") (array (items_of (argument_list o.body o.ruleset_version))) (
                field (codes "ruleset_version") (ruleset_json o.body o.ruleset_version) (
                  field (codes "logical_revision") (integer (pos o.logical_revision)) (
                    field (codes "updated_at") (integer (pos o.updated_at)) (
                      field (codes "components") (array (component_items o.components))
                        end))))))))))

-- the dictionary {id: hash} of a list of components, where a later entry wins
unfoldable pub hash_of : Text → List Component → Option Text
hash_of id [] = none
hash_of id (c ∷ cs) =
    let later = hash_of id cs in
    elim later [
      | some h ↦ some h
      | none ↦ if text_eq c.operation_id id then some c.payload_hash else none
    ]

-- sorted(…, key=operation_id)
unfoldable pub insert_component : Component → List Component → List Component
insert_component c [] = c ∷ []
insert_component c (d ∷ ds) =
    let rest = insert_component c ds in
    if text_ltb d.operation_id c.operation_id then d ∷ rest else c ∷ d ∷ ds

unfoldable pub sort_components : List Component → List Component
sort_components [] = []
sort_components (c ∷ cs) = insert_component c (sort_components cs)

-- the entries of a list that join the dictionary, of which none may change a hash
unfoldable pub add_component :
    Component → Option Text → List Component → Result Fault (List Component)
add_component c none dict = ok (c ∷ dict)
add_component c (some h) dict =
    if text_eq h c.payload_hash then ok dict else err state_operation_conflict

unfoldable pub add_components : List Component → List Component → Result Fault (List Component)
add_components [] dict = ok dict
add_components (c ∷ cs) dict =
    add_component c (hash_of c.operation_id dict) dict >>= add_components cs

-- `_progress_components`
unfoldable pub progress_components : Operation → List Component
progress_components o = elim o.body [
  | set_progress a ↦ record { operation_id = o.operation_id; payload_hash = o.payload_hash } ∷ []
  | _ ↦ o.components
]

abbrev pub is_merge : Body → Bool
is_merge (merge_progress a) = true
is_merge _ = false

abbrev pub differs : Option Text → Option Text → Bool
differs (some h) (some k) = not (text_eq h k)
differs _ _ = false

abbrev pub is_some : Option Text → Bool
is_some none = false
is_some (some h) = true

-- over the component IDs of a list: some ID has another hash in `dict`; every ID is in `dict`
unfoldable pub any_differs : List Component → List Component → List Component → Bool
any_differs dict own [] = false
any_differs dict own (c ∷ cs) =
    differs (hash_of c.operation_id dict) (hash_of c.operation_id own) || any_differs dict own cs

unfoldable pub all_within : List Component → List Component → Bool
all_within dict [] = true
all_within dict (c ∷ cs) = is_some (hash_of c.operation_id dict) && all_within dict cs

-- `_component_relation`: whether the aggregate has absorbed the operation
unfoldable pub component_relation : Operation → Operation → Result Fault Bool
component_relation aggregate operation =
    let components = progress_components aggregate in
    let own = progress_components operation in
    if not (is_merge aggregate.body)
    then ok false
    else if any_differs components own own
    then err state_operation_conflict
    else ok (all_within components own)

-- `_order` and its comparison
abbrev pub precedes : Operation → Operation → Bool
precedes o p =
    ltb o.logical_revision p.logical_revision
    || (o.logical_revision == p.logical_revision) && text_ltb o.operation_id p.operation_id

abbrev pub same_order : Operation → Operation → Bool
same_order o p = (o.logical_revision == p.logical_revision) && text_eq o.operation_id p.operation_id
