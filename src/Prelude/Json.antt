-- ===== src/Prelude/Json.antt =====
-- What `json.loads` returns: JSON values as Python objects. A float is the text that `repr`
-- writes of it, since the code only asks for its type or whether it is zero.
use mathlib.Core.Bool.{Bool, true, false, ◌&&◌, ◌||◌}
use mathlib.Core.Option.{Option, none, some}
use mathlib.Core.List.{List, [], ◌∷◌}
use classic_games.Prelude.Tests.{◌==◌, if◌then◌else◌}
use classic_games.Prelude.Int.{ℤ, pos, negsuc}
use classic_games.Prelude.Texts.{Text, codes, text_eq}

mutual
  pub data Json : Type 0 where
    null : Json
    boolean : Bool → Json
    integer : ℤ → Json
    real : Text → Json
    string : Text → Json
    array : Items → Json
    object : Fields → Json

  pub data Items : Type 0 where
    nil : Items
    item : Json → Items → Items

  pub data Fields : Type 0 where
    end : Fields
    field : Text → Json → Fields → Fields

-- value.get(key)
unfoldable pub get : Text → Fields → Option Json
get k end = none
get k (field j v rest) = let later = get k rest in if text_eq j k then some v else later

abbrev pub has_text : List Text → Text → Bool
has_text [] k = false
has_text (j ∷ texts) k = text_eq j k || has_text texts k

-- set(value) <= allowed
unfoldable pub keys_within : List Text → Fields → Bool
keys_within allowed end = true
keys_within allowed (field k v rest) = has_text allowed k && keys_within allowed rest

-- bool(value)
unfoldable pub truthy : Json → Bool
truthy null = false
truthy (boolean b) = b
truthy (integer (pos n)) = if n == 0 then false else true
truthy (integer (negsuc n)) = true
truthy (real t) = if text_eq t (codes "0.0") || text_eq t (codes "-0.0") then false else true
truthy (string []) = false
truthy (string (c ∷ s)) = true
truthy (array nil) = false
truthy (array (item v rest)) = true
truthy (object end) = false
truthy (object (field k v rest)) = true
