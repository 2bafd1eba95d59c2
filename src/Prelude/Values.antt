-- ===== src/Prelude/Values.antt =====
-- The values of JSON columns, and Python's dicts of them: association lists in insertion order.
use eidolon_data.Prelude.Tests.{if◌then◌else◌, ◌==◌, ==→≡, string_eq}
use mathlib.Core.Path.{◌≡◌, refl, ap}
use mathlib.Core.Option.{Option, none, some}
use native.Mathlib.Omega.{arith}
use Prim.Native.Nat.{ℕ}
use Prim.Native.String.{String}
use mathlib.Core.Bool.{Bool, false, true}
use mathlib.Core.List.{List, [], ◌∷◌}

mutual
  pub data Json : Type 0 where
    null : Json
    bool : Bool → Json
    num : ℕ → Json
    str : String → Json
    arr : Items → Json
    obj : Fields → Json

  pub data Items : Type 0 where
    nil : Items
    cons : Json → Items → Items

  pub data Fields : Type 0 where
    end : Fields
    field : String → Json → Fields → Fields

abbrev pub JsonDict : Type 0
JsonDict = List (String × Json)

-- `d.get(key)`
abbrev pub dict_get : String → JsonDict → Option Json
dict_get key [] = none
dict_get key ((k, v) ∷ d) = if k == key then some v else dict_get key d

-- `d[key] = value`
abbrev pub dict_set : String → Json → JsonDict → JsonDict
dict_set key value [] = (key, value) ∷ []
dict_set key value ((k, v) ∷ d) = if k == key then (k, value) ∷ d else (k, v) ∷ dict_set key value d

-- `{**d, **e}`
abbrev pub dict_update : JsonDict → JsonDict → JsonDict
dict_update d [] = d
dict_update d ((k, v) ∷ e) = dict_update (dict_set k v d) e

abbrev pub to_fields : JsonDict → Fields
to_fields [] = end
to_fields ((k, v) ∷ d) = field k v (to_fields d)

abbrev pub of_fields : Fields → JsonDict
of_fields end = []
of_fields (field k v d) = (k, v) ∷ of_fields d

-- `dict(value or {})`, `none` where it raises. The program stores no list of pairs here, which Python
-- would take for a dict.
abbrev pub as_dict : Option Json → Option JsonDict
as_dict none = some []
as_dict (some null) = some []
as_dict (some (bool false)) = some []
as_dict (some (bool true)) = none
as_dict (some (num Prim.Native.Nat.zero)) = some []
as_dict (some (num _)) = none
as_dict (some (str Prim.Native.String.[])) = some []
as_dict (some (str _)) = none
as_dict (some (arr nil)) = some []
as_dict (some (arr _)) = none
as_dict (some (obj d)) = some (of_fields d)

-- `if value:` of an entry that is a dict, when it is there
abbrev pub truthy : Option Json → Option Json
truthy none = none
truthy (some null) = none
truthy (some (bool false)) = none
truthy (some (num Prim.Native.Nat.zero)) = none
truthy (some (str Prim.Native.String.[])) = none
truthy (some (arr nil)) = none
truthy (some (obj end)) = none
truthy (some value) = some value

abbrev pub str_or_null : Option String → Json
str_or_null none = null
str_or_null (some s) = str s

pub of_fields-to_fields : (d : JsonDict) → of_fields (to_fields d) ≡ d
of_fields-to_fields [] = refl
of_fields-to_fields ((k, v) ∷ d) = ap (λ r. (k, v) ∷ r) (of_fields-to_fields d)

pub dict_get-dict_set :
    (key : String) (k : String) (v : Json) (d : JsonDict)
    → dict_get key (dict_set k v d) ≡ (if k == key then some v else dict_get key d)
dict_get-dict_set key k v [] = refl
dict_get-dict_set key k v ((j, w) ∷ d) =
    ground (arith, dict_get-dict_set key k v d, ==→≡ j k, ==→≡ j key, ==→≡ k key)
