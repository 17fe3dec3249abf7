-- ===== src/Value.antt =====
-- The Python values that reach the library (lib/cpb): what a JSON document parses to, and `bytes`.
-- A `dict` is its members in insertion order. A `float` is the token that `float(tok)` was given,
-- since the library never computes with a float: it only tests that a value is one.
pub mod Keys
pub mod Reorder
use scitt_payload_binding.Common.{
  Bool, true, false, not, Text, Bytes, Option, none, some, text_eq, text_in, List,
}
use scitt_payload_binding.Common.Int.{ℤ}

mutual
  pub data Value : Type 0 where
    null : Value
    bool : Bool → Value
    int : ℤ → Value
    float : Text → Value
    str : Text → Value
    bytes : Bytes → Value
    arr : Items → Value
    obj : Fields → Value

  pub data Items : Type 0 where
    no_items : Items
    item : Value → Items → Items

  pub data Fields : Type 0 where
    no_fields : Fields
    field : Text → Value → Fields → Fields

-- d.get(key)
unfoldable pub get : Text → Fields → Option Value
get key no_fields = none
get key (field k v fs) = elim (text_eq key k) [ true ↦ some v | false ↦ get key fs ]

-- key in d
unfoldable pub has_key : Text → Fields → Bool
has_key key no_fields = false
has_key key (field k v fs) = elim (text_eq key k) [ true ↦ true | false ↦ has_key key fs ]

-- d[key] = value: a known key keeps its place and takes the new value
unfoldable pub set : Text → Value → Fields → Fields
set key w no_fields = field key w no_fields
set key w (field k v fs) = elim (text_eq key k) [
  | true ↦ field k w fs
  | false ↦ field k v (set key w fs)
]

-- l.append(value)
unfoldable pub append_item : Items → Value → Items
append_item no_items w = item w no_items
append_item (item v xs) w = item v (append_item xs w)

-- {k: val for k, val in d.items() if k not in excluded}
unfoldable pub without_keys : List Text → Fields → Fields
without_keys excluded no_fields = no_fields
without_keys excluded (field k v fs) = elim (text_in k excluded) [
  | true ↦ without_keys excluded fs
  | false ↦ field k v (without_keys excluded fs)
]
