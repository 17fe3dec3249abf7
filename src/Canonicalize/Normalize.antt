-- ===== src/Canonicalize/Normalize.antt =====
-- `normalize` of lib/cpb/canonicalize.py.
pub mod Fixed
use scitt_payload_binding.Common.{Bool, true, false}
use scitt_payload_binding.Value.{
  Value, Items, Fields, null, bool, int, float, str, bytes, arr, obj, no_items, item, no_fields,
  field,
}

-- A member with this value is dropped: null, an empty array or an empty object.
unfoldable pub is_absent : Value → Bool
is_absent null = true
is_absent (arr no_items) = true
is_absent (obj no_fields) = true
is_absent _ = false

-- The rebuilt dict gets the source's distinct keys in their order, so `out[key] = nv` appends.
unfoldable mutual
  pub normalize : Value → Value
  normalize null = null
  normalize (bool b) = bool b
  normalize (int n) = int n
  normalize (float tok) = float tok
  normalize (str s) = str s
  normalize (bytes b) = bytes b
  normalize (arr xs) = arr (normalize_items xs)
  normalize (obj fs) = obj (normalize_fields fs)

  pub normalize_items : Items → Items
  normalize_items no_items = no_items
  normalize_items (item v xs) = item (normalize v) (normalize_items xs)

  pub normalize_fields : Fields → Fields
  normalize_fields no_fields = no_fields
  normalize_fields (field k v fs) =
      let nv = normalize v in
      let rest = normalize_fields fs in
      elim (is_absent nv) [ true ↦ rest | false ↦ field k nv rest ]
