-- ===== src/Vectors/Derivation.antt =====
-- `_check_member_mapping_derivation` of .github/check_vectors.py, with the reading of a mapping from
-- the vector. The sentence of a problem is left out; the two for an exception are one problem here. An
-- AttributeError is `type_error`.
pub mod Matched
use scitt_payload_binding.Common.{
  Bool, true, false, ◌||◌, not, Text, List, [], ◌∷◌, Option, none, some, ◌==◌, if◌then◌else◌, codes,
  text_eq, is_empty,
}
use scitt_payload_binding.Common.Int.{ℤ, pos, int_eq}
use scitt_payload_binding.Value.{
  Value, null, bool, int, float, str, bytes, arr, obj, Items, no_items, item, Fields, no_fields,
  field, get,
}
use scitt_payload_binding.Errors.{
  Error, Result, ok, err, out_of_fuel, ◌>>=◌, key_error, type_error, value_error,
}
use scitt_payload_binding.Vectors.Canonical.{jcs}
use scitt_payload_binding.Vectors.Mapping.{
  FieldEntry, ConstantEntry, MemberMapping, apply_member_mapping,
}

pub data Problem : Type 0 where
  declared_null not_an_object declared_empty : Problem
  no_source_object no_input not_applied derives_another : Problem

-- bool(value), with the truth of the float of a token
unfoldable pub truthy : (Text → Bool) → Option Value → Bool
truthy float_truth none = false
truthy float_truth (some null) = false
truthy float_truth (some (bool b)) = b
truthy float_truth (some (int n)) = not (int_eq n (pos 0))
truthy float_truth (some (float tok)) = float_truth tok
truthy float_truth (some (str s)) = not (is_empty s)
truthy float_truth (some (bytes b)) = not (is_empty b)
truthy float_truth (some (arr no_items)) = false
truthy float_truth (some (arr (item v xs))) = true
truthy float_truth (some (obj no_fields)) = false
truthy float_truth (some (obj (field k v fs))) = true

-- entry[key] of a pointer: a pointer that is no string is refused as it is parsed
unfoldable pub pointer_member : Text → Fields → Result Text
pointer_member key fs = elim (get key fs) [
  | none ↦ err key_error
  | some (str t) ↦ ok t
  | some _ ↦ err value_error
]

unfoldable pub member_value : Text → Fields → Result Value
member_value key fs = elim (get key fs) [ none ↦ err key_error | some v ↦ ok v ]

unfoldable pub field_entries : Items → Result (List FieldEntry)
field_entries no_items = ok []
field_entries (item (obj f) xs) = pointer_member (codes "preimage_pointer") f >>= λ preimage.
    pointer_member (codes "source_pointer") f >>= λ source. field_entries xs >>= λ rest.
    ok (record { source_pointer = source; preimage_pointer = preimage } ∷ rest)
field_entries (item _ xs) = err type_error

unfoldable pub constant_entries : Items → Result (List ConstantEntry)
constant_entries no_items = ok []
constant_entries (item (obj c) xs) = pointer_member (codes "preimage_pointer") c >>= λ preimage.
    member_value (codes "value") c >>= λ v.
    constant_entries xs >>= λ rest. ok (record { preimage_pointer = preimage; value = v } ∷ rest)
constant_entries (item _ xs) = err type_error

-- `mapping.get(key) or []`; iterating over another value gives no objects
unfoldable pub entry_items : (Text → Bool) → Option Value → Result Items
entry_items float_truth (some (arr xs)) = ok xs
entry_items float_truth o = if truthy float_truth o then err type_error else ok no_items

unfoldable pub read_mapping : (Text → Bool) → Fields → Result MemberMapping
read_mapping float_truth mapping = entry_items float_truth (get (codes "fields") mapping) >>= λ fs.
    entry_items float_truth (get (codes "constants") mapping) >>= λ cs.
    field_entries fs >>= λ fields.
    constant_entries cs >>= λ constants. ok (record { fields = fields; constants = constants })

-- the comparison of what was derived with the vector's input; the serializer may raise
unfoldable pub compare_derived : Value → Result Fields → Result (Option Problem)
compare_derived input (ok derived) = jcs (obj derived) >>= λ a.
    jcs input >>= λ b. ok (if text_eq a b then none else some derives_another)
compare_derived input (err e) = ok (some not_applied)
compare_derived input out_of_fuel = out_of_fuel

unfoldable pub check_mapping :
    (Text → Bool) → Fields → Option Value → Option Value → Result (Option Problem)
check_mapping float_truth mapping (some (obj source)) (some input) =
    compare_derived input
      (read_mapping float_truth mapping >>= λ m. apply_member_mapping (obj source) m)
check_mapping float_truth mapping (some (obj source)) none = ok (some no_input)
check_mapping float_truth mapping _ input = ok (some no_source_object)

-- the declared mapping, if there is one
unfoldable pub check_declared : (Text → Bool) → Fields → Option Value → Result (Option Problem)
check_declared float_truth v none = ok none
check_declared float_truth v (some null) = ok (some declared_null)
check_declared float_truth v (some (obj mapping)) =
    if truthy float_truth (get (codes "fields") mapping)
      || truthy float_truth (get (codes "constants") mapping)
    then check_mapping float_truth mapping (get (codes "source_object") v) (get (codes "input") v)
    else ok (some declared_empty)
check_declared float_truth v (some _) = ok (some not_an_object)

-- `v.get("declared_digest_context") or {}`, which must be an object when it is true
unfoldable pub check_context : (Text → Bool) → Fields → Option Value → Result (Option Problem)
check_context float_truth v (some (obj ctx)) =
    check_declared float_truth v (get (codes "member_mapping") ctx)
check_context float_truth v o = if truthy float_truth o then err type_error else ok none

unfoldable pub check_member_mapping_derivation : (Text → Bool) → Fields → Result (Option Problem)
check_member_mapping_derivation float_truth v =
    check_context float_truth v (get (codes "declared_digest_context") v)
