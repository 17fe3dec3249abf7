-- ===== src/Vectors/Mapping.antt =====
-- Member mappings in .github/check_vectors.py: `_check_destination_collisions` and
-- `_apply_member_mapping`. A mapping is a record of its entries, whose pointers are strings.
pub mod Assign
pub mod Derived
use scitt_payload_binding.Common.{
  ℕ, Bool, true, false, ◌&&◌, ◌||◌, Text, List, [], ◌∷◌, ◌++◌, map, Option, none, some, leb, length,
  if◌then◌else◌, text_eq, any,
}
use scitt_payload_binding.Value.{
  Value, null, bool, int, float, str, bytes, arr, Fields, obj, no_fields, get, set,
}
use scitt_payload_binding.Errors.{Result, ok, err, ◌>>=◌, ◌>>◌, raise_if, value_error}
use scitt_payload_binding.Vectors.Pointer.{parse_json_pointer, resolve_source_pointer}

-- An entry of `fields`, and one of `constants`.
pub record FieldEntry : Type 0 where
  pub source_pointer : Text
  pub preimage_pointer : Text

pub record ConstantEntry : Type 0 where
  pub preimage_pointer : Text
  pub value : Value

pub record MemberMapping : Type 0 where
  pub fields : List FieldEntry
  pub constants : List ConstantEntry

-- shorter == longer[:len(shorter)]
unfoldable pub is_prefix : List Text → List Text → Bool
is_prefix [] us = true
is_prefix (t ∷ ts) [] = false
is_prefix (t ∷ ts) (u ∷ us) = text_eq t u && is_prefix ts us

-- The two are equal, or one is an ancestor of the other.
unfoldable pub collide : List Text → List Text → Bool
collide a b = if leb (length a) (length b) then is_prefix a b else is_prefix b a

unfoldable pub some_collide : List (List Text) → Bool
some_collide [] = false
some_collide (a ∷ bs) = any (collide a) bs || some_collide bs

unfoldable pub parse_pointers : List Text → Result (List (List Text))
parse_pointers [] = ok []
parse_pointers (d ∷ ds) = parse_json_pointer d >>= λ ts. parse_pointers ds >>= λ tss. ok (ts ∷ tss)

unfoldable pub check_destination_collisions : List Text → Result (Unit {0})
check_destination_collisions destinations =
    parse_pointers destinations >>= λ parsed. raise_if (some_collide parsed) value_error

-- the members of a value that `setdefault` gave
unfoldable pub inner_fields : Option Value → Result Fields
inner_fields none = ok no_fields
inner_fields (some (obj fs)) = ok fs
inner_fields (some _) = err value_error

-- The walk with `setdefault`, and the assignment at its end. A parsed pointer has a token.
unfoldable pub assign : List Text → Value → Fields → Result Fields
assign [] v fs = ok fs
assign (t ∷ []) v fs = ok (set t v fs)
assign (t ∷ u ∷ ts) v fs =
    inner_fields (get t fs) >>= λ gs. assign (u ∷ ts) v gs >>= λ hs. ok (set t (obj hs) fs)

-- the destinations of the fields and of the constants
abbrev pub destinations : MemberMapping → List Text
destinations mapping =
    map (λ (f : FieldEntry). f.preimage_pointer) mapping.fields
    ++ map (λ (c : ConstantEntry). c.preimage_pointer) mapping.constants

-- the destinations of the fields with the values of their sources
unfoldable pub field_values : Value → List FieldEntry → Result (List (Text × Value))
field_values source [] = ok []
field_values source (f ∷ fs) = resolve_source_pointer source f.source_pointer >>= λ v.
    field_values source fs >>= λ rest. ok ((f.preimage_pointer, v) ∷ rest)

abbrev pub constant_values : List ConstantEntry → List (Text × Value)
constant_values cs = map (λ (c : ConstantEntry). (c.preimage_pointer, c.value)) cs

-- the loop over the destinations and their values
unfoldable pub assign_all : List (Text × Value) → Fields → Result Fields
assign_all [] out = ok out
assign_all ((dest, v) ∷ rest) out =
    parse_json_pointer dest >>= λ ts. assign ts v out >>= λ out'. assign_all rest out'

unfoldable pub apply_member_mapping : Value → MemberMapping → Result Fields
apply_member_mapping source mapping =
    check_destination_collisions (destinations mapping)
    >> (field_values source mapping.fields >>= λ found.
        assign_all (found ++ constant_values mapping.constants) no_fields)
