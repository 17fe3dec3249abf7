-- ===== src/Vectors/Mirror.antt =====
-- The review mirrors of .github/check_vectors.py: `_cbor_json_mirror` on a validated map, the end of
-- `_decode_cpb_carrier` that compares the mirrors with the selected map, and the whole function.
pub mod Reviewed
use scitt_payload_binding.Common.{
  ℕ, zero, suc, Bool, true, false, ◌&&◌, ◌||◌, not, Text, Bytes, Option, none, some, ◌==◌, codes,
  text_eq,
}
use scitt_payload_binding.Value.{Value, null, str, obj, Fields, no_fields, field, get, has_key}
use scitt_payload_binding.Errors.{Result, ok, err, ◌>>=◌, ◌>>◌, raise_if, value_error}
use scitt_payload_binding.Python.{Host, int_text}
use scitt_payload_binding.Canonicalize.Digest.{hex}
use scitt_payload_binding.Cbor.Item.{
  Scalar, int, octets, text, Cbor, scalar, Pairs, no_pairs, pair, contains,
}
use scitt_payload_binding.Cbor.Item as Item
use scitt_payload_binding.Cose.Headers.{label}
use scitt_payload_binding.Vectors.Carrier.{FixtureCarrier, decode_carrier}

-- A validated map has only texts and byte strings as values.
unfoldable pub mirror_value : Cbor → Value
mirror_value (scalar (octets b)) = obj (field (codes "bytes_hex") (str (hex b)) no_fields)
mirror_value (scalar (text t)) = str t
mirror_value _ = null

-- and only integers as keys
unfoldable pub mirror_key : Scalar → Text
mirror_key (int n) = int_text n
mirror_key _ = codes ""

-- _cbor_json_mirror
unfoldable pub cbor_json_mirror : Pairs → Fields
cbor_json_mirror no_pairs = no_fields
cbor_json_mirror (pair k v ps) = field (mirror_key k) (mirror_value v) (cbor_json_mirror ps)

unfoldable pub count_fields : Fields → ℕ
count_fields no_fields = zero
count_fields (field k v fs) = suc (count_fields fs)

-- `actual.get(key) == value`, of a string
unfoldable pub is_string : Text → Option Value → Bool
is_string expected (some (str t)) = text_eq t expected
is_string expected _ = false

-- Equality of a value with a mirror, which is made of strings and objects. Equal objects have as
-- many members, and equal ones under each key of the mirror.
unfoldable mutual
  pub mirrors : Value → Option Value → Bool
  mirrors (str t) actual = is_string t actual
  mirrors (obj fs) (some (obj gs)) = count_fields fs == count_fields gs && mirrors_all fs gs
  mirrors _ actual = false

  pub mirrors_all : Fields → Fields → Bool
  mirrors_all no_fields gs = true
  mirrors_all (field k v fs) gs = mirrors v (get k gs) && mirrors_all fs gs

-- the `cbor_map_entry` mirror
unfoldable pub check_cbor_mirror : Pairs → Option Value → Result (Unit {0})
check_cbor_mirror ref_map none = ok tt
check_cbor_mirror ref_map (some null) = ok tt
check_cbor_mirror ref_map (some (obj mirror)) =
    raise_if (not (mirrors (obj (cbor_json_mirror ref_map)) (some (obj mirror)))) value_error
check_cbor_mirror ref_map (some _) = err value_error

-- the member of the `typed_reference` mirror, against a text of the map
unfoldable pub mirrors_text : Option Cbor → Option Value → Bool
mirrors_text (some (scalar (text t))) actual = is_string t actual
mirrors_text _ actual = false

unfoldable pub mirrors_digest : Option Cbor → Fields → Bool
mirrors_digest (some (scalar (octets b))) mirror =
    is_string (hex b) (get (codes "digest_bytes_hex") mirror)
mirrors_digest digest mirror = mirrors_text digest (get (codes "digest") mirror)

-- a purpose agrees, or neither side has one
unfoldable pub mirrors_purpose : Host → Pairs → Fields → Bool
mirrors_purpose host ref_map mirror = elim (contains host (label 2) ref_map) [
  | true ↦ mirrors_text (Item.get host (label 2) ref_map) (get (codes "purpose") mirror)
  | false ↦ not (has_key (codes "purpose") mirror)
]

-- the `typed_reference` mirror
unfoldable pub check_typed_mirror : Host → Pairs → Option Value → Result (Unit {0})
check_typed_mirror host ref_map none = ok tt
check_typed_mirror host ref_map (some null) = ok tt
check_typed_mirror host ref_map (some (obj mirror)) =
    raise_if
      (not (
        mirrors_text (Item.get host (label 1) ref_map) (get (codes "type") mirror)
        && mirrors_text (Item.get host (label 3) ref_map) (get (codes "digest_alg") mirror)
        && mirrors_digest (Item.get host (label 4) ref_map) mirror
        && mirrors_purpose host ref_map mirror))
      value_error
check_typed_mirror host ref_map (some _) = err value_error

-- _decode_cpb_carrier
unfoldable pub decode_cpb_carrier : Host → Fields → Result FixtureCarrier
decode_cpb_carrier host v = decode_carrier host v >>= λ c.
    check_cbor_mirror c.ref_map (get (codes "cbor_map_entry") v)
    >> (check_typed_mirror host c.ref_map (get (codes "typed_reference") v) >> ok c)
