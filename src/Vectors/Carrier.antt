-- ===== src/Vectors/Carrier.antt =====
-- The Category M carrier of .github/check_vectors.py: `_strict_hex_bytes`, `_cose_sign1_parts`,
-- `_bounded_nonempty_text`, `_validate_cpb_ref_map` and the part of `_decode_cpb_carrier` that
-- decodes the pinned bytes. Its comparison with the review mirrors is Vectors/Mirror.antt.
pub mod Extracted
pub mod Fixture
use scitt_payload_binding.Common.{
  ℕ, zero, suc, Bool, true, false, ◌&&◌, ◌||◌, not, Text, Bytes, List, [], ◌∷◌, Option, none, some,
  ltb, leb, ◌==◌, if◌then◌else◌, length, codes, all, any, text_eq, is_empty,
}
use scitt_payload_binding.Common.Int.{pos}
use scitt_payload_binding.Value.{Value, int, str, obj, Fields, get, has_key}
use scitt_payload_binding.Errors.{Result, ok, err, ◌>>=◌, ◌>>◌, raise_if, value_error}
use scitt_payload_binding.Python.{Host}
use scitt_payload_binding.Canonicalize.Serialize.{encode_utf8}
use scitt_payload_binding.TypedRef.Hex.{is_bare_hex_char, from_hex}
use scitt_payload_binding.Cbor.Item.{
  Scalar, null, octets, text, Cbor, scalar, array, map, tag, Elements, no_elements, element, Pairs,
  contains, keys, count_elements,
}
use scitt_payload_binding.Cbor.Item as Item
use scitt_payload_binding.Cose.Headers.{label, is_label}
use scitt_payload_binding.Cose.Refs.{is_member_key}
use scitt_payload_binding.Vectors.Cbor.{decode_strict_cbor}
use scitt_payload_binding.Vectors.Encode.{encode_strict}

abbrev pub max_cpb_refs : ℕ
max_cpb_refs = 64

abbrev pub max_ref_type_bytes : ℕ
max_ref_type_bytes = 255

abbrev pub max_ref_purpose_bytes : ℕ
max_ref_purpose_bytes = 64

abbrev pub max_ref_digest_alg_bytes : ℕ
max_ref_digest_alg_bytes = 32

abbrev pub max_ref_digest_bytes : ℕ
max_ref_digest_bytes = 128

-- (?:[0-9a-f]{2})*
unfoldable pub is_hex_pairs : Text → Bool
is_hex_pairs [] = true
is_hex_pairs (c ∷ []) = false
is_hex_pairs (c ∷ d ∷ s) = is_bare_hex_char c && is_bare_hex_char d && is_hex_pairs s

-- _strict_hex_bytes; no value is None
unfoldable pub strict_hex_bytes : Bool → Option Value → Result Bytes
strict_hex_bytes allow_empty (some (str value)) =
    raise_if (is_empty value && not allow_empty || not (is_hex_pairs value)) value_error
    >> ok (from_hex value)
strict_hex_bytes allow_empty _ = err value_error

-- The decoded array, with the elements that are used later by their types.
pub record Sign1Array : Type 0 where
  pub decoded : Elements
  pub protected_bytes : Bytes
  pub unprotected : Pairs

unfoldable pub is_payload : Cbor → Bool
is_payload (scalar null) = true
is_payload (scalar (octets b)) = true
is_payload _ = false

unfoldable pub is_octets : Cbor → Bool
is_octets (scalar (octets b)) = true
is_octets _ = false

unfoldable pub sign1_array : Elements → Result Sign1Array
sign1_array
      (element
        (scalar (octets p))
        (element (map u) (element payload (element signature no_elements)))) =
    raise_if (not (is_payload payload)) value_error
    >> (raise_if (not (is_octets signature)) value_error
        >> ok (record {
          decoded =
              element (scalar (octets p))
                (element (map u) (element payload (element signature no_elements)));
          protected_bytes = p;
          unprotected = u;
        }))
sign1_array _ = err value_error

unfoldable pub tagged_sign1 : Cbor → Result Sign1Array
tagged_sign1 (tag n (array xs)) = if n == 18 then sign1_array xs else err value_error
tagged_sign1 _ = err value_error

-- _cose_sign1_parts
unfoldable pub cose_sign1_parts : Host → Bytes → Result Sign1Array
cose_sign1_parts host encoded = decode_strict_cbor host encoded >>= tagged_sign1

-- the encoded size is checked against the bound
unfoldable pub fits_in : ℕ → Text → Result (Unit {0})
fits_in maximum t = encode_utf8 t >>= λ encoded. raise_if (ltb maximum (length encoded)) value_error

-- _bounded_nonempty_text
unfoldable pub bounded_nonempty_text : ℕ → Option Cbor → Result (Unit {0})
bounded_nonempty_text maximum (some (scalar (text (c ∷ t)))) = fits_in maximum (c ∷ t)
bounded_nonempty_text maximum _ = err value_error

-- the checks on key 4
unfoldable pub bounded_digest : Option Cbor → Result (Unit {0})
bounded_digest (some (scalar (text (c ∷ t)))) = fits_in max_ref_digest_bytes (c ∷ t)
bounded_digest (some (scalar (octets (b ∷ bs)))) =
    raise_if (ltb max_ref_digest_bytes (length (b ∷ bs))) value_error
bounded_digest _ = err value_error

unfoldable pub optional_purpose : Host → Pairs → Result (Unit {0})
optional_purpose host ps = elim (contains host (label 2) ps) [
  | false ↦ ok tt
  | true ↦ bounded_nonempty_text max_ref_purpose_bytes (Item.get host (label 2) ps)
]

-- The keys are integers, none but 1 to 4, with 1, 3 and 4 among them.
unfoldable pub checked_ref_map : Host → Pairs → Result Pairs
checked_ref_map host ps =
    raise_if (not (all is_member_key (keys ps))) value_error
    >> (raise_if
          (not (
            contains host (label 1) ps && contains host (label 3) ps && contains host (label 4) ps))
          value_error
        >> (bounded_nonempty_text max_ref_type_bytes (Item.get host (label 1) ps)
            >> (optional_purpose host ps
                >> (bounded_nonempty_text max_ref_digest_alg_bytes (Item.get host (label 3) ps)
                    >> (bounded_digest (Item.get host (label 4) ps) >> ok ps)))))

-- _validate_cpb_ref_map
unfoldable pub validate_cpb_ref_map : Host → Cbor → Result Pairs
validate_cpb_ref_map host (map ps) = checked_ref_map host ps
validate_cpb_ref_map host _ = err value_error

unfoldable pub validated_refs : Host → Elements → Result (List Pairs)
validated_refs host no_elements = ok []
validated_refs host (element v xs) =
    validate_cpb_ref_map host v >>= λ ps. validated_refs host xs >>= λ pss. ok (ps ∷ pss)

-- equality of two members of `identity`, each a text, a byte string or None
unfoldable pub same_member : Option Cbor → Option Cbor → Bool
same_member none none = true
same_member (some (scalar (text s))) (some (scalar (text t))) = text_eq s t
same_member (some (scalar (octets s))) (some (scalar (octets t))) = text_eq s t
same_member _ _ = false

abbrev pub same_at : Host → ℕ → Pairs → Pairs → Bool
same_at host n ps qs = same_member (Item.get host (label n) ps) (Item.get host (label n) qs)

-- equality of the identities of two validated maps
unfoldable pub same_ref : Host → Pairs → Pairs → Bool
same_ref host ps qs =
    same_at host 1 ps qs && same_at host 2 ps qs && same_at host 3 ps qs && same_at host 4 ps qs

-- some identity occurs twice
unfoldable pub repeats_ref : Host → List Pairs → Bool
repeats_ref host [] = false
repeats_ref host (ps ∷ pss) = any (same_ref host ps) pss || repeats_ref host pss

-- the label of the carrier header, an integer or a text
unfoldable pub header_label : Option Value → Result Scalar
header_label (some (int n)) = ok (Scalar.int n)
header_label (some (str t)) = ok (text t)
header_label _ = err value_error

-- `protected_header.entry_index`
unfoldable pub entry_index : Option Value → Result ℕ
entry_index (some (int (pos n))) = ok n
entry_index _ = err value_error

-- validated_refs[index]; an index outside is refused
unfoldable pub select_ref : ℕ → List Pairs → Result Pairs
select_ref n [] = err value_error
select_ref zero (ps ∷ pss) = ok ps
select_ref (suc n) (ps ∷ pss) = select_ref n pss

-- the value of the carrier header: a non-empty array of distinct valid maps
unfoldable pub carried_refs : Host → Option Cbor → Result (List Pairs)
carried_refs host (some (array (element v xs))) =
    raise_if (ltb max_cpb_refs (count_elements (element v xs))) value_error
    >> (validated_refs host (element v xs) >>= λ pss.
        raise_if (repeats_ref host pss) value_error >> ok pss)
carried_refs host _ = err value_error

unfoldable pub header_map : Cbor → Result Pairs
header_map (map ps) = ok ps
header_map _ = err value_error

-- Bytes that the strict encoder gives for what was decoded from them.
unfoldable pub require_canonical : Host → Cbor → Bytes → Result (Unit {0})
require_canonical host c encoded =
    encode_strict host c >>= λ b. raise_if (not (text_eq b encoded)) value_error

-- the protected header of the fixture
unfoldable pub fixture_header : Host → Bytes → Result Pairs
fixture_header host protected_bytes = decode_strict_cbor host protected_bytes >>= λ c.
    header_map c >>= λ header.
    raise_if (not (all is_label (keys header))) value_error
    >> (require_canonical host (map header) protected_bytes >> ok header)

-- a metadata member: absent, or this string
unfoldable pub stated_as : Text → Option Value → Bool
stated_as expected none = true
stated_as expected (some (str t)) = text_eq t expected
stated_as expected (some _) = false

-- the checks on the enveloping COSE_Sign1
unfoldable pub fixture_envelope : Host → Fields → Scalar → Bytes → Result Bytes
fixture_envelope host v key protected_bytes =
    strict_hex_bytes false (get (codes "cose_sign1_bytes_hex") v) >>= λ cose_bytes.
    cose_sign1_parts host cose_bytes >>= λ parts.
    require_canonical host (tag 18 (array parts.decoded)) cose_bytes
    >> (raise_if (not (text_eq parts.protected_bytes protected_bytes)) value_error
        >> (raise_if (not (all is_label (keys parts.unprotected))) value_error
            >> (raise_if (contains host key parts.unprotected) value_error >> ok cose_bytes)))

-- What the fixture carries, and the selected reference.
pub record FixtureCarrier : Type 0 where
  pub header : Pairs
  pub key : Scalar
  pub refs : List Pairs
  pub index : ℕ
  pub ref_map : Pairs
  pub protected_bytes : Bytes
  pub cose_bytes : Bytes

-- _decode_cpb_carrier on the carrier object `protected_header`, up to the review mirrors
unfoldable pub carrier_of : Host → Fields → Fields → Result FixtureCarrier
carrier_of host v carrier =
    strict_hex_bytes false (get (codes "bytes_hex") carrier) >>= λ protected_bytes.
    fixture_header host protected_bytes >>= λ header.
    header_label (get (codes "cpb_refs_label") carrier) >>= λ key.
    carried_refs host (Item.get host key header) >>= λ refs.
    entry_index (get (codes "entry_index") carrier) >>= λ index.
    select_ref index refs >>= λ ref_map.
    raise_if (not (stated_as (codes "envelope-header") (get (codes "carriage") v))) value_error
    >> (raise_if (not (stated_as (codes "cpb-refs") (get (codes "header_parameter") v))) value_error
        >> (fixture_envelope host v key protected_bytes >>= λ cose_bytes. ok (record {
          header = header;
          key = key;
          refs = refs;
          index = index;
          ref_map = ref_map;
          protected_bytes = protected_bytes;
          cose_bytes = cose_bytes;
        })))

unfoldable pub decode_carrier : Host → Fields → Result FixtureCarrier
decode_carrier host v = elim (get (codes "protected_header") v) [
  | some (obj carrier) ↦ carrier_of host v carrier
  | _ ↦ err value_error
]
