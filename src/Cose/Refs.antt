-- ===== src/Cose/Refs.antt =====
-- The cpb-refs carrier of lib/cpb/cose_refs.py: `_nonempty_text`, `_validate_reference_map` and
-- `_extract_cpb_refs_from_cose`.
pub mod Extracted
use scitt_payload_binding.Common.{
  ℕ, Bool, true, false, ◌&&◌, ◌||◌, not, Text, List, [], ◌∷◌, Option, none, some, ltb, ◌==◌, length,
  all, any, text_eq,
}
use scitt_payload_binding.Common.Int.{pos}
use scitt_payload_binding.Errors.{
  Result, ok, err, ◌>>=◌, ◌>>◌, raise_if, cpb_refs_error, cpb_refs_location,
}
use scitt_payload_binding.Python.{Host}
use scitt_payload_binding.Canonicalize.Serialize.{encode_utf8}
use scitt_payload_binding.TypedRef.Reference.{Digest, digest_text, digest_octets, TypedRef}
use scitt_payload_binding.Cbor.Item.{
  Scalar, int, octets, text, Cbor, scalar, array, map, Elements, no_elements, element, Pairs, get,
  contains, keys, has_same_key, count_elements,
}
use scitt_payload_binding.Cose.Sign1.{CoseSign1}
use scitt_payload_binding.Cose.Headers.{label}

abbrev pub max_refs : ℕ
max_refs = 64

abbrev pub max_type_bytes : ℕ
max_type_bytes = 255

abbrev pub max_purpose_bytes : ℕ
max_purpose_bytes = 64

abbrev pub max_digest_alg_bytes : ℕ
max_digest_alg_bytes = 32

abbrev pub max_digest_bytes : ℕ
max_digest_bytes = 128

-- the encoded size is checked against the bound
unfoldable pub bounded : ℕ → Text → Result (Unit {0})
bounded maximum t =
    encode_utf8 t >>= λ encoded. raise_if (ltb maximum (length encoded)) cpb_refs_error

-- _nonempty_text
unfoldable pub nonempty_text : ℕ → Option Cbor → Result Text
nonempty_text maximum (some (scalar (text (c ∷ t)))) = bounded maximum (c ∷ t) >> ok (c ∷ t)
nonempty_text maximum _ = err cpb_refs_error

-- the digest member: a non-empty text or byte string within the bound
unfoldable pub digest_of : Option Cbor → Result Digest
digest_of (some (scalar (text (c ∷ t)))) =
    bounded max_digest_bytes (c ∷ t) >> ok (digest_text (c ∷ t))
digest_of (some (scalar (octets (b ∷ bs)))) =
    raise_if (ltb max_digest_bytes (length (b ∷ bs))) cpb_refs_error >> ok (digest_octets (b ∷ bs))
digest_of _ = err cpb_refs_error

-- a member key of the closed map
unfoldable pub is_member_key : Scalar → Bool
is_member_key (int (pos n)) = n == 1 || n == 2 || n == 3 || n == 4
is_member_key _ = false

-- the optional member 2
unfoldable pub purpose_of : Host → Pairs → Result (Option Text)
purpose_of host ps = elim (contains host (label 2) ps) [
  | false ↦ ok none
  | true ↦ nonempty_text max_purpose_bytes (get host (label 2) ps) >>= λ p. ok (some p)
]

unfoldable pub reference_of : Host → Pairs → Result TypedRef
reference_of host ps =
    raise_if (not (all is_member_key (keys ps))) cpb_refs_error
    >> (raise_if
          (not (
            contains host (label 1) ps && contains host (label 3) ps && contains host (label 4) ps))
          cpb_refs_error
        >> (nonempty_text max_type_bytes (get host (label 1) ps) >>= λ artifact_type.
            purpose_of host ps >>= λ purpose.
            nonempty_text max_digest_alg_bytes (get host (label 3) ps) >>= λ digest_alg.
            digest_of (get host (label 4) ps) >>= λ digest. ok (record {
              type = artifact_type;
              digest_alg = digest_alg;
              digest = digest;
              purpose = purpose;
            })))

-- _validate_reference_map
unfoldable pub validate_reference_map : Host → Cbor → Result TypedRef
validate_reference_map host (map ps) = reference_of host ps
validate_reference_map host _ = err cpb_refs_error

unfoldable pub reference_list : Host → Elements → Result (List TypedRef)
reference_list host no_elements = ok []
reference_list host (element v xs) =
    validate_reference_map host v >>= λ r. reference_list host xs >>= λ rs. ok (r ∷ rs)

abbrev pub same_digest : Digest → Digest → Bool
same_digest (digest_text a) (digest_text b) = text_eq a b
same_digest (digest_octets a) (digest_octets b) = text_eq a b
same_digest (digest_text a) (digest_octets b) = false
same_digest (digest_octets a) (digest_text b) = false

abbrev pub same_purpose : Option Text → Option Text → Bool
same_purpose none none = true
same_purpose (some a) (some b) = text_eq a b
same_purpose none (some b) = false
same_purpose (some a) none = false

-- equality of the `identity` tuples
unfoldable pub same_identity : TypedRef → TypedRef → Bool
same_identity r s =
    text_eq r.type s.type
    && same_purpose r.purpose s.purpose
    && text_eq r.digest_alg s.digest_alg
    && same_digest r.digest s.digest

-- some identity occurs twice
unfoldable pub repeats : List TypedRef → Bool
repeats [] = false
repeats (r ∷ rs) = any (same_identity r) rs || repeats rs

-- the value of the carrier header
unfoldable pub carrier_refs : Host → Option Cbor → Result (List TypedRef)
carrier_refs host (some (array (element v xs))) =
    raise_if (ltb max_refs (count_elements (element v xs))) cpb_refs_error
    >> (reference_list host (element v xs) >>= λ refs.
        raise_if (repeats refs) cpb_refs_error >> ok refs)
carrier_refs host _ = err cpb_refs_error

-- The keyword arguments of the extraction.
pub record Carriage : Type 0 where
  pub required : Bool
  pub require_critical : Bool

-- _extract_cpb_refs_from_cose
unfoldable pub extract_refs :
    Host → CoseSign1 → Scalar → Carriage → List Scalar → Result (List TypedRef)
extract_refs host cose key carriage critical =
    raise_if (contains host key cose.unprotected) cpb_refs_location
    >> elim (contains host key cose.protected) [
      | false ↦ raise_if carriage.required cpb_refs_location >> ok []
      | true ↦
          raise_if (carriage.require_critical && not (has_same_key host key critical))
            cpb_refs_error
          >> carrier_refs host (get host key cose.protected)
    ]
