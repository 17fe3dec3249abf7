-- ===== src/TypedRef/Reference.antt =====
-- `TypedRef`, `_check_representation`, `_prepare_reference` and `_compare_recomputed` of
-- lib/cpb/typed_ref.py.
pub mod Prepared
use scitt_payload_binding.Common.{
  ℕ, Bool, true, false, ◌&&◌, ◌||◌, not, Text, Bytes, List, [], ◌∷◌, ◌++◌, Option, none, some,
  if◌then◌else◌, codes, text_eq, starts_with, drop, length, ◌==◌,
}
use scitt_payload_binding.Errors.{
  Result, ok, err, ◌>>◌, ◌>>=◌, raise_if, value_error, type_error, key_error, typed_ref_error,
  purpose_mismatch, digest_algorithm_mismatch, representation_mismatch, unsupported_context,
  context_mismatch,
}
use scitt_payload_binding.TypedRef.Hex.{is_bare_hex_256, raw_to_hex}
use scitt_payload_binding.TypedRef.Context.{
  ArtifactDigestContext, bare_hex, sha256_prefixed, raw_name,
}
use scitt_payload_binding.TypedRef.Select.{require_executable_context}

-- `str | bytes`
pub data Digest : Type 0 where
  digest_text : Text → Digest
  digest_octets : Bytes → Digest

pub record TypedRef : Type 0 where
  pub type : Text
  pub digest_alg : Text
  pub digest : Digest
  pub purpose : Option Text

-- `TypedRef | dict[str, str]`
pub data Reference : Type 0 where
  ref : TypedRef → Reference
  mapping : List (Text × Text) → Reference

-- mapping.get(key)
unfoldable pub get_text : Text → List (Text × Text) → Option Text
get_text key [] = none
get_text key ((k, v) ∷ m) = elim (text_eq key k) [ true ↦ some v | false ↦ get_text key m ]

-- mapping[key]
unfoldable pub require_text : Text → List (Text × Text) → Result Text
require_text key m = elim (get_text key m) [ none ↦ err key_error | some v ↦ ok v ]

-- TypedRef.as_dict
unfoldable pub as_dict : TypedRef → Result (List (Text × Text))
as_dict r = elim r.digest [
  | digest_octets b ↦ err type_error
  | digest_text t ↦ ok (
      (codes "type", r.type)
      ∷ (codes "digest_alg", r.digest_alg)
      ∷ (codes "digest", t)
      ∷ elim r.purpose [ none ↦ [] | some p ↦ (codes "purpose", p) ∷ [] ])
]

unfoldable pub carried_purpose : Reference → Option Text
carried_purpose (ref r) = r.purpose
carried_purpose (mapping m) = get_text (codes "purpose") m

-- str(ref_type): a missing type is the text "None"
unfoldable pub carried_type : Reference → Text
carried_type (ref r) = r.type
carried_type (mapping m) = elim (get_text (codes "type") m) [ none ↦ codes "None" | some t ↦ t ]

-- the `TypedRef` of a mapping
unfoldable pub as_typed_ref : Reference → Result TypedRef
as_typed_ref (ref r) = ok r
as_typed_ref (mapping m) = require_text (codes "type") m >>= λ t.
    require_text (codes "digest_alg") m >>= λ alg. require_text (codes "digest") m >>= λ d.
    ok (record {
      type = t;
      digest_alg = alg;
      digest = digest_text d;
      purpose = get_text (codes "purpose") m;
    })

abbrev pub sha256_colon : Text
sha256_colon = codes "sha256:"

abbrev pub is_prefixed_hex : Text → Bool
is_prefixed_hex t = starts_with t sha256_colon && is_bare_hex_256 (drop 7 t)

-- the test of a digest against one of the three representations
unfoldable pub has_representation : Text → Digest → Bool
has_representation representation (digest_text t) =
    if text_eq representation bare_hex
    then is_bare_hex_256 t
    else text_eq representation sha256_prefixed && is_prefixed_hex t
has_representation representation (digest_octets b) =
    text_eq representation raw_name && length b == 32

abbrev pub is_known_representation : Text → Bool
is_known_representation r = text_eq r bare_hex || text_eq r sha256_prefixed || text_eq r raw_name

unfoldable pub check_representation : Digest → Text → Result (Unit {0})
check_representation digest representation =
    if is_known_representation representation
    then raise_if (not (has_representation representation digest)) representation_mismatch
    else err unsupported_context

-- _ALGORITHM_DIGEST_ALG of every algorithm
abbrev pub sha_256 : Text
sha_256 = codes "SHA-256"

-- `carried is not None and carried != expected`
abbrev pub purpose_differs : Option Text → Text → Bool
purpose_differs none expected = false
purpose_differs (some carried) expected = not (text_eq carried expected)

unfoldable pub prepare_reference : Reference → ArtifactDigestContext → Result TypedRef
prepare_reference reference entry = as_typed_ref reference >>= λ r.
    raise_if (not (text_eq entry.name r.type)) typed_ref_error
    >> (raise_if (purpose_differs (carried_purpose reference) entry.purpose) purpose_mismatch
        >> (require_executable_context entry
            >> (raise_if (not (text_eq r.digest_alg sha_256)) digest_algorithm_mismatch
                >> (check_representation r.digest entry.representation >> ok r))))

-- the bare hexadecimal form of a carried digest; `none` for a value that equals no string
unfoldable pub carried_bare : Text → Digest → Result (Option Text)
carried_bare representation (digest_text t) =
    if text_eq representation sha256_prefixed
    then ok (some (drop 7 t))
    else if text_eq representation raw_name
    then err value_error
    else ok (some t)
carried_bare representation (digest_octets b) =
    if text_eq representation raw_name then (raw_to_hex b >>= λ t. ok (some t)) else ok none

abbrev pub equals_text : Option Text → Text → Bool
equals_text none t = false
equals_text (some s) t = text_eq t s

-- _compare_recomputed
unfoldable pub compare_recomputed : TypedRef → Text → ArtifactDigestContext → Result Text
compare_recomputed r recomputed entry = carried_bare entry.representation r.digest >>= λ carried.
    raise_if (not (equals_text carried recomputed)) context_mismatch >> ok recomputed
