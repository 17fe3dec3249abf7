-- ===== src/TypedRef/Verify.antt =====
-- The entry points of lib/cpb/typed_ref.py: construction and verification from raw JSON.
pub mod Sound
pub mod Constructed
use scitt_payload_binding.Common.{
  Bool, true, false, Text, Bytes, List, [], ◌∷◌, ◌++◌, Option, none, some, if◌then◌else◌, text_eq,
}
use scitt_payload_binding.Value.{Value, obj}
use scitt_payload_binding.Errors.{
  Result, ok, err, ◌>>◌, ◌>>=◌, type_error, unsupported_context, withdrawn_algorithm,
}
use scitt_payload_binding.Platform.{Platform}
use scitt_payload_binding.Canonicalize.Digest.{
  canonical_digest, canonical_digest_json, jcs_n_name, as_raw, require_object,
}
use scitt_payload_binding.Vintage.{Vintage}
use scitt_payload_binding.DeriveId.{require_vintage_for}
use scitt_payload_binding.TypedRef.Hex.{hex_to_raw}
use scitt_payload_binding.TypedRef.Context.{ArtifactDigestContext, sha256_prefixed, raw_name}
use scitt_payload_binding.TypedRef.Definition.{ArtifactTypeDefinition, require_integrity}
use scitt_payload_binding.TypedRef.Select.{
  select_context, require_json_representation, require_executable_context,
}
use scitt_payload_binding.TypedRef.Reference.{
  Digest, digest_text, digest_octets, TypedRef, Reference, ref, carried_type, carried_purpose,
  prepare_reference, compare_recomputed, sha256_colon, sha_256,
}

-- a parsed payload is refused
unfoldable pub make_typed_ref : Value → ArtifactDigestContext → Result TypedRef
make_typed_ref artifact_payload entry = err type_error

-- the exclusion set of an executable context
abbrev pub exclusions : ArtifactDigestContext → List Text
exclusions entry = elim entry.whole_object_exclusion_set [ none ↦ [] | some members ↦ members ]

-- _digest_json_for_context
unfoldable pub digest_json_for_context : Platform → Value → ArtifactDigestContext → Result Text
digest_json_for_context platform artifact_json entry =
    require_executable_context entry
    >> canonical_digest_json platform entry.algorithm (exclusions entry) artifact_json

-- _render_digest
unfoldable pub render_digest : Text → Text → Result Digest
render_digest digest_hex representation =
    if text_eq representation sha256_prefixed
    then ok (digest_text (sha256_colon ++ digest_hex))
    else if text_eq representation raw_name
    then (hex_to_raw digest_hex >>= λ b. ok (digest_octets b))
    else ok (digest_text digest_hex)

unfoldable pub make_typed_ref_json :
    Platform → Value → ArtifactTypeDefinition → Option Text → Result TypedRef
make_typed_ref_json platform artifact_json artifact_type purpose =
    require_integrity platform false artifact_type
    >> (select_context artifact_type.name purpose artifact_type.contexts >>= λ entry.
        require_json_representation entry
        >> (require_executable_context entry
            >> (digest_json_for_context platform artifact_json entry >>= λ digest_hex.
                if text_eq entry.algorithm jcs_n_name
                then err withdrawn_algorithm
                else (render_digest digest_hex entry.representation >>= λ digest. ok (record {
                  type = entry.name;
                  digest_alg = sha_256;
                  digest = digest;
                  purpose = some entry.purpose;
                })))))

-- the carrier of a reference
pub data Encoding : Type 0 where
  json cbor : Encoding

abbrev pub require_encoding : Encoding → ArtifactDigestContext → Result (Unit {0})
require_encoding json entry = require_json_representation entry
require_encoding cbor entry = ok tt

-- _resolve_reference_context
unfoldable pub resolve_reference_context :
    Platform
    → Reference
    → ArtifactTypeDefinition
    → Encoding
    → Result (TypedRef × ArtifactDigestContext)
resolve_reference_context platform reference artifact_type encoding =
    require_integrity platform true artifact_type
    >> (select_context (carried_type reference) (carried_purpose reference) artifact_type.contexts
        >>= λ selected.
            require_encoding encoding selected
            >> (prepare_reference reference selected >>= λ r. ok (r, selected)))

-- _verify_resolved_reference
unfoldable pub verify_resolved_reference :
    Platform → Vintage → Value → TypedRef × ArtifactDigestContext → Result Text
verify_resolved_reference platform vintage artifact_json (r, entry) =
    digest_json_for_context platform artifact_json entry >>= λ recomputed.
    compare_recomputed r recomputed entry >>= λ _.
    require_vintage_for entry.algorithm vintage recomputed

unfoldable pub evaluate_typed_ref_digest :
    Platform → Reference → Value → ArtifactDigestContext → Result Text
evaluate_typed_ref_digest platform reference artifact_payload entry =
    require_object artifact_payload >>= λ fs. prepare_reference reference entry >>= λ r.
    require_executable_context entry
    >> (canonical_digest platform entry.algorithm (exclusions entry) (obj fs) >>= λ recomputed.
        compare_recomputed r recomputed entry)

unfoldable pub verify_typed_ref_json :
    Platform → Vintage → Reference → Value → ArtifactTypeDefinition → Result Text
verify_typed_ref_json platform vintage reference artifact_json artifact_type =
    resolve_reference_context platform reference artifact_type json
    >>= verify_resolved_reference platform vintage artifact_json

unfoldable pub verify_cbor_typed_ref :
    Platform → Vintage → TypedRef → Value → ArtifactTypeDefinition → Result Text
verify_cbor_typed_ref platform vintage r artifact_json artifact_type = as_raw artifact_json >>= λ _.
    resolve_reference_context platform (ref r) artifact_type cbor
    >>= verify_resolved_reference platform vintage artifact_json

unfoldable pub verify_typed_ref :
    Platform → Vintage → Reference → Value → ArtifactTypeDefinition → Result Text
verify_typed_ref platform vintage reference artifact_json artifact_type =
    as_raw artifact_json >>= λ _.
    verify_typed_ref_json platform vintage reference artifact_json artifact_type
