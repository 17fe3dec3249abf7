-- ===== src/Cose/Statement.antt =====
-- `extract_cpb_refs` and `validate_cpb_signed_statement` of lib/cpb/cose_refs.py.
use scitt_payload_binding.Common.{Bool, not, Bytes, List, ◌∷◌}
use scitt_payload_binding.Errors.{Result, ◌>>=◌, ◌>>◌, raise_if, type_error, cpb_refs_location}
use scitt_payload_binding.Python.{Host}
use scitt_payload_binding.TypedRef.Reference.{TypedRef}
use scitt_payload_binding.Cbor.Item.{Scalar, contains}
use scitt_payload_binding.Cose.Sign1.{CoseSign1, decode_cose_sign1}
use scitt_payload_binding.Cose.Headers.{
  is_label, validate_critical_headers, cose_crit, cose_content_type, cose_cwt_claims,
  cose_payload_hash_alg, cose_preimage_content_type, cose_payload_location,
}
use scitt_payload_binding.Cose.Baseline.{validate_rfc9943_baseline}
use scitt_payload_binding.Cose.Mode.{StatementMode, Expected, validate_cpb_statement_mode}
use scitt_payload_binding.Cose.Refs.{Carriage, extract_refs}

unfoldable pub extract_cpb_refs :
    Host → Bool → Carriage → List Scalar → Scalar → Bytes → Result (List TypedRef)
extract_cpb_refs host deterministic carriage understood key encoded =
    raise_if (not (is_label key)) type_error
    >> (decode_cose_sign1 host deterministic encoded >>= λ cose.
        raise_if (contains host key cose.unprotected) cpb_refs_location
        >> (validate_critical_headers host cose (key ∷ understood) >>= λ critical.
            extract_refs host cose key carriage critical))

-- the labels that the validation itself interprets, and those of the caller
abbrev pub understood_labels : Scalar → List Scalar → List Scalar
understood_labels key understood =
    key ∷ cose_crit ∷ cose_content_type ∷ cose_cwt_claims ∷ cose_payload_hash_alg
    ∷ cose_preimage_content_type ∷ cose_payload_location ∷ understood

unfoldable pub validate_cpb_signed_statement :
    Host
    → StatementMode
    → Carriage
    → List Scalar
    → Expected
    → Scalar
    → CoseSign1
    → Result (List TypedRef)
validate_cpb_signed_statement host mode carriage understood expected key cose =
    raise_if (not (is_label key)) type_error
    >> (raise_if (contains host key cose.unprotected) cpb_refs_location
        >> (validate_critical_headers host cose (understood_labels key understood) >>= λ critical.
            validate_rfc9943_baseline host cose
            >> (validate_cpb_statement_mode host cose mode expected
                >> extract_refs host cose key carriage critical)))
