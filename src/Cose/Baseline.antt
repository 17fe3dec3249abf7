-- ===== src/Cose/Baseline.antt =====
-- `validate_rfc9943_baseline` of lib/cpb/cose_refs.py, with the X.509 parameter checks.
use scitt_payload_binding.Common.{
  Bool, true, false, ◌&&◌, ◌||◌, not, Text, [], Option, some, leb, if◌then◌else◌, length,
}
use scitt_payload_binding.Errors.{Result, ok, err, ◌>>=◌, ◌>>◌, raise_if, signed_statement}
use scitt_payload_binding.Python.{Host}
use scitt_payload_binding.Cbor.Item.{
  Scalar, int, octets, text, Cbor, scalar, array, map, Elements, no_elements, element, Pairs, get,
  contains,
}
use scitt_payload_binding.Cose.Sign1.{CoseSign1}
use scitt_payload_binding.Cose.Headers.{
  label, is_label, validate_label_map, cose_alg, cose_kid, cose_cwt_claims, cose_x5chain, cose_x5t,
}
use scitt_payload_binding.Cose.Uri.{is_string_or_uri}

unfoldable pub is_int : Option Cbor → Bool
is_int (some (scalar (int n))) = true
is_int _ = false

unfoldable pub is_octets : Option Cbor → Bool
is_octets (some (scalar (octets b))) = true
is_octets _ = false

-- the shape of an x5t value
unfoldable pub is_x5t : Option Cbor → Bool
is_x5t (some (array (element (scalar alg) (element (scalar (octets hash)) no_elements)))) =
    is_label alg
is_x5t _ = false

unfoldable pub all_octets : Elements → Bool
all_octets no_elements = true
all_octets (element (scalar (octets b)) xs) = all_octets xs
all_octets (element _ xs) = false

-- one certificate, or an array of two at least
unfoldable pub is_x5chain : Option Cbor → Bool
is_x5chain (some (scalar (octets b))) = true
is_x5chain (some (array (element a (element b xs)))) = all_octets (element a (element b xs))
is_x5chain _ = false

-- `if key in bucket: check(bucket.get(key))`
abbrev pub require_when_present : Host → Scalar → (Option Cbor → Bool) → Pairs → Result (Unit {0})
require_when_present host key valid bucket =
    raise_if (contains host key bucket && not (valid (get host key bucket))) signed_statement

unfoldable pub validate_x509_bucket : Host → Pairs → Result (Unit {0})
validate_x509_bucket host bucket =
    require_when_present host cose_x5t is_x5t bucket
    >> require_when_present host cose_x5chain is_x5chain bucket

-- _validate_x509_parameters
unfoldable pub validate_x509_parameters : Host → CoseSign1 → Result Bool
validate_x509_parameters host cose =
    validate_x509_bucket host cose.protected
    >> (validate_x509_bucket host cose.unprotected
        >> ok (contains host cose_x5t cose.protected || contains host cose_x5chain cose.protected))

-- a text claim with StringOrURI syntax
unfoldable pub claim_text : Host → Option Cbor → Result Text
claim_text host (some (scalar (text t))) =
    if is_string_or_uri host t then ok t else err signed_statement
claim_text host _ = err signed_statement

unfoldable pub claims_of : Option Cbor → Result Pairs
claims_of (some (map ps)) = ok ps
claims_of _ = err signed_statement

unfoldable pub validate_rfc9943_baseline : Host → CoseSign1 → Result (Unit {0})
validate_rfc9943_baseline host cose =
    require_when_present host cose_alg is_int cose.protected
    >> (raise_if (not (contains host cose_cwt_claims cose.protected)) signed_statement
        >> (claims_of (get host cose_cwt_claims cose.protected) >>= λ claims.
            validate_label_map host [] claims
            >> (claim_text host (get host (label 1) claims) >>= λ issuer.
                claim_text host (get host (label 2) claims) >>= λ subject.
                require_when_present host cose_kid is_octets cose.protected
                >> (validate_x509_parameters host cose >>= λ certified.
                    raise_if (certified && not (leb 1 (length issuer) && leb (length issuer) 8192))
                      signed_statement
                    >> (raise_if
                          (contains host cose_x5chain cose.unprotected
                            && not (contains host cose_x5t cose.protected)
                            && not (contains host cose_kid cose.protected))
                          signed_statement
                        >> raise_if (not certified && not (contains host cose_kid cose.protected))
                            signed_statement)))))
