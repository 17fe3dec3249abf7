-- ===== src/Cose/Headers.antt =====
-- COSE header buckets and `crit`: `_is_label`, `_validate_label_map`, `validate_cose_headers` and
-- `validate_critical_headers` of lib/cpb/cose_refs.py.
pub mod Labels
pub mod Accepted
use scitt_payload_binding.Common.{ℕ, Bool, true, false, not, List, [], ◌∷◌, Option, some, all, any}
use scitt_payload_binding.Common.Int.{pos}
use scitt_payload_binding.Errors.{
  Result, ok, err, ◌>>=◌, ◌>>◌, raise_if, type_error, cose_header, critical_header,
  duplicate_cbor_key,
}
use scitt_payload_binding.Python.{Host}
use scitt_payload_binding.Cbor.Item.{
  Scalar, int, text, Cbor, scalar, array, Elements, no_elements, element, Pairs, no_pairs, pair,
  get, contains, keys, has_same_key,
}
use scitt_payload_binding.Cose.Sign1.{CoseSign1}

-- the label of a number
abbrev pub label : ℕ → Scalar
label n = int (pos n)

abbrev pub cose_alg : Scalar
cose_alg = label 1

abbrev pub cose_crit : Scalar
cose_crit = label 2

abbrev pub cose_content_type : Scalar
cose_content_type = label 3

abbrev pub cose_kid : Scalar
cose_kid = label 4

abbrev pub cose_cwt_claims : Scalar
cose_cwt_claims = label 15

abbrev pub cose_x5chain : Scalar
cose_x5chain = label 33

abbrev pub cose_x5t : Scalar
cose_x5t = label 34

abbrev pub cose_payload_hash_alg : Scalar
cose_payload_hash_alg = label 258

abbrev pub cose_preimage_content_type : Scalar
cose_preimage_content_type = label 259

abbrev pub cose_payload_location : Scalar
cose_payload_location = label 260

-- _is_label
unfoldable pub is_label : Scalar → Bool
is_label (int n) = true
is_label (text t) = true
is_label _ = false

-- _validate_label_map, behind the labels seen so far
unfoldable pub validate_label_map : Host → List Scalar → Pairs → Result (Unit {0})
validate_label_map host seen no_pairs = ok tt
validate_label_map host seen (pair k v ps) =
    raise_if (not (is_label k)) cose_header
    >> (raise_if (has_same_key host k seen) duplicate_cbor_key
        >> validate_label_map host (k ∷ seen) ps)

-- the checks on the entries of `crit`; the entries are the result
unfoldable pub critical_entries : Host → Pairs → List Scalar → Elements → Result (List Scalar)
critical_entries host protected seen no_elements = ok []
critical_entries host protected seen (element (scalar k) xs) =
    raise_if (not (is_label k)) critical_header
    >> (raise_if (has_same_key host k seen) critical_header
        >> (raise_if (not (contains host k protected)) critical_header
            >> (critical_entries host protected (k ∷ seen) xs >>= λ ks. ok (k ∷ ks))))
critical_entries host protected seen (element _ xs) = err critical_header

-- the value of `crit`: a non-empty array
unfoldable pub critical_of : Host → Pairs → Option Cbor → Result (List Scalar)
critical_of host protected (some (array (element v xs))) =
    critical_entries host protected [] (element v xs)
critical_of host protected _ = err critical_header

unfoldable pub validate_cose_headers : Host → CoseSign1 → Result (List Scalar)
validate_cose_headers host cose =
    validate_label_map host [] cose.protected
    >> (validate_label_map host [] cose.unprotected
        >> (raise_if (any (λ k. contains host k cose.unprotected) (keys cose.protected)) cose_header
            >> (raise_if (contains host cose_crit cose.unprotected) critical_header
                >> elim (contains host cose_crit cose.protected) [
                  | false ↦ ok []
                  | true ↦ critical_of host cose.protected (get host cose_crit cose.protected)
                ])))

unfoldable pub validate_critical_headers : Host → CoseSign1 → List Scalar → Result (List Scalar)
validate_critical_headers host cose understood =
    raise_if (not (all is_label understood)) type_error
    >> (validate_cose_headers host cose >>= λ critical.
        raise_if (not (all (λ k. has_same_key host k understood) critical)) critical_header
        >> ok critical)
