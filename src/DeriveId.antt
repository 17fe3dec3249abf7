-- ===== src/DeriveId.antt =====
-- lib/cpb/derive_id.py: construction, evaluation and verification of derived identifiers.
pub mod Verified
use scitt_payload_binding.Common.{
  Bool, true, false, not, ◌&&◌, Text, List, Option, none, some, if◌then◌else◌, text_eq,
}
use scitt_payload_binding.Value.{Value, Fields, str, obj, get}
use scitt_payload_binding.Errors.{
  Result, ok, err, out_of_fuel, ◌>>=◌, ◌>>◌, raise_if, carried_id_mismatch, withdrawn_algorithm,
}
use scitt_payload_binding.Platform.{Platform}
use scitt_payload_binding.Canonicalize.Digest.{
  as_raw, require_object, parse_json_object, canonical_digest, canonical_digest_json, jcs_n_name,
}
use scitt_payload_binding.Vintage.{Vintage, require_pre_cutoff_jcs_n_vintage}

-- derive_id, derive_id_json
unfoldable pub derive_id : Platform → Text → List Text → Value → Result Text
derive_id platform algorithm excluded payload_json = as_raw payload_json >>= λ _.
    canonical_digest_json platform algorithm excluded payload_json >>= λ digest.
    if text_eq algorithm jcs_n_name then err withdrawn_algorithm else ok digest

unfoldable pub evaluate_derived_id : Platform → Text → List Text → Value → Result Text
evaluate_derived_id platform algorithm excluded payload =
    require_object payload >>= λ fs. canonical_digest platform algorithm excluded (obj fs)

unfoldable pub evaluate_derived_id_json : Platform → Text → List Text → Value → Result Text
evaluate_derived_id_json platform algorithm excluded payload_json =
    canonical_digest_json platform algorithm excluded payload_json

-- `carried == recomputed`, of a value and a string
unfoldable pub is_str : Value → Text → Bool
is_str (str s) t = text_eq s t
is_str _ t = false

-- `carried_field in payload and carried != recomputed`
unfoldable pub carried_differs : Option Value → Text → Bool
carried_differs none recomputed = false
carried_differs (some carried) recomputed = not (is_str carried recomputed)

-- `if algorithm == "jcs-n": require_pre_cutoff_jcs_n_vintage(...)`, then the digest
unfoldable pub require_vintage_for : Text → Vintage → Text → Result Text
require_vintage_for algorithm vintage recomputed =
    if text_eq algorithm jcs_n_name
    then (require_pre_cutoff_jcs_n_vintage vintage recomputed >>= λ _. ok recomputed)
    else ok recomputed

unfoldable pub verify_carried_id :
    Platform → Text → List Text → Text → Vintage → Value → Result Text
verify_carried_id platform algorithm excluded carried_field vintage payload_json =
    as_raw payload_json >>= λ _. parse_json_object platform algorithm payload_json >>= λ payload.
    canonical_digest platform algorithm excluded (obj payload) >>= λ recomputed.
    raise_if (carried_differs (get carried_field payload) recomputed) carried_id_mismatch
    >> require_vintage_for algorithm vintage recomputed
