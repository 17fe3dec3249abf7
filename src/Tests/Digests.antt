-- ===== src/Tests/Digests.antt =====
-- Runs and instances of the digests, the checker and derived identifiers.
use scitt_payload_binding.Common.{ℕ, ◌≡◌, ◌<◌, true, refl, List, [], ◌∷◌, some, codes, ◌≢◌}
use scitt_payload_binding.Value.{Value, Fields, null, bool, int, str, obj, no_fields, field, set}
use scitt_payload_binding.Common.Int.{pos}
use scitt_payload_binding.Errors.{ok, err, json_wire_format, RawViolation, duplicate_key, repeated}
use scitt_payload_binding.Lex.Scanner.{text, lex_raw}
use scitt_payload_binding.Canonicalize.Normalize.{normalize}
use scitt_payload_binding.Canonicalize.Normalize.Fixed.{
  IsNormal, normalize-eq_self_iff, normalize_idem,
}
use scitt_payload_binding.Canonicalize.Digest.{
  as_raw, canonical_digest, canonical_digest_json, raw_digest, jcs_name, jcs_n_name,
}
use scitt_payload_binding.Canonicalize.Digest.Gate.{canonical_digest_json-duplicate}
use scitt_payload_binding.Canonicalize.Digest.Exclusion.{canonical_digest-set_excluded}
use scitt_payload_binding.TypedRef.Hex.{is_bare_hex_256, hex_to_raw, raw_to_hex}
use scitt_payload_binding.TypedRef.Hex.RoundTrip.{
  canonical_digest-raw_digest, raw_to_hex-hex_to_raw,
}
use scitt_payload_binding.Check.Walk.{check_p}
use scitt_payload_binding.Check.NormalForm.{check_p-nil_iff}
use scitt_payload_binding.Check.{conforming}
use scitt_payload_binding.Check.Conforming.{Passes, Conforms, check-conforming_iff}
use scitt_payload_binding.Vintage.{
  Vintage, aware, require_pre_cutoff_jcs_n_vintage, jcs_n_withdrawal_cutoff,
}
use scitt_payload_binding.Vintage.Cutoff.{Authenticates, require_vintage_iff}
use scitt_payload_binding.DeriveId.{derive_id, verify_carried_id}
use scitt_payload_binding.DeriveId.Verified.{
  CarriedIdHolds, verify_carried_id_iff, derive_id-ne-jcs_n,
}
use scitt_payload_binding.Tests.Sample.{
  sample_host, sample_platform, sample-IsSha256, sample_raw, sample_digest,
}
use scitt_payload_binding.Runs.{lex_runs, digest_runs, reference_runs}

abbrev sample_fields : Fields
sample_fields = field (codes "n") (int (pos 1)) no_fields

-- {"n": 1, "deep": {"x": null}}
abbrev sample_absent : Value
sample_absent = obj (
    field (codes "n") (int (pos 1))
      (field (codes "deep") (obj (field (codes "x") null no_fields)) no_fields))

abbrev early : Vintage
early = record { evidence = some (str (codes "stamp")); verifier = some (λ e d. some (aware 5)) }

check_p-nil_iff_run : check_p sample_host (codes "$") (obj sample_fields) ≡ []
unfolding digest_runs
check_p-nil_iff_run = refl

check_p-nil_iff_example : normalize (obj sample_fields) ≡ obj sample_fields
check_p-nil_iff_example =
    (check_p-nil_iff sample_host (codes "$") (obj sample_fields)).0 check_p-nil_iff_run

normalize_removes : normalize sample_absent ≡ obj sample_fields
unfolding digest_runs
normalize_removes = refl

normalize-eq_self_iff_run : normalize (obj sample_fields) ≡ obj sample_fields
unfolding digest_runs
normalize-eq_self_iff_run = refl

normalize-eq_self_iff_example : IsNormal (obj sample_fields)
normalize-eq_self_iff_example =
    (normalize-eq_self_iff (obj sample_fields)).0 normalize-eq_self_iff_run

normalize_idem_example : normalize (normalize sample_absent) ≡ normalize sample_absent
normalize_idem_example = normalize_idem sample_absent

sample_digested :
    canonical_digest sample_platform jcs_name [] (obj sample_fields) ≡ ok sample_digest
unfolding lex_runs digest_runs
sample_digested = refl

canonical_digest-raw_digest_example :
    (is_bare_hex_256 sample_digest ≡ true)
    × (raw_digest sample_platform jcs_name [] (obj sample_fields) ≡ hex_to_raw sample_digest)
canonical_digest-raw_digest_example =
    canonical_digest-raw_digest sample_platform jcs_name [] (obj sample_fields) sample_digest
      sample-IsSha256 sample_digested

abbrev sample_octets : List ℕ
sample_octets = sample_platform.sha256 (codes "seven..")

raw_to_hex-hex_to_raw_run : hex_to_raw sample_digest ≡ ok sample_octets
unfolding reference_runs
raw_to_hex-hex_to_raw_run = refl

raw_to_hex-hex_to_raw_example : raw_to_hex sample_octets ≡ ok sample_digest
raw_to_hex-hex_to_raw_example =
    raw_to_hex-hex_to_raw sample_digest sample_octets raw_to_hex-hex_to_raw_run

abbrev doubled : Value
doubled = str (codes "{\"n\":1,\"n\":2}")

abbrev doubled_violation : RawViolation
doubled_violation = record {
  path = codes "$[\"n\"]";
  code = duplicate_key;
  detail = repeated (codes "n") (codes "$") 5;
}

canonical_digest_json-duplicate_input : as_raw doubled ≡ ok (text (codes "{\"n\":1,\"n\":2}"))
unfolding digest_runs
canonical_digest_json-duplicate_input = refl

canonical_digest_json-duplicate_scanned :
    lex_raw sample_platform.host (text (codes "{\"n\":1,\"n\":2}"))
    ≡ ok (obj (field (codes "n") (int (pos 2)) no_fields), doubled_violation ∷ [])
unfolding lex_runs
canonical_digest_json-duplicate_scanned = refl

canonical_digest_json-duplicate_example :
    canonical_digest_json sample_platform jcs_name (codes "n" ∷ []) doubled
    ≡ err (json_wire_format (doubled_violation ∷ []))
canonical_digest_json-duplicate_example =
    canonical_digest_json-duplicate sample_platform jcs_name (codes "n" ∷ []) doubled
      (obj (field (codes "n") (int (pos 2)) no_fields)) (text (codes "{\"n\":1,\"n\":2}"))
      (doubled_violation ∷ []) canonical_digest_json-duplicate_input refl
      canonical_digest_json-duplicate_scanned refl

canonical_digest-set_excluded_example :
    canonical_digest sample_platform jcs_name
      (codes "id" ∷ [])
      (obj (set (codes "id") (bool true) sample_fields))
    ≡ canonical_digest sample_platform jcs_name (codes "id" ∷ []) (obj sample_fields)
canonical_digest-set_excluded_example =
    canonical_digest-set_excluded sample_platform jcs_name (codes "id" ∷ []) (codes "id")
      (bool true) sample_fields refl

require_vintage_iff_run : require_pre_cutoff_jcs_n_vintage early sample_digest ≡ ok 5
unfolding digest_runs
require_vintage_iff_run = refl

require_vintage_iff_example : Authenticates early sample_digest 5 × (5 < jcs_n_withdrawal_cutoff)
require_vintage_iff_example = (require_vintage_iff early sample_digest 5).0 require_vintage_iff_run

abbrev carrying : Value
carrying =
    str (
      codes "{\"n\":1,\"id\":\"0700000000000000000000000000000000000000000000000000000000000000\"}")

verify_carried_id_iff_run :
    verify_carried_id sample_platform jcs_n_name (codes "id" ∷ []) (codes "id") early carrying
    ≡ ok sample_digest
unfolding lex_runs digest_runs
verify_carried_id_iff_run = refl

verify_carried_id_iff_example :
    CarriedIdHolds sample_platform jcs_n_name
      (codes "id" ∷ [])
      (codes "id")
      early
      carrying
      sample_digest
verify_carried_id_iff_example =
    (verify_carried_id_iff sample_platform jcs_n_name (codes "id" ∷ []) (codes "id") early carrying
        sample_digest).0
      verify_carried_id_iff_run

derive_id-ne-jcs_n_example : derive_id sample_platform jcs_n_name [] sample_raw ≢ ok sample_digest
derive_id-ne-jcs_n_example = derive_id-ne-jcs_n sample_platform [] sample_raw sample_digest

check-Passes : Passes sample_host (text (codes "{\"n\":1}"))
unfolding lex_runs digest_runs
check-Passes = (record { verdict = conforming; violations = []; note = true }, refl, refl)

check-conforming_iff_example : Conforms sample_host (text (codes "{\"n\":1}"))
check-conforming_iff_example =
    (check-conforming_iff sample_host (text (codes "{\"n\":1}"))).0 check-Passes
