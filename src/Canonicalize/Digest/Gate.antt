-- ===== src/Canonicalize/Digest/Gate.antt =====
-- The wire gate in front of every digest of raw JSON.
use scitt_payload_binding.Common.{
  ◌≡◌, true, false, Text, List, [], ◌∷◌, is_empty, keep, All, arith, any,
}
use scitt_payload_binding.Value.{Value, Fields, obj}
use scitt_payload_binding.Errors.{ok, err, RawViolation, json_wire_format}
use scitt_payload_binding.Platform.{Platform}
use scitt_payload_binding.Lex.Scanner.{Raw, lex_raw}
use scitt_payload_binding.Canonicalize.Digest.{
  is_json_algorithm, as_raw, applies, is_duplicate_code, wire_gate, parse_json_object,
  canonical_digest_json,
}

-- The input is text or bytes, the scanner returns the object `payload`, and none of the violations
-- that it reports is one that the algorithm's gate applies.
pub record PassesGate (platform : Platform) (algorithm : Text) (raw : Value) (payload : Fields)
    : Type 0 where
  pub input : Raw
  pub violations : List RawViolation
  pub is_raw : as_raw raw ≡ ok input
  pub known : is_json_algorithm algorithm ≡ true
  pub scanned : lex_raw platform.host input ≡ ok (obj payload, violations)
  pub clean : All (λ v. applies algorithm v ≡ false) violations

applies_duplicate :
    (algorithm : Text) (vs : List RawViolation)
    → any (λ v. is_duplicate_code v.code) vs ≡ true
    → is_empty (keep (applies algorithm) vs) ≡ false
applies_duplicate algorithm [] h = cc
applies_duplicate algorithm (v ∷ vs) h = ground (arith, applies_duplicate algorithm vs)

-- When the scanner reports a duplicate member, the digest of the raw JSON is refused with the
-- violations, under either algorithm and whatever the exclusion set, so also when the repeated
-- member would have been excluded.
pub canonical_digest_json-duplicate :
    (platform : Platform) (algorithm : Text) (excluded : List Text) (raw value : Value)
    (input : Raw) (violations : List RawViolation)
    → as_raw raw ≡ ok input
    → is_json_algorithm algorithm ≡ true
    → lex_raw platform.host input ≡ ok (value, violations)
    → any (λ v. is_duplicate_code v.code) violations ≡ true
    → canonical_digest_json platform algorithm excluded raw
      ≡ err (json_wire_format (keep (applies algorithm) violations))
unfolding canonical_digest_json parse_json_object wire_gate
canonical_digest_json-duplicate platform algorithm excluded raw value input violations r k s d =
    rw (r, k, s, applies_duplicate algorithm violations d)
