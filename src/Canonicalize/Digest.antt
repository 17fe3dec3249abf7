-- ===== src/Canonicalize/Digest.antt =====
-- `raw_digest`, `canonical_digest`, `canonical_digest_json` and `_parse_json_object` of
-- lib/cpb/canonicalize.py. An exclusion set of None acts as the empty one.
pub mod Gate
pub mod Reordered
pub mod Exclusion
use scitt_payload_binding.Common.{
  ℕ, ◌/◌, ◌%◌, Bool, true, false, ◌||◌, not, Text, Bytes, List, [], ◌∷◌, if◌then◌else◌, codes,
  text_eq, is_empty, keep,
}
use scitt_payload_binding.Value.{Value, Fields, str, bytes, obj, without_keys}
use scitt_payload_binding.Errors.{
  Result, ok, err, out_of_fuel, ◌>>=◌, ◌>>◌, raise_if, value_error, type_error, json_wire_format,
  RawViolation, Code, duplicate_key, number_token_form, unsafe_integer,
}
use scitt_payload_binding.Platform.{Platform}
use scitt_payload_binding.Lex.Scanner.{Raw, text, octets, lex_raw}
use scitt_payload_binding.Canonicalize.Normalize.{normalize}
use scitt_payload_binding.Canonicalize.Serialize.{jcs_n, hex_digit}

abbrev pub jcs_name : Text
jcs_name = codes "jcs"

abbrev pub jcs_n_name : Text
jcs_n_name = codes "jcs-n"

abbrev pub as_transmitted_name : Text
as_transmitted_name = codes "as-transmitted"

-- algorithm in {"jcs", "jcs-n"}
abbrev pub is_json_algorithm : Text → Bool
is_json_algorithm algorithm = text_eq algorithm jcs_name || text_eq algorithm jcs_n_name

-- the top-level fields of the exclusion set are dropped from a dict
unfoldable pub exclude : List Text → Value → Value
exclude excluded (obj fs) = if is_empty excluded then obj fs else obj (without_keys excluded fs)
exclude excluded v = v

unfoldable pub pre_image : Platform → Text → Value → Result Bytes
pre_image platform algorithm v =
    if text_eq algorithm jcs_name then platform.rfc8785 v else jcs_n (normalize v)

-- the `as-transmitted` branch
unfoldable pub octets_digest : Platform → List Text → Value → Result Bytes
octets_digest platform excluded (bytes b) =
    if is_empty excluded then ok (platform.sha256 b) else err value_error
octets_digest platform excluded v = err type_error

unfoldable pub raw_digest : Platform → Text → List Text → Value → Result Bytes
raw_digest platform algorithm excluded v =
    if text_eq algorithm as_transmitted_name
    then octets_digest platform excluded v
    else if not (is_json_algorithm algorithm)
    then err value_error
    else pre_image platform algorithm (exclude excluded v) >>= λ b. ok (platform.sha256 b)

-- b.hex()
unfoldable pub hex : Bytes → Text
hex [] = []
hex (b ∷ bs) = hex_digit (b / 16) ∷ hex_digit (b % 16) ∷ hex bs

unfoldable pub canonical_digest : Platform → Text → List Text → Value → Result Text
canonical_digest platform algorithm excluded v =
    raw_digest platform algorithm excluded v >>= λ b. ok (hex b)

-- isinstance(raw, (str, bytes))
unfoldable pub as_raw : Value → Result Raw
as_raw (str t) = ok (text t)
as_raw (bytes b) = ok (octets b)
as_raw _ = err type_error

abbrev pub is_duplicate_code : Code → Bool
is_duplicate_code duplicate_key = true
is_duplicate_code number_token_form = false
is_duplicate_code unsafe_integer = false

-- `violation.code == "duplicate_key" or algorithm == "jcs-n"`
abbrev pub applies : Text → RawViolation → Bool
applies algorithm violation = is_duplicate_code violation.code || text_eq algorithm jcs_n_name

-- isinstance(value, dict)
unfoldable pub require_object : Value → Result Fields
require_object (obj fs) = ok fs
require_object _ = err type_error

-- the checks on what the scanner returned
unfoldable pub wire_gate : Text → Value × List RawViolation → Result Fields
wire_gate algorithm (value, violations) =
    let applicable = keep (applies algorithm) violations in
    raise_if (not (is_empty applicable)) (json_wire_format applicable) >> require_object value

-- _parse_json_object
unfoldable pub parse_json_object : Platform → Text → Value → Result Fields
parse_json_object platform algorithm raw = as_raw raw >>= λ input.
    raise_if (not (is_json_algorithm algorithm)) value_error
    >> (lex_raw platform.host input >>= wire_gate algorithm)

unfoldable pub canonical_digest_json : Platform → Text → List Text → Value → Result Text
canonical_digest_json platform algorithm excluded raw =
    parse_json_object platform algorithm raw >>= λ fs.
    canonical_digest platform algorithm excluded (obj fs)
