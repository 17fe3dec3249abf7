-- ===== src/TypedRef/Hex.antt =====
-- `_is_bare_hex_256`, `hex_to_raw` and `raw_to_hex` of lib/cpb/typed_ref.py.
pub mod RoundTrip
pub mod Plain
use scitt_payload_binding.Common.{
  ℕ, ◌+◌, ◌-◌, ◌*◌, Bool, true, false, ◌&&◌, ◌||◌, not, Text, Bytes, [], ◌∷◌, leb, ltb, ◌==◌,
  if◌then◌else◌, length, all,
}
use scitt_payload_binding.Errors.{Result, ok, err, value_error}
use scitt_payload_binding.Python.{is_ascii_digit}
use scitt_payload_binding.Canonicalize.Digest.{hex}

-- char in "0123456789abcdef"
abbrev pub is_bare_hex_char : ℕ → Bool
is_bare_hex_char c = is_ascii_digit c || leb b'a' c && leb c b'f'

-- _is_bare_hex_256, of a string
unfoldable pub is_bare_hex_256 : Text → Bool
is_bare_hex_256 t = length t == 64 && all is_bare_hex_char t

abbrev pub hex_digit_value : ℕ → ℕ
hex_digit_value c = if leb b'a' c then c - b'a' + 10 else c - b'0'

-- bytes.fromhex, of pairs of lowercase digits
unfoldable pub from_hex : Text → Bytes
from_hex [] = []
from_hex (c ∷ []) = []
from_hex (c ∷ d ∷ t) = (16 * hex_digit_value c + hex_digit_value d) ∷ from_hex t

unfoldable pub hex_to_raw : Text → Result Bytes
hex_to_raw digest_hex =
    if is_bare_hex_256 digest_hex then ok (from_hex digest_hex) else err value_error

unfoldable pub raw_to_hex : Bytes → Result Text
raw_to_hex digest_raw = if length digest_raw == 32 then ok (hex digest_raw) else err value_error
