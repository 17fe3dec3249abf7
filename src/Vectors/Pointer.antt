-- ===== src/Vectors/Pointer.antt =====
-- JSON Pointers in .github/check_vectors.py: `_unescape_pointer_token`, `_parse_json_pointer` and
-- `_resolve_source_pointer`, of a pointer that is a string.
pub mod RoundTrip
use scitt_payload_binding.Common.{
  ℕ, Bool, true, false, ◌&&◌, ◌||◌, not, Text, List, [], ◌∷◌, Option, none, some, ◌==◌,
  if◌then◌else◌,
}
use scitt_payload_binding.Value.{Value, Fields, arr, obj, get}
use scitt_payload_binding.Errors.{Result, ok, err, ◌>>=◌, ◌>>◌, raise_if, value_error, key_error}

-- the loop that admits only ~0 and ~1
unfoldable pub valid_escapes : Text → Bool
valid_escapes [] = true
valid_escapes (c ∷ []) = not (c == b'~')
valid_escapes (c ∷ d ∷ s) = elim (c == b'~') [
  | true ↦ (d == b'0' || d == b'1') && valid_escapes s
  | false ↦ valid_escapes (d ∷ s)
]

-- s.replace("~x", y), of single characters x and y
unfoldable pub replace : ℕ → ℕ → Text → Text
replace x y [] = []
replace x y (c ∷ []) = c ∷ []
replace x y (c ∷ d ∷ s) = elim (c == b'~' && d == x) [
  | true ↦ y ∷ replace x y s
  | false ↦ c ∷ replace x y (d ∷ s)
]

unfoldable pub unescape_pointer_token : Text → Result Text
unescape_pointer_token token =
    raise_if (not (valid_escapes token)) value_error
    >> ok (replace b'0' b'~' (replace b'1' b'/' token))

-- pointer.split("/"): the part in front of the first "/", and those behind
abbrev pub slash_step : ℕ → Text × List Text → Text × List Text
slash_step c (part, parts) = if c == b'/' then ([], part ∷ parts) else (c ∷ part, parts)

unfoldable pub split_slash : Text → Text × List Text
split_slash [] = ([], [])
split_slash (c ∷ s) = slash_step c (split_slash s)

unfoldable pub unescape_all : List Text → Result (List Text)
unescape_all [] = ok []
unescape_all (t ∷ ts) = unescape_pointer_token t >>= λ u. unescape_all ts >>= λ us. ok (u ∷ us)

abbrev pub unescape_parts : Text × List Text → Result (List Text)
unescape_parts (part, parts) = unescape_all (part ∷ parts)

unfoldable pub parse_json_pointer : Text → Result (List Text)
parse_json_pointer [] = err value_error
parse_json_pointer (c ∷ s) = if c == b'/' then unescape_parts (split_slash s) else err value_error

-- the walk along the tokens; an array is a ValueError, another value or a missing member a KeyError
unfoldable pub resolve_tokens : List Text → Value → Result Value
resolve_tokens [] v = ok v
resolve_tokens (t ∷ ts) (obj fs) = elim (get t fs) [
  | none ↦ err key_error
  | some v ↦ resolve_tokens ts v
]
resolve_tokens (t ∷ ts) (arr xs) = err value_error
resolve_tokens (t ∷ ts) _ = err key_error

unfoldable pub resolve_source_pointer : Value → Text → Result Value
resolve_source_pointer v pointer = parse_json_pointer pointer >>= λ ts. resolve_tokens ts v
