-- ===== src/Vectors/Canonical.antt =====
-- The jcs-n implementation of .github/check_vectors.py: `_normalize`, `_jcs`, `_jcs_rfc8785` and
-- `jcs_n_pre_image`, with what they use of `json.dumps`.
pub mod Agrees
use scitt_payload_binding.Common.{
  ℕ, ◌+◌, ◌/◌, ◌%◌, ◌^◌, Bool, true, false, not, ◌&&◌, ◌||◌, Text, Bytes, List, [], ◌∷◌, ◌++◌,
  Option, none, some, leb, ltb, ◌==◌, if◌then◌else◌, codes, text_in, is_empty, any,
}
use scitt_payload_binding.Common.Int.{ℤ, magnitude}
use scitt_payload_binding.Value.{
  Value, Items, Fields, null, bool, int, float, str, bytes, arr, obj, no_items, item, no_fields,
  field, without_keys,
}
use scitt_payload_binding.Errors.{
  Result, ok, err, ◌>>=◌, ◌>>◌, raise_if, value_error, type_error, unicode_error,
}
use scitt_payload_binding.Python.{int_text}
use scitt_payload_binding.Unicode.{utf16_encode}
use scitt_payload_binding.Canonicalize.Serialize.{Member, sort_members, member, encode_utf8}
use scitt_payload_binding.Canonicalize.Digest.{hex}
use scitt_payload_binding.Platform.{Platform}

-- `nv is None or nv == [] or nv == {}`
unfoldable pub is_dropped : Value → Bool
is_dropped null = true
is_dropped (arr no_items) = true
is_dropped (obj no_fields) = true
is_dropped _ = false

-- a member of the result, unless it is dropped
unfoldable pub kept_member : Text → Value → Fields → Fields
kept_member k nv rest = elim (is_dropped nv) [ true ↦ rest | false ↦ field k nv rest ]

unfoldable mutual
  -- _normalize
  pub strip : Value → Value
  strip (arr xs) = arr (strip_items xs)
  strip (obj fs) = obj (strip_fields fs)
  strip v = v

  pub strip_items : Items → Items
  strip_items no_items = no_items
  strip_items (item v xs) = item (strip v) (strip_items xs)

  pub strip_fields : Fields → Fields
  strip_fields no_fields = no_fields
  strip_fields (field k v fs) = kept_member k (strip v) (strip_fields fs)

-- `json.dumps` of one character of a string, with ensure_ascii=False: the two characters and the
-- controls that have a short escape, then the other controls as four lowercase hexadecimal digits
abbrev pub short_escapes : List (ℕ × ℕ)
short_escapes =
    (b'\\', b'\\')
    ∷ (b'"', b'"')
    ∷ (8, b'b')
    ∷ (12, b'f')
    ∷ (10, b'n')
    ∷ (13, b'r')
    ∷ (9, b't')
    ∷ []

abbrev pub lookup : ℕ → List (ℕ × ℕ) → Option ℕ
lookup c [] = none
lookup c ((d, e) ∷ rest) = elim (c == d) [ true ↦ some e | false ↦ lookup c rest ]

abbrev pub hexadecimal : ℕ → ℕ
hexadecimal n = if leb 10 n then n + 87 else n + 48

unfoldable pub dumps_char : ℕ → Text
dumps_char c = elim (lookup c short_escapes) [
  | some e ↦ b'\\' ∷ e ∷ []
  | none ↦
      if ltb c 32
      then b'\\' ∷ b'u' ∷ b'0' ∷ b'0' ∷ hexadecimal (c / 16) ∷ hexadecimal (c % 16) ∷ []
      else c ∷ []
]

unfoldable pub dumps_chars : Text → Text
dumps_chars [] = b'"' ∷ []
dumps_chars (c ∷ s) = dumps_char c ++ dumps_chars s

unfoldable pub dumps_string : Text → Text
dumps_string s = b'"' ∷ dumps_chars s

-- the checks on an integer, then `json.dumps` of it
unfoldable pub safe_int : ℤ → Result Text
safe_int n =
    raise_if (leb (10 ^ 21) (magnitude n)) value_error
    >> (raise_if (leb (2 ^ 53) (magnitude n)) value_error >> ok (int_text n))

-- ",".join(... + ":" + ...) of the sorted members, behind a separator
unfoldable pub joined_pairs : Text → List Member → Result Text
joined_pairs separator [] = ok []
joined_pairs separator (m ∷ ms) = m.value >>= λ v. joined_pairs (b',' ∷ []) ms >>= λ rest.
    ok (separator ++ (dumps_string m.key ++ (b':' ∷ (v ++ rest))))

abbrev pub braces : Text → Text
braces t = b'{' ∷ (t ++ (b'}' ∷ []))

unfoldable pub jcs_object : Result (List Member) → Result Text
jcs_object members = members >>= λ ms. joined_pairs [] (sort_members ms) >>= λ t. ok (braces t)

-- What the two serializers do with a float.
unfoldable mutual
  -- _jcs and _jcs_rfc8785, by what they do with a float
  pub jcs_with : (Text → Result Text) → Value → Result Text
  jcs_with on_float (obj fs) = jcs_object (jcs_with_members on_float fs)
  jcs_with on_float (arr xs) = jcs_with_items on_float [] xs >>= λ t. ok (b'[' ∷ (t ++ (b']' ∷ [])))
  jcs_with on_float (int n) = safe_int n
  jcs_with on_float (float tok) = on_float tok
  jcs_with on_float (str s) = ok (dumps_string s)
  jcs_with on_float (bool true) = ok (codes "true")
  jcs_with on_float (bool false) = ok (codes "false")
  jcs_with on_float null = ok (codes "null")
  jcs_with on_float (bytes b) = err type_error

  pub jcs_with_items : (Text → Result Text) → Text → Items → Result Text
  jcs_with_items on_float separator no_items = ok []
  jcs_with_items on_float separator (item v xs) = jcs_with on_float v >>= λ t.
      jcs_with_items on_float (b',' ∷ []) xs >>= λ rest. ok (separator ++ (t ++ rest))

  pub jcs_with_members : (Text → Result Text) → Fields → Result (List Member)
  jcs_with_members on_float no_fields = ok []
  jcs_with_members on_float (field k v fs) =
      member k (utf16_encode k) (jcs_with on_float v) (jcs_with_members on_float fs)

-- _jcs
unfoldable pub jcs : Value → Result Text
jcs v = jcs_with (λ tok. err value_error) v

-- `math.isfinite` and `json.dumps` of the float of a token
pub record Floats : Type 0 where
  pub is_finite : Text → Bool
  pub float_text : Text → Text

-- s.endswith(".0")
unfoldable pub ends_in_zero : Text → Bool
ends_in_zero [] = false
ends_in_zero (c ∷ []) = false
ends_in_zero (c ∷ d ∷ []) = c == b'.' && d == b'0'
ends_in_zero (c ∷ d ∷ e ∷ s) = ends_in_zero (d ∷ e ∷ s)

unfoldable pub verified_float : Floats → Text → Result Text
verified_float floats tok =
    let s = floats.float_text tok in
    raise_if (not (floats.is_finite tok)) value_error
    >> (raise_if (any (λ c. c == b'e' || c == b'E') s || ends_in_zero s) value_error >> ok s)

-- _jcs_rfc8785
unfoldable pub jcs_rfc8785 : Floats → Value → Result Text
jcs_rfc8785 floats v = jcs_with (verified_float floats) v

unfoldable pub jcs_n_pre_image : Fields → List Text → Result Text
jcs_n_pre_image payload exclusion_set =
    let kept = if is_empty exclusion_set then payload else without_keys exclusion_set payload in
    jcs (strip (obj kept))

-- _sha256_hex
unfoldable pub sha256_hex : Platform → Text → Result Text
sha256_hex platform s = encode_utf8 s >>= λ b. ok (hex (platform.sha256 b))
