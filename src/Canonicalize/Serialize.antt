-- ===== src/Canonicalize/Serialize.antt =====
-- `_jcs_string`, `_jcs_n_value` and `jcs_n` of lib/cpb/canonicalize.py.
pub mod Sorted
pub mod Reordered
use scitt_payload_binding.Common.{
  ℕ, ◌+◌, ◌-◌, ◌/◌, ◌%◌, Bool, true, false, Text, Bytes, List, [], ◌∷◌, ◌++◌, Option, none, some,
  ltb, ◌==◌, if◌then◌else◌, text_ltb, codes,
}
use scitt_payload_binding.Value.{
  Value, Items, Fields, null, bool, int, float, str, bytes, arr, obj, no_items, item, no_fields,
  field,
}
use scitt_payload_binding.Errors.{
  Result, ok, err, ◌>>=◌, type_error, unicode_error, float_in_digest, unsafe_integer_error,
}
use scitt_payload_binding.Python.{int_text}
use scitt_payload_binding.Unicode.{utf8_encode, utf16_encode}
use scitt_payload_binding.Lex.Number.{is_unsafe}

-- a digit of `{o:04x}`
abbrev pub hex_digit : ℕ → ℕ
hex_digit n = if ltb n 10 then b'0' + n else b'a' + (n - 10)

-- what the loop of `_jcs_string` appends for a character
unfoldable pub escape_char : ℕ → Text
escape_char c =
    if c == b'"'
    then b'\\' ∷ b'"' ∷ []
    else if c == b'\\'
    then b'\\' ∷ b'\\' ∷ []
    else if c == 8
    then b'\\' ∷ b'b' ∷ []
    else if c == 9
    then b'\\' ∷ b't' ∷ []
    else if c == 10
    then b'\\' ∷ b'n' ∷ []
    else if c == 12
    then b'\\' ∷ b'f' ∷ []
    else if c == 13
    then b'\\' ∷ b'r' ∷ []
    else if ltb c 0x20
    then b'\\' ∷ b'u' ∷ b'0' ∷ b'0' ∷ hex_digit (c / 16) ∷ hex_digit (c % 16) ∷ []
    else c ∷ []

unfoldable pub escaped : Text → Text
escaped [] = []
escaped (c ∷ s) = escape_char c ++ escaped s

-- _jcs_string
unfoldable pub jcs_string : Text → Text
jcs_string s = b'"' ∷ (escaped s ++ (b'"' ∷ []))

-- A member: its key, the UTF-16 bytes that `sorted` compares, and what serializing its value gives.
pub record Member : Type 0 where
  pub key : Text
  pub units : Bytes
  pub value : Result Text

-- `sorted` is stable: a member goes behind those that do not compare greater.
unfoldable pub insert_member : Member → List Member → List Member
insert_member m [] = m ∷ []
insert_member m (n ∷ ms) = elim (text_ltb n.units m.units) [
  | true ↦ n ∷ insert_member m ms
  | false ↦ m ∷ n ∷ ms
]

unfoldable pub sort_members : List Member → List Member
sort_members [] = []
sort_members (m ∷ ms) = insert_member m (sort_members ms)

-- the key function runs on every key before a value is serialized
unfoldable pub member :
    Text → Option Bytes → Result Text → Result (List Member) → Result (List Member)
member k none v rest = err unicode_error
member k (some units) v rest = rest >>= λ ms. ok (record { key = k; units = units; value = v } ∷ ms)

-- ",".join(_jcs_string(k) + ":" + _jcs_n_value(val) ...), with a comma before all but the first
unfoldable pub join_members : Bool → List Member → Result Text
join_members first [] = ok []
join_members first (m ∷ ms) = m.value >>= λ v. join_members false ms >>= λ rest.
    ok ((if first then [] else b',' ∷ []) ++ (jcs_string m.key ++ (b':' ∷ (v ++ rest))))

unfoldable pub serialize_object : Result (List Member) → Result Text
serialize_object members =
    members >>= λ ms. join_members true (sort_members ms) >>= λ t. ok (b'{' ∷ (t ++ (b'}' ∷ [])))

unfoldable mutual
  -- _jcs_n_value
  pub jcs_n_value : Value → Result Text
  jcs_n_value null = ok (codes "null")
  jcs_n_value (bool b) = ok (if b then codes "true" else codes "false")
  jcs_n_value (int n) = if is_unsafe n then err unsafe_integer_error else ok (int_text n)
  jcs_n_value (float tok) = err float_in_digest
  jcs_n_value (str s) = ok (jcs_string s)
  jcs_n_value (bytes b) = err type_error
  jcs_n_value (arr xs) = jcs_n_items true xs >>= λ t. ok (b'[' ∷ (t ++ (b']' ∷ [])))
  jcs_n_value (obj fs) = serialize_object (jcs_n_members fs)

  pub jcs_n_items : Bool → Items → Result Text
  jcs_n_items first no_items = ok []
  jcs_n_items first (item v xs) = jcs_n_value v >>= λ t.
      jcs_n_items false xs >>= λ rest. ok ((if first then [] else b',' ∷ []) ++ (t ++ rest))

  pub jcs_n_members : Fields → Result (List Member)
  jcs_n_members no_fields = ok []
  jcs_n_members (field k v fs) = member k (utf16_encode k) (jcs_n_value v) (jcs_n_members fs)

unfoldable pub encode_utf8 : Text → Result Bytes
encode_utf8 t = elim (utf8_encode t) [ none ↦ err unicode_error | some b ↦ ok b ]

-- jcs_n
unfoldable pub jcs_n : Value → Result Bytes
jcs_n v = jcs_n_value v >>= encode_utf8
