-- ===== src/Python.antt =====
-- What the code uses of Python's `str` and `int`: Unicode tables and `json.dumps` of a key are
-- parameters, the conversions over them are written out.
use scitt_payload_binding.Common.{
  ℕ, zero, suc, ◌+◌, ◌-◌, ◌*◌, ◌/◌, ◌%◌, Bool, true, false, ◌&&◌, ◌||◌, Text, Bytes, [], ◌∷◌, ◌++◌,
  Option, none, some, leb, ltb, ◌==◌, if◌then◌else◌, length,
}
use scitt_payload_binding.Common.Int.{ℤ, pos, negsuc, neg}

-- The tables of `unicodedata` above U+007F, `json.dumps(key)` on a string, float equality and the
-- IPv6 parser.
pub record Host : Type 0 where
  -- the value of a decimal digit (category Nd)
  pub decimal : ℕ → Option ℕ
  -- `str.isspace`
  pub space : ℕ → Bool
  pub dumps : Text → Text
  -- `==` of the floats that `struct.unpack` makes of two encodings
  pub float_eq : Bytes → Bytes → Bool
  -- `urlsplit` raises no ValueError about a netloc with both brackets
  pub bracketed_netloc : Text → Bool
  -- `IPv6Address(text)` raises no ValueError
  pub is_ipv6 : Text → Bool

abbrev pub is_ascii_digit : ℕ → Bool
is_ascii_digit c = leb b'0' c && leb c b'9'

-- the value of a code point that `\d` matches
unfoldable pub digit_value : Host → ℕ → Option ℕ
digit_value host c =
    if ltb c 128 then (if is_ascii_digit c then some (c - b'0') else none) else host.decimal c

-- `\d`
unfoldable pub is_digit : Host → ℕ → Bool
is_digit host c = elim (digit_value host c) [ none ↦ false | some v ↦ true ]

-- whitespace that `int` strips
unfoldable pub is_space : Host → ℕ → Bool
is_space host c = if ltb c 128 then leb 9 c && leb c 13 || c == 32 else host.space c

-- the value of a digit of base 16, after decimal digits have been brought to ASCII
unfoldable pub hex_value : Host → ℕ → Option ℕ
hex_value host c = elim (digit_value host c) [
  | some v ↦ some v
  | none ↦
      if leb b'a' c && leb c b'f'
      then some (c - b'a' + 10)
      else if leb b'A' c && leb c b'F'
      then some (c - b'A' + 10)
      else none
]

unfoldable pub skip_spaces : Host → Text → Text
skip_spaces host [] = []
skip_spaces host (c ∷ s) = elim (is_space host c) [ true ↦ skip_spaces host s | false ↦ c ∷ s ]

-- The digits of a base-16 number: single underscores may stand between two digits. `fresh` says
-- that a digit must follow. Whitespace may follow the last digit.
unfoldable pub hex_digits : Host → Bool → ℕ → Text → Option ℕ
hex_digits host fresh acc [] = if fresh then none else some acc
hex_digits host fresh acc (c ∷ s) = elim (hex_value host c) [
  | some v ↦ hex_digits host false (16 * acc + v) s
  | none ↦ if fresh then none else elim (c == b'_') [
    | true ↦ hex_digits host true acc s
    | false ↦ elim (skip_spaces host (c ∷ s)) [ [] ↦ some acc | _ ∷ _ ↦ none ]
  ]
]

-- After the optional `0x` an underscore may stand before the first digit.
unfoldable pub after_prefix : Host → Text → Option ℕ
after_prefix host [] = none
after_prefix host (c ∷ s) =
    if c == b'_' then hex_digits host true 0 s else hex_digits host true 0 (c ∷ s)

unfoldable pub unsigned_base16 : Host → Text → Option ℕ
unsigned_base16 host (c ∷ x ∷ s) =
    if c == b'0' && (x == b'x' || x == b'X')
    then after_prefix host s
    else hex_digits host true 0 (c ∷ x ∷ s)
unsigned_base16 host s = hex_digits host true 0 s

-- `int(s, 16)`; `none` is ValueError
unfoldable pub int_base16 : Host → Text → Option ℤ
int_base16 host s = elim (skip_spaces host s) [
  | [] ↦ none
  | c ∷ t ↦
      if c == b'-'
      then elim (unsigned_base16 host t) [ none ↦ none | some n ↦ some (neg n) ]
      else if c == b'+'
      then elim (unsigned_base16 host t) [ none ↦ none | some n ↦ some (pos n) ]
      else elim (unsigned_base16 host (c ∷ t)) [ none ↦ none | some n ↦ some (pos n) ]
]

-- The default of `sys.get_int_max_str_digits()`.
abbrev pub max_str_digits : ℕ
max_str_digits = 4300

-- the value of a run of digits in base 10
unfoldable pub digits_value : Host → ℕ → Text → Option ℕ
digits_value host acc [] = some acc
digits_value host acc (c ∷ s) = elim (digit_value host c) [
  | none ↦ none
  | some v ↦ digits_value host (10 * acc + v) s
]

-- `int(tok)` of a token `-?\d+`; `none` is the ValueError of a token with too many digits
unfoldable pub int_base10 : Host → Text → Option ℤ
int_base10 host [] = none
int_base10 host (c ∷ s) =
    if c == b'-'
    then (if ltb max_str_digits (length s)
        then none
        else elim (digits_value host 0 s) [ none ↦ none | some n ↦ some (neg n) ])
    else if ltb max_str_digits (length (c ∷ s))
    then none
    else elim (digits_value host 0 (c ∷ s)) [ none ↦ none | some n ↦ some (pos n) ]

-- the digits of n, least last; n rounds are enough
unfoldable pub decimal_digits : ℕ → ℕ → Text
decimal_digits zero n = []
decimal_digits (suc f) n =
    let higher = decimal_digits f (n / 10) in
    if ltb n 10 then (b'0' + n) ∷ [] else higher ++ ((b'0' + n % 10) ∷ [])

-- str(n)
unfoldable pub decimal_text : ℕ → Text
decimal_text n = decimal_digits (suc n) n

-- str(v)
unfoldable pub int_text : ℤ → Text
int_text (pos n) = decimal_text n
int_text (negsuc n) = b'-' ∷ decimal_text (suc n)
