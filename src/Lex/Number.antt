-- ===== src/Lex/Number.antt =====
-- Number tokens: the token regex, the strict integer form, and the value of a token.
pub mod Consumed
use scitt_payload_binding.Common.{
  ℕ, ◌-◌, ◌^◌, Bool, true, false, ◌&&◌, ◌||◌, Text, [], ◌∷◌, ◌++◌, Option, none, some, leb, ltb,
  ◌==◌, if◌then◌else◌, all, is_empty, char_in,
}
use scitt_payload_binding.Common.Int.{ℤ, magnitude}
use scitt_payload_binding.Value.{Value, int, float}
use scitt_payload_binding.Errors.{
  Result, ok, err, value_error, RawViolation, number_token_form, unsafe_integer, not_integer_form,
  outside_safe_range,
}
use scitt_payload_binding.Python.{Host, is_digit, is_ascii_digit, int_base10}
use mathlib.Core.List.{List}

-- 2**53 - 1
abbrev pub max_safe_integer : ℕ
max_safe_integer = 2 ^ 53 - 1

-- the longest run of `\d`, and what follows
unfoldable pub digit_run : Host → Text → Text × Text
digit_run host [] = ([], [])
digit_run host (c ∷ s) =
    let (run, rest) = digit_run host s in
    elim (is_digit host c) [ true ↦ (c ∷ run, rest) | false ↦ ([], c ∷ s) ]

-- (?:0|[1-9]\d*)
unfoldable pub match_integer : Host → Text → Option (Text × Text)
match_integer host [] = none
match_integer host (c ∷ s) =
    let (run, rest) = digit_run host s in
    if c == b'0'
    then some (c ∷ [], s)
    else if leb b'1' c && leb c b'9'
    then some (c ∷ run, rest)
    else none

-- -?(?:0|[1-9]\d*)
unfoldable pub match_signed : Host → Text → Option (Text × Text)
match_signed host [] = none
match_signed host (c ∷ s) =
    if c == b'-'
    then elim (match_integer host s) [ none ↦ none | some (tok, rest) ↦ some (c ∷ tok, rest) ]
    else match_integer host (c ∷ s)

-- `sep\d+`, or nothing
unfoldable pub match_tail : Host → Text → Text → Text × Text
match_tail host lead s =
    let (run, rest) = digit_run host s in
    if is_empty run then ([], lead ++ s) else (lead ++ run, rest)

-- (?:\.\d+)?
unfoldable pub match_fraction : Host → Text → Text × Text
match_fraction host [] = ([], [])
match_fraction host (c ∷ s) = if c == b'.' then match_tail host (c ∷ []) s else ([], c ∷ s)

-- (?:[eE][+-]?\d+)?
unfoldable pub match_exponent : Host → Text → Text × Text
match_exponent host [] = ([], [])
match_exponent host (c ∷ []) = ([], c ∷ [])
match_exponent host (c ∷ d ∷ s) =
    if c == b'e' || c == b'E'
    then (if d == b'+' || d == b'-'
        then match_tail host (c ∷ d ∷ []) s
        else match_tail host (c ∷ []) (d ∷ s))
    else ([], c ∷ d ∷ s)

-- _JSON_NUM_RE.match: the token and what follows it
unfoldable pub match_number : Host → Text → Option (Text × Text)
match_number host s = elim (match_signed host s) [
  | none ↦ none
  | some (tok, rest) ↦
      let (frac, rest') = match_fraction host rest in
      let (expo, rest'') = match_exponent host rest' in some (tok ++ (frac ++ expo), rest'')
]

-- [1-9][0-9]*
unfoldable pub positive_form : Text → Bool
positive_form [] = false
positive_form (c ∷ s) = leb b'1' c && leb c b'9' && all is_ascii_digit s

-- _STRICT_INT_RE: ^(?:0|-?[1-9][0-9]*)$
unfoldable pub strict_integer : Text → Bool
strict_integer [] = false
strict_integer (c ∷ s) =
    c == b'0' && elim s [ [] ↦ true | _ ∷ _ ↦ false ]
    || (if c == b'-' then positive_form s else positive_form (c ∷ s))

-- '.' in tok or 'e' in tok.lower()
unfoldable pub is_float_token : Text → Bool
is_float_token tok = char_in b'.' tok || (char_in b'e' tok || char_in b'E' tok)

abbrev pub is_unsafe : ℤ → Bool
is_unsafe v = ltb max_safe_integer (magnitude v)

-- The value of a token and the violations that it adds, at a path.
unfoldable pub number_value : Host → Text → Text → Result (Value × List RawViolation)
number_value host path tok =
    if strict_integer tok
    then elim (int_base10 host tok) [
      | none ↦ err value_error
      | some v ↦
          if is_unsafe v
          then ok (
            int v,
            record { path = path; code = unsafe_integer; detail = outside_safe_range tok } ∷ [],
          )
          else ok (int v, [])
    ]
    else if is_float_token tok
    then ok (
      float tok,
      record { path = path; code = number_token_form; detail = not_integer_form tok } ∷ [],
    )
    else elim (int_base10 host tok) [
      | none ↦ err value_error
      | some v ↦ ok (
        int v,
        record { path = path; code = number_token_form; detail = not_integer_form tok } ∷ [],
      )
    ]
