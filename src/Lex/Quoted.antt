-- ===== src/Lex/Quoted.antt =====
-- `_Scanner._string`: a quoted string with its escapes.
pub mod RoundTrip
pub mod Termination
use scitt_payload_binding.Common.{
  ℕ, zero, suc, ◌+◌, ◌-◌, ◌*◌, Bool, true, false, ◌&&◌, Text, [], ◌∷◌, ◌++◌, Option, none, some,
  leb, ltb, ◌==◌, if◌then◌else◌, length, take, drop, text_eq,
}
use scitt_payload_binding.Common.Int.{ℤ, pos, negsuc}
use scitt_payload_binding.Errors.{Result, ok, err, out_of_fuel, ◌>>=◌, value_error}
use scitt_payload_binding.Python.{Host, int_base16}

-- `int(text, 16)`, raising
unfoldable pub hex_code : Host → Text → Result ℤ
hex_code host s = elim (int_base16 host s) [ none ↦ err value_error | some v ↦ ok v ]

-- `chr(code)`
unfoldable pub chr : ℤ → Result ℕ
chr (pos n) = if ltb n 0x110000 then ok n else err value_error
chr (negsuc n) = err value_error

abbrev pub between : ℕ → ℤ → ℕ → Bool
between lo (pos n) hi = leb lo n && leb n hi
between lo (negsuc n) hi = false

abbrev pub above : ℕ → ℤ → ℕ
above lo (pos n) = n - lo
above lo (negsuc n) = 0

-- the character of a two-character escape: the code points of the letter and of the result
unfoldable pub short_escape : ℕ → Option ℕ
short_escape e =
    if e == b'"'
    then some b'"'
    else if e == b'\\'
    then some b'\\'
    else if e == b'/'
    then some b'/'
    else if e == b'b'
    then some 8
    else if e == b'f'
    then some 12
    else if e == b'n'
    then some 10
    else if e == b'r'
    then some 13
    else if e == b't'
    then some 9
    else none

-- `\uXXXX`, and a surrogate pair `\uXXXX\uXXXX`. `s` is the text behind the `u`: the character,
-- and how much of `s` was used.
unfoldable pub unicode_escape : Host → Text → Result (ℕ × ℕ)
unicode_escape host s =
    if ltb (length (take 4 s)) 4
    then err value_error
    else hex_code host (take 4 s) >>= λ code.
        if between 0xd800 code 0xdbff && text_eq (take 2 (drop 4 s)) (b'\\' ∷ b'u' ∷ [])
        then (hex_code host (take 4 (drop 6 s)) >>= λ low.
            if between 0xdc00 low 0xdfff
            then ok (0x10000 + above 0xd800 code * 0x400 + above 0xdc00 low, 10)
            else chr code >>= λ c. ok (c, 4))
        else chr code >>= λ c. ok (c, 4)

-- A string that was read, the text behind its closing quote and the position there.
pub record Quoted : Type 0 where
  pub value : Text
  pub rest : Text
  pub end : ℕ

-- The loop behind the opening quote, at the position `p`, with the characters read so far.
unfoldable pub string_body : Host → ℕ → ℕ → Text → Text → Result Quoted
string_body host zero p buf s = out_of_fuel
string_body host (suc fuel) p buf [] = err value_error
string_body host (suc fuel) p buf (c ∷ s) =
    let plain = string_body host fuel (p + 1) (buf ++ (c ∷ [])) s in
    let escape : Result Quoted = elim s [
      | [] ↦ err value_error
      | e ∷ t ↦ elim (short_escape e) [
        | some d ↦ string_body host fuel (p + 2) (buf ++ (d ∷ [])) t
        | none ↦ elim (e == b'u') [
          | true ↦ unicode_escape host t >>= λ (d, used).
              string_body host fuel (p + 2 + used) (buf ++ (d ∷ [])) (drop used t)
          | false ↦ err value_error
        ]
      ]
    ] in
    if c == b'"'
    then ok (record { value = buf; rest = s; end = p + 1 })
    else if c == b'\\'
    then escape
    else if ltb c 0x20
    then err value_error
    else plain

-- Each round uses a character at least.
unfoldable pub quoted : Host → ℕ → Text → Result Quoted
quoted host p [] = err value_error
quoted host p (c ∷ s) =
    if c == b'"' then string_body host (suc (length s)) (p + 1) [] s else err value_error
