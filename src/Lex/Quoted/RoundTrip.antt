-- ===== src/Lex/Quoted/RoundTrip.antt =====
-- The scanner reads back a string that `_jcs_string` printed.
use scitt_payload_binding.Common.{
  ℕ, zero, suc, ◌+◌, ◌*◌, ◌/◌, ◌%◌, ◌<◌, ◌≤◌, ◌≡◌, refl, ap, ◌∙◌, Bool, true, false, Text, [], ◌∷◌,
  ◌++◌, some, ltb, leb, ◌==◌, ==_iff, length, arith, Bool-cases, inl, inr, append-nil, append_assoc,
  length-append,
}
use scitt_payload_binding.Common.Int.{pos}
use scitt_payload_binding.Errors.{Result, ok}
use scitt_payload_binding.Python.{
  Host, digit_value, is_space, hex_value, skip_spaces, hex_digits, unsigned_base16, int_base16,
}
use scitt_payload_binding.Canonicalize.Serialize.{hex_digit, escape_char, escaped, jcs_string}
use scitt_payload_binding.Lex.Quoted.{
  hex_code, chr, short_escape, unicode_escape, Quoted, string_body, quoted,
}

hex_value-hex_digit : (host : Host) (k : ℕ) → k < 16 → hex_value host (hex_digit k) ≡ some k
unfolding hex_value digit_value
hex_value-hex_digit host k l = ground arith

hex_digits-hex_digit :
    (host : Host) (fresh : Bool) (acc k : ℕ) (s : Text)
    → k < 16
    → hex_digits host fresh acc (hex_digit k ∷ s) ≡ hex_digits host false (16 * acc + k) s
unfolding hex_digits
hex_digits-hex_digit host fresh acc k s l = rw (hex_value-hex_digit host k l, hex_digits)

hex_digits-nil : (host : Host) (n : ℕ) → hex_digits host false n [] ≡ some n
unfolding hex_digits
hex_digits-nil host n = refl

four_digits :
    (host : Host) (c : ℕ)
    → c < 0x20
    → hex_digits host true 0 (b'0' ∷ b'0' ∷ hex_digit (c / 16) ∷ hex_digit (c % 16) ∷ []) ≡ some c
four_digits host c l =
    hex_digits-hex_digit host true 0 0 _ (omega arith)
    ∙ hex_digits-hex_digit host false 0 0 _ (omega arith)
    ∙ hex_digits-hex_digit host false 0 (c / 16) _ (omega arith)
    ∙ hex_digits-hex_digit host false _ (c % 16) _ (omega arith)
    ∙ hex_digits-nil host _
    ∙ ap some (omega arith)

int_base16-control :
    (host : Host) (c : ℕ)
    → c < 0x20
    → int_base16 host (b'0' ∷ b'0' ∷ hex_digit (c / 16) ∷ hex_digit (c % 16) ∷ []) ≡ some (pos c)
unfolding int_base16 unsigned_base16 skip_spaces is_space
int_base16-control host c l = rw (four_digits host c l)

unicode_escape-control :
    (host : Host) (c : ℕ) (t : Text)
    → c < 0x20
    → unicode_escape host (b'0' ∷ b'0' ∷ hex_digit (c / 16) ∷ hex_digit (c % 16) ∷ t) ≡ ok (c, 4)
unfolding unicode_escape hex_code chr
unicode_escape-control host c t l = rw (int_base16-control host c l, hex_code, no_pair, in_range)
  where
    no_pair : leb 0xd800 c ≡ false
    no_pair = ground arith

    in_range : ltb c 0x110000 ≡ true
    in_range = ground arith

plain_body :
    (host : Host) (fuel p : ℕ) (buf t : Text) (c : ℕ)
    → (c == b'"') ≡ false
    → (c == b'\\') ≡ false
    → ltb c 0x20 ≡ false
    → string_body host (suc fuel) p buf (c ∷ t) ≡ string_body host fuel (p + 1) (buf ++ (c ∷ [])) t
unfolding string_body
plain_body host fuel p buf t c quote backslash high = rw (quote, backslash, high)

control_body :
    (host : Host) (fuel p : ℕ) (buf t : Text) (c : ℕ)
    → c < 0x20
    → string_body host
        (suc fuel)
        p
        buf
        (b'\\' ∷ b'u' ∷ b'0' ∷ b'0' ∷ hex_digit (c / 16) ∷ hex_digit (c % 16) ∷ t)
      ≡ string_body host fuel (p + 6) (buf ++ (c ∷ [])) t
unfolding string_body short_escape
control_body host fuel p buf t c l =
    rw (unicode_escape-control host c t l)
      (ap (λ q. string_body host fuel q (buf ++ (c ∷ [])) t) (omega arith))

above_controls :
    (c : ℕ)
    → ltb c 0x20 ≡ false
    → ((c == 8) ≡ false)
      × ((c == 9) ≡ false)
      × ((c == 10) ≡ false)
      × ((c == 12) ≡ false)
      × ((c == 13) ≡ false)
above_controls c h = (ground arith, ground arith, ground arith, ground arith, ground arith)

-- One round of the scanner's loop reads what the printer wrote for one character.
string_body-escape_char :
    (host : Host) (fuel p : ℕ) (buf t : Text) (c : ℕ)
    → string_body host (suc fuel) p buf (escape_char c ++ t)
      ≡ string_body host fuel (p + length (escape_char c)) (buf ++ (c ∷ [])) t
unfolding string_body escape_char short_escape
string_body-escape_char host fuel p buf t c = elim (Bool-cases (c == b'"')) [
  | inl e ↦ rw ((==_iff c b'"').0 e)
  | inr quote ↦ elim (Bool-cases (c == b'\\')) [
    | inl e ↦ rw ((==_iff c b'\\').0 e)
    | inr backslash ↦ elim (Bool-cases (ltb c 0x20)) [
      | inr high ↦
          let (a8, a9, a10, a12, a13) = above_controls c high in
          rw (quote, backslash, a8, a9, a10, a12, a13, high)
            (plain_body host fuel p buf t c quote backslash high)
      | inl low ↦ elim (Bool-cases (c == 8)) [
        | inl e ↦ rw ((==_iff c 8).0 e)
        | inr a8 ↦ elim (Bool-cases (c == 9)) [
          | inl e ↦ rw ((==_iff c 9).0 e)
          | inr a9 ↦ elim (Bool-cases (c == 10)) [
            | inl e ↦ rw ((==_iff c 10).0 e)
            | inr a10 ↦ elim (Bool-cases (c == 12)) [
              | inl e ↦ rw ((==_iff c 12).0 e)
              | inr a12 ↦ elim (Bool-cases (c == 13)) [
                | inl e ↦ rw ((==_iff c 13).0 e)
                | inr a13 ↦
                    rw (quote, backslash, a8, a9, a10, a12, a13, low)
                      (control_body host fuel p buf t c (ground arith))
              ]
            ]
          ]
        ]
      ]
    ]
  ]
]

length-escape_char : (c : ℕ) → 1 ≤ length (escape_char c)
unfolding escape_char
length-escape_char c = ground arith

length-escaped : (s : Text) → length s ≤ length (escaped s)
unfolding escaped
length-escaped [] = omega arith
length-escaped (c ∷ s) =
    rw (length-append (escape_char c) (escaped s))
      (omega (arith, length-escaped s, length-escape_char c))

abbrev read : Text → Text → ℕ → Result Quoted
read value rest end = ok (record { value = value; rest = rest; end = end })

string_body-escaped :
    (host : Host) (fuel p : ℕ) (buf s rest : Text)
    → length s < fuel
    → string_body host fuel p buf (escaped s ++ (b'"' ∷ rest))
      ≡ read (buf ++ s) rest (p + length (escaped s) + 1)
unfolding escaped
string_body-escaped host zero p buf s rest l = absurd (omega arith)
string_body-escaped host (suc fuel) p buf [] rest l =
    unfold string_body in (rw (append-nil buf) (ap (read buf rest) (omega arith)))
string_body-escaped host (suc fuel) p buf (c ∷ s) rest l =
    rw (append_assoc (escape_char c) (escaped s) (b'"' ∷ rest)) (
      string_body-escape_char host fuel p buf (escaped s ++ (b'"' ∷ rest)) c
      ∙ string_body-escaped host fuel (p + length (escape_char c)) (buf ++ (c ∷ [])) s rest
          (omega arith)
      ∙ rw (append_assoc buf (c ∷ []) s, length-append (escape_char c) (escaped s))
          (ap (read (buf ++ (c ∷ s)) rest) (omega arith)))

-- The scanner reads back every string that `_jcs_string` prints, whatever stands behind it, and stops
-- behind the closing quote; its loop never runs out of fuel on it.
pub quoted-jcs_string :
    (host : Host) (p : ℕ) (s rest : Text)
    → quoted host p (jcs_string s ++ rest)
      ≡ ok (record { value = s; rest = rest; end = p + length (jcs_string s) })
unfolding quoted jcs_string
quoted-jcs_string host p s rest = rw (append_assoc (escaped s) (b'"' ∷ []) rest) (
    string_body-escaped host _ (p + 1) [] s rest
      (rw (length-append (escaped s) (b'"' ∷ rest)) (omega (arith, length-escaped s)))
    ∙ rw (length-append (escaped s) (b'"' ∷ [])) (ap (read s rest) (omega arith)))
