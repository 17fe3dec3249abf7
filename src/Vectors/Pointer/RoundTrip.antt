-- ===== src/Vectors/Pointer/RoundTrip.antt =====
-- Parsing a pointer that was printed by RFC 6901.
use scitt_payload_binding.Common.{
  ℕ, ◌≡◌, refl, ap, ◌∙◌, true, false, Text, List, [], ◌∷◌, ◌++◌, map, ◌==◌, ==_iff, if◌then◌else◌,
  Bool-cases, inl, inr, append-nil,
}
use scitt_payload_binding.Errors.{ok}
use scitt_payload_binding.Vectors.Pointer.{
  valid_escapes, replace, unescape_pointer_token, slash_step, split_slash, unescape_all,
  parse_json_pointer,
}

-- RFC 6901, section 3: "~" is written "~0", and "/" is written "~1".
abbrev pub escape_step : ℕ → Text → Text
escape_step c s =
    if c == b'~' then b'~' ∷ b'0' ∷ s else if c == b'/' then b'~' ∷ b'1' ∷ s else c ∷ s

unfoldable pub escape : Text → Text
escape [] = []
escape (c ∷ s) = escape_step c (escape s)

unfoldable pub print_pointer : List Text → Text
print_pointer [] = []
print_pointer (t ∷ ts) = b'/' ∷ (escape t ++ print_pointer ts)

valid_escapes-plain :
    (c : ℕ) (t : Text) → (c == b'~') ≡ false → valid_escapes (c ∷ t) ≡ valid_escapes t
unfolding valid_escapes
valid_escapes-plain c [] h = rw h
valid_escapes-plain c (d ∷ t) h = rw (h, valid_escapes)

replace-plain :
    (x y c : ℕ) (t : Text) → (c == b'~') ≡ false → replace x y (c ∷ t) ≡ c ∷ replace x y t
unfolding replace
replace-plain x y c [] h = refl
replace-plain x y c (d ∷ t) h = rw (h, replace)

-- "~" written "~0", and "/" as it is
half : Text → Text
half [] = []
half (c ∷ s) = if c == b'~' then b'~' ∷ b'0' ∷ half s else c ∷ half s

valid_escapes-escape : (s : Text) → valid_escapes (escape s) ≡ true
unfolding escape valid_escapes
valid_escapes-escape [] = refl
valid_escapes-escape (c ∷ s) = elim (Bool-cases (c == b'~')) [
  | inl e ↦ rw e (valid_escapes-escape s)
  | inr n ↦ elim (Bool-cases (c == b'/')) [
    | inl e ↦ rw (n, e) (valid_escapes-escape s)
    | inr m ↦ rw (n, m) (valid_escapes-plain c (escape s) n ∙ valid_escapes-escape s)
  ]
]

replace-escape : (s : Text) → replace b'1' b'/' (escape s) ≡ half s
unfolding escape replace half
replace-escape [] = refl
replace-escape (c ∷ s) = elim (Bool-cases (c == b'~')) [
  | inl e ↦ rw e (
      ap (λ t. b'~' ∷ t)
        (replace-plain b'1' b'/' b'0' (escape s) refl ∙ ap (λ t. b'0' ∷ t) (replace-escape s)))
  | inr n ↦ elim (Bool-cases (c == b'/')) [
    | inl e ↦ let slash = (==_iff c b'/').0 e in rw slash (ap (λ t. b'/' ∷ t) (replace-escape s))
    | inr m ↦
        rw (n, m) (replace-plain b'1' b'/' c (escape s) n ∙ ap (λ t. c ∷ t) (replace-escape s))
  ]
]

replace-half : (s : Text) → replace b'0' b'~' (half s) ≡ s
unfolding half replace
replace-half [] = refl
replace-half (c ∷ s) = elim (Bool-cases (c == b'~')) [
  | inl e ↦ let tilde = (==_iff c b'~').0 e in rw tilde (ap (λ t. b'~' ∷ t) (replace-half s))
  | inr n ↦ rw n (replace-plain b'0' b'~' c (half s) n ∙ ap (λ t. c ∷ t) (replace-half s))
]

-- Unescaping a token that was escaped gives the token.
pub unescape_pointer_token-escape : (s : Text) → unescape_pointer_token (escape s) ≡ ok s
unfolding unescape_pointer_token
unescape_pointer_token-escape s =
    rw (valid_escapes-escape s, replace-escape s) (ap ok (replace-half s))

split_slash-escape :
    (s rest : Text)
    → split_slash (escape s ++ rest) ≡ (escape s ++ (split_slash rest).0, (split_slash rest).1)
unfolding escape split_slash
split_slash-escape [] rest = refl
split_slash-escape (c ∷ s) rest = elim (Bool-cases (c == b'~')) [
  | inl e ↦ rw (e, split_slash-escape s rest)
  | inr n ↦ elim (Bool-cases (c == b'/')) [
    | inl e ↦ rw (n, e, split_slash-escape s rest)
    | inr m ↦ rw (n, m, split_slash-escape s rest, slash_step, m)
  ]
]

split_slash-print :
    (ts : List Text) (c : Text)
    → split_slash (escape c ++ print_pointer ts) ≡ (escape c, map escape ts)
unfolding print_pointer split_slash
split_slash-print [] c = rw (split_slash-escape c [], append-nil (escape c))
split_slash-print (u ∷ us) c =
    rw
      (split_slash-escape c (print_pointer (u ∷ us)), split_slash-print us u, append-nil (escape c))

unescape_all-escape : (ts : List Text) → unescape_all (map escape ts) ≡ ok ts
unfolding unescape_all
unescape_all-escape [] = refl
unescape_all-escape (t ∷ ts) = rw (unescape_pointer_token-escape t, unescape_all-escape ts)

-- Every list of one token or more is read back from the pointer that RFC 6901 writes for it, whatever
-- characters the tokens have.
pub parse_json_pointer-print_pointer :
    (t : Text) (ts : List Text) → parse_json_pointer (print_pointer (t ∷ ts)) ≡ ok (t ∷ ts)
unfolding parse_json_pointer print_pointer
parse_json_pointer-print_pointer t ts = rw (split_slash-print ts t) (unescape_all-escape (t ∷ ts))
