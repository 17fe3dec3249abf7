-- ===== src/Lex/Number/Consumed.antt =====
-- A number token takes characters from the text.
use scitt_payload_binding.Common.{
  ℕ, ◌≤◌, ◌<◌, Bool, true, false, ◌&&◌, ◌||◌, Text, List, [], ◌∷◌, ◌++◌, Option, none, some, leb,
  ◌==◌, if◌then◌else◌, length, length-append, is_empty, arith, Bool-cases, inl, inr,
}
use scitt_payload_binding.Common.Int.{ℤ}
use scitt_payload_binding.Value.{Value, int}
use scitt_payload_binding.Errors.{
  Result, ok, err, value_error, Terminates, RawViolation, number_token_form, unsafe_integer,
  not_integer_form, outside_safe_range,
}
use scitt_payload_binding.Errors.Termination.{if-Terminates}
use scitt_payload_binding.Python.{Host, is_digit, int_base10}
use scitt_payload_binding.Lex.Number.{
  digit_run, match_integer, match_signed, match_tail, match_fraction, match_exponent, match_number,
  strict_integer, is_float_token, is_unsafe, number_value,
}

digit_run-rest : (host : Host) (s : Text) → length (digit_run host s).1 ≤ length s
unfolding digit_run
digit_run-rest host [] = omega arith
digit_run-rest host (c ∷ s) = elim (Bool-cases (is_digit host c)) [
  | inl e ↦ rw (digit_run, e) (omega (arith, digit_run-rest host s))
  | inr e ↦ rw (digit_run, e) (omega arith)
]

-- A match leaves less than this.
abbrev pub Consumes : ℕ → Option (Text × Text) → Type 0
Consumes m none = Unit
Consumes m (some (tok, rest)) = length rest < m

Consumes-if :
    (m : ℕ) (b : Bool) (x y : Option (Text × Text))
    → Consumes m x
    → Consumes m y
    → Consumes m (if b then x else y)
Consumes-if m true x y h k = h
Consumes-if m false x y h k = k

match_integer-Consumes : (host : Host) (s : Text) → Consumes (length s) (match_integer host s)
unfolding match_integer
match_integer-Consumes host [] = tt
match_integer-Consumes host (c ∷ s) = Consumes-if (length (c ∷ s)) (c == b'0') _ _ (omega arith) (
    Consumes-if (length (c ∷ s)) (leb b'1' c && leb c b'9') _ _
      (omega (arith, digit_run-rest host s)) tt)

match_signed-Consumes : (host : Host) (s : Text) → Consumes (length s) (match_signed host s)
unfolding match_signed
match_signed-Consumes host [] = tt
match_signed-Consumes host (c ∷ s) =
    Consumes-if (length (c ∷ s)) (c == b'-') _ _
      (signed (match_integer host s) (match_integer-Consumes host s))
      (match_integer-Consumes host (c ∷ s))
  where
    signed :
        (o : Option (Text × Text))
        → Consumes (length s) o
        → Consumes
            (length (c ∷ s))
            (elim o as (λ x. Option (Text × Text)) [ none ↦ none | some x ↦ some (c ∷ x.0, x.1) ])
    signed none h = tt
    signed (some (tok, rest)) h = omega arith

-- A part that may be empty leaves no more than there was.
abbrev Leaves : ℕ → Text × Text → Type 0
Leaves m (part, rest) = length rest ≤ m

Leaves-if :
    (m : ℕ) (b : Bool) (x y : Text × Text) → Leaves m x → Leaves m y → Leaves m (if b then x else y)
Leaves-if m true x y h k = h
Leaves-if m false x y h k = k

match_tail-Leaves :
    (host : Host) (lead s : Text) (m : ℕ)
    → length (lead ++ s) ≤ m
    → Leaves m (match_tail host lead s)
unfolding match_tail
match_tail-Leaves host lead s m h =
    Leaves-if m (is_empty (digit_run host s).0) ([], lead ++ s)
      (lead ++ (digit_run host s).0, (digit_run host s).1) h
      (omega (arith, h, length-append lead s, digit_run-rest host s))

match_fraction-Leaves : (host : Host) (s : Text) → Leaves (length s) (match_fraction host s)
unfolding match_fraction
match_fraction-Leaves host [] = omega arith
match_fraction-Leaves host (c ∷ s) =
    Leaves-if (length (c ∷ s)) (c == b'.') _ ([], c ∷ s)
      (match_tail-Leaves host (c ∷ []) s (length (c ∷ s)) (omega arith)) (omega arith)

match_exponent-Leaves : (host : Host) (s : Text) → Leaves (length s) (match_exponent host s)
unfolding match_exponent
match_exponent-Leaves host [] = omega arith
match_exponent-Leaves host (c ∷ []) = omega arith
match_exponent-Leaves host (c ∷ d ∷ s) =
    Leaves-if (length (c ∷ d ∷ s)) (c == b'e' || c == b'E') _ ([], c ∷ d ∷ s)
      (Leaves-if (length (c ∷ d ∷ s)) (d == b'+' || d == b'-') _ _
        (match_tail-Leaves host (c ∷ d ∷ []) s (length (c ∷ d ∷ s)) (omega arith))
        (match_tail-Leaves host (c ∷ []) (d ∷ s) (length (c ∷ d ∷ s)) (omega arith)))
      (omega arith)

-- A token that is matched has at least one character.
pub match_number-Consumes : (host : Host) (s : Text) → Consumes (length s) (match_number host s)
unfolding match_number
match_number-Consumes host s = whole (match_signed host s) (match_signed-Consumes host s)
  where
    whole :
        (o : Option (Text × Text))
        → Consumes (length s) o
        → Consumes (length s) (elim o as (λ x. Option (Text × Text)) [
          | none ↦ none
          | some x ↦ some (
            x.0
                ++ ((match_fraction host x.1).0
                    ++ (match_exponent host (match_fraction host x.1).1).0),
            (match_exponent host (match_fraction host x.1).1).1,
          )
        ])
    whole none h = tt
    whole (some (tok, rest)) h = omega (
      arith,
      h,
      match_fraction-Leaves host rest,
      match_exponent-Leaves host (match_fraction host rest).1,
    )

pub number_value-Terminates :
    (host : Host) (path tok : Text) → Terminates (number_value host path tok)
unfolding number_value
number_value-Terminates host path tok =
    if-Terminates (strict_integer tok) _ _ (strict (int_base10 host tok))
      (if-Terminates (is_float_token tok) _ _ tt (loose (int_base10 host tok)))
  where
    strict :
        (o : Option ℤ)
        → Terminates (elim o as (λ x. Result (Value × List RawViolation)) [
          | none ↦ err value_error
          | some v ↦
              if is_unsafe v
              then ok (
                int v,
                record { path = path; code = unsafe_integer; detail = outside_safe_range tok } ∷ [],
              )
              else ok (int v, [])
        ])
    strict none = tt
    strict (some v) = if-Terminates (is_unsafe v) _ _ tt tt

    loose :
        (o : Option ℤ)
        → Terminates (elim o as (λ x. Result (Value × List RawViolation)) [
          | none ↦ err value_error
          | some v ↦ ok (
            int v,
            record { path = path; code = number_token_form; detail = not_integer_form tok } ∷ [],
          )
        ])
    loose none = tt
    loose (some v) = tt
