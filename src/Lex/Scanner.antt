-- ===== src/Lex/Scanner.antt =====
-- `_Scanner` and `lex`. A method that raises ends the whole run, so the state that it leaves is not
-- kept; `finally: self._depth -= 1` is the decrement on the way out.
pub mod Termination
use scitt_payload_binding.Common.{
  ℕ, zero, suc, ◌+◌, ◌-◌, ◌*◌, Bool, true, false, ◌||◌, Text, Bytes, List, [], ◌∷◌, ◌++◌, Option,
  none, some, ltb, ◌==◌, if◌then◌else◌, length, take, drop, text_eq, codes,
}
use scitt_payload_binding.Value.{
  Value, Items, Fields, null, bool, str, arr, obj, no_items, no_fields, append_item, set,
}
use scitt_payload_binding.Errors.{
  Result, ok, err, out_of_fuel, ◌>>=◌, value_error, unicode_error, RawViolation, duplicate_key,
  repeated,
}
use scitt_payload_binding.Python.{Host, is_ascii_digit, decimal_text}
use scitt_payload_binding.Unicode.{utf8_decode}
use scitt_payload_binding.Lex.Number.{match_number, number_value}
use scitt_payload_binding.Lex.Quoted.{quoted}

abbrev pub max_depth : ℕ
max_depth = 300

pub record Scanner : Type 0 where
  pub left : Text
  pub at : ℕ
  pub depth : ℕ
  pub violations : List RawViolation

-- What a method returns: its value, and the scanner behind it.
abbrev pub Scanned : Type 0 → Type 0
Scanned A = Result (A × Scanner)

abbrev pub is_ws : ℕ → Bool
is_ws c = c == b' ' || (c == 9 || (c == 10 || c == 13))

-- the position and the text behind leading whitespace
unfoldable pub skip_ws : ℕ → Text → ℕ × Text
skip_ws p [] = (p, [])
skip_ws p (c ∷ s) = elim (is_ws c) [ true ↦ skip_ws (p + 1) s | false ↦ (p, c ∷ s) ]

unfoldable pub ws : Scanner → Scanner
ws s = let (p, t) = skip_ws s.at s.left in record s { at = p; left = t }

-- `self._p += n`
abbrev pub advance : ℕ → Scanner → Scanner
advance n s = record s { at = s.at + n; left = drop n s.left }

unfoldable pub expect_at : ℕ → Scanner → Text → Scanned (Unit {0})
expect_at c s [] = err value_error
expect_at c s (d ∷ t) = if d == c then ok (tt, advance 1 s) else err value_error

unfoldable pub expect : ℕ → Scanner → Scanned (Unit {0})
expect c s = expect_at c s s.left

unfoldable pub push_depth : Scanner → Scanned (Unit {0})
push_depth s =
    if ltb max_depth (s.depth + 1)
    then err value_error
    else ok (tt, record s { depth = s.depth + 1 })

unfoldable pub pop_depth : Scanner → Scanner
pop_depth s = record s { depth = s.depth - 1 }

unfoldable pub scan_string : Host → Scanner → Scanned Text
scan_string host s0 =
    let s = ws s0 in
    quoted host s.at s.left >>= λ q. ok (q.value, record s { at = q.end; left = q.rest })

unfoldable pub number_at : Host → Text → Scanner → Option (Text × Text) → Scanned Value
number_at host path s none = err value_error
number_at host path s (some (tok, rest)) = number_value host path tok >>= λ (v, found).
    ok (v, record s { at = s.at + length tok; left = rest; violations = s.violations ++ found })

unfoldable pub scan_number : Host → Text → Scanner → Scanned Value
scan_number host path s = number_at host path s (match_number host s.left)

abbrev pub literal : Scanner → ℕ → Value → Scanned Value
literal s n v = ok (v, advance n s)

-- the tests of `parse` on the character at hand, with the results of the two recursive methods
unfoldable pub dispatch :
    Host → Text → Scanner → Text → Scanned Value → Scanned Value → Scanned Value
dispatch host path s [] object array = err value_error
dispatch host path s (c ∷ t) object array =
    if c == b'{'
    then object
    else if c == b'['
    then array
    else if c == b'"'
    then (scan_string host s >>= λ (text, s'). ok (str text, s'))
    else if c == b'-' || is_ascii_digit c
    then scan_number host path s
    else if text_eq (take 4 (c ∷ t)) (codes "null")
    then literal s 4 null
    else if text_eq (take 4 (c ∷ t)) (codes "true")
    then literal s 4 (bool true)
    else if text_eq (take 5 (c ∷ t)) (codes "false")
    then literal s 5 (bool false)
    else err value_error

-- f'{path}[{json.dumps(key)}]'
abbrev pub member_path : Host → Text → Text → Text
member_path host path key = path ++ (b'[' ∷ (host.dumps key ++ (b']' ∷ [])))

-- f'{path}[{idx}]'
abbrev pub element_path : Text → ℕ → Text
element_path path idx = path ++ (b'[' ∷ (decimal_text idx ++ (b']' ∷ [])))

-- `seen`: the decoded keys of an object with the position of the first occurrence
abbrev pub Seen : Type 0
Seen = List (Text × ℕ)

unfoldable pub first_seen : Text → Seen → Option ℕ
first_seen key [] = none
first_seen key ((k, p) ∷ seen) = elim (text_eq key k) [
  | true ↦ some p
  | false ↦ first_seen key seen
]

-- what a key adds to the violations and to `seen`
unfoldable pub note_key : Host → Text → Text → Seen → Scanner → Seen × Scanner
note_key host path key seen s = elim (first_seen key seen) [
  | some p ↦ (
    seen,
    record s {
      violations =
          s.violations
          ++ (record {
            path = member_path host path key;
            code = duplicate_key;
            detail = repeated key path p;
          }
              ∷ []);
    },
  )
  | none ↦ ((key, s.at) ∷ seen, s)
]

-- the character at hand
abbrev pub head_is : ℕ → Scanner → Bool
head_is c s = elim s.left [ [] ↦ false | d ∷ t ↦ d == c ]

-- `if not first: self._expect(',')`
abbrev pub separator : Bool → Scanner → Scanned (Unit {0})
separator first s = if first then ok (tt, s) else expect b',' s

-- An object's member up to its value: the key, `seen`, and the scanner behind the colon.
unfoldable pub scan_key : Host → Text → Bool → Seen → Scanner → Scanned (Text × Seen)
scan_key host path first seen s = separator first s >>= λ (_, s1).
    scan_string host (ws s1) >>= λ (key, s2). expect b':' (ws s2) >>= λ (_, s3).
    let (seen', s4) = note_key host path key seen s3 in ok ((key, seen'), s4)

unfoldable mutual
  -- parse
  pub parse : Host → ℕ → Text → Scanner → Scanned Value
  parse host zero path s0 = out_of_fuel
  parse host (suc f) path s0 =
      let s = ws s0 in
      let object = push_depth s >>= λ (_, s1).
      members host f path true no_fields [] (advance 1 s1) >>= λ (fs, s2).
      ok (obj fs, pop_depth s2) in
      let array = push_depth s >>= λ (_, s1).
      elements host f path true 0 no_items (advance 1 s1) >>= λ (xs, s2).
      ok (arr xs, pop_depth s2) in
      dispatch host path s s.left object array

  -- the loop of _object
  pub members : Host → ℕ → Text → Bool → Fields → Seen → Scanner → Scanned Fields
  members host zero path first result seen s0 = out_of_fuel
  members host (suc f) path first result seen s0 =
      let s = ws s0 in
      let more = scan_key host path first seen s >>= λ ((key, seen'), s1).
      parse host f (member_path host path key) s1 >>= λ (v, s2).
      members host f path false (set key v result) seen' s2 in
      if head_is b'}' s then ok (result, advance 1 s) else more

  -- the loop of _array; `idx` is `len(result)`
  pub elements : Host → ℕ → Text → Bool → ℕ → Items → Scanner → Scanned Items
  elements host zero path first idx result s0 = out_of_fuel
  elements host (suc f) path first idx result s0 =
      let s = ws s0 in
      let more = separator first s >>= λ (_, s1).
      parse host f (element_path path idx) s1 >>= λ (v, s2).
      elements host f path false (idx + 1) (append_item result v) s2 in
      if head_is b']' s then ok (result, advance 1 s) else more

abbrev pub start : Text → Scanner
start text = record { left = text; at = 0; depth = 0; violations = [] }

-- Each call costs a unit of fuel, and two calls at most are made for one character.
abbrev pub lex_fuel : Text → ℕ
lex_fuel text = 2 * length text + 2

unfoldable pub finish : Value → Scanner → Result (Value × List RawViolation)
finish v s = elim s.left [ [] ↦ ok (v, s.violations) | _ ∷ _ ↦ err value_error ]

-- `lex` on decoded text
unfoldable pub lex : Host → Text → Result (Value × List RawViolation)
lex host text = parse host (lex_fuel text) (codes "$") (start text) >>= λ (v, s). finish v (ws s)

-- `lex` takes text, or bytes that it decodes as UTF-8.
pub data Raw : Type 0 where
  text : Text → Raw
  octets : Bytes → Raw

unfoldable pub lex_decoded : Host → Option Text → Result (Value × List RawViolation)
lex_decoded host none = err unicode_error
lex_decoded host (some t) = lex host t

unfoldable pub lex_raw : Host → Raw → Result (Value × List RawViolation)
lex_raw host (text t) = lex host t
lex_raw host (octets b) = lex_decoded host (utf8_decode b)
