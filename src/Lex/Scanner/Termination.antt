-- ===== src/Lex/Scanner/Termination.antt =====
-- The scanner returns on every input: its fuel suffices.
use scitt_payload_binding.Common.{
  ℕ, zero, suc, ◌+◌, ◌*◌, ◌≤◌, ◌<◌, ◌≡◌, refl, sym, ap, subst, Bool, true, false, ◌||◌, Text, List,
  [], ◌∷◌, Option, none, some, ltb, ◌==◌, length, take, drop, length-drop, text_eq, codes, arith,
  Bool-cases, Option-cases, inl, inr,
}
use scitt_payload_binding.Value.{Value, Items, Fields, no_items, no_fields, append_item, set}
use scitt_payload_binding.Errors.{Result, ok, err, ◌>>=◌, value_error, RawViolation, Terminates}
use scitt_payload_binding.Errors.Termination.{
  Within, Within->>=, Within-then, Within-if, Within-weaker, Within-Terminates,
}
use scitt_payload_binding.Python.{Host, is_ascii_digit}
use scitt_payload_binding.Unicode.{utf8_decode}
use scitt_payload_binding.Lex.Number.{match_number, number_value}
use scitt_payload_binding.Lex.Number.Consumed.{
  Consumes, match_number-Consumes, number_value-Terminates,
}
use scitt_payload_binding.Lex.Quoted.{quoted}
use scitt_payload_binding.Lex.Quoted.Termination.{quoted-Shortens}
use scitt_payload_binding.Lex.Scanner.{
  Scanner, Scanned, is_ws, skip_ws, ws, advance, expect_at, expect, push_depth, pop_depth,
  scan_string, number_at, scan_number, dispatch, member_path, element_path, Seen, first_seen,
  note_key, head_is, separator, scan_key, parse, members, elements, start, finish, lex, Raw,
  lex_decoded, lex_raw,
}

-- the text that a method leaves
abbrev left_size : {A : Type 0} → A × Scanner → ℕ
left_size (a, s) = length s.left

-- It returns, and leaves less text than this.
abbrev Takes : {A : Type 0} → ℕ → Scanned A → Type 0
Takes m r = Within left_size m r

skip_ws-length : (p : ℕ) (s : Text) → length (skip_ws p s).1 ≤ length s
unfolding skip_ws
skip_ws-length p [] = omega arith
skip_ws-length p (c ∷ s) = elim (Bool-cases (is_ws c)) [
  | inl e ↦ rw (skip_ws, e) (omega (arith, skip_ws-length (p + 1) s))
  | inr e ↦ rw (skip_ws, e) (omega arith)
]

ws-length : (s : Scanner) → length (ws s).left ≤ length s.left
unfolding ws
ws-length s = skip_ws-length s.at s.left

expect_at-Takes : (c : ℕ) (s : Scanner) (t : Text) → s.left ≡ t → Takes (length t) (expect_at c s t)
unfolding expect_at
expect_at-Takes c s [] e = tt
expect_at-Takes c s (d ∷ t) e =
    Within-if left_size (length (d ∷ t)) (d == c) _ _
      (subst (λ u. length (drop 1 u) < length (d ∷ t)) (sym e) (omega arith)) tt

expect-Takes : (c : ℕ) (s : Scanner) → Takes (length s.left) (expect c s)
unfolding expect
expect-Takes c s = expect_at-Takes c s s.left refl

separator-Takes : (first : Bool) (s : Scanner) → Takes (suc (length s.left)) (separator first s)
separator-Takes true s = omega arith
separator-Takes false s =
    Within-weaker left_size (length s.left) (suc (length s.left)) (expect b',' s) (omega arith)
      (expect-Takes b',' s)

scan_string-Takes : (host : Host) (s : Scanner) → Takes (length s.left) (scan_string host s)
unfolding scan_string
scan_string-Takes host s =
    Within->>= (λ q. length q.rest) left_size (length (ws s).left) (length s.left)
      (quoted host (ws s).at (ws s).left) _ (quoted-Shortens host (ws s).at (ws s).left)
      λ q less. omega (arith, less, ws-length s)

scan_number-Takes :
    (host : Host) (path : Text) (s : Scanner) → Takes (length s.left) (scan_number host path s)
unfolding scan_number number_at
scan_number-Takes host path s =
    matched (match_number host s.left) (match_number-Consumes host s.left)
  where
    matched :
        (o : Option (Text × Text))
        → Consumes (length s.left) o
        → Takes (length s.left) (number_at host path s o)
    matched none h = tt
    matched (some (tok, rest)) h =
        Within-then left_size (length s.left) (number_value host path tok) _
          (number_value-Terminates host path tok) λ (v, found). h

push_depth-bind :
    {B : Type 0} (m : ℕ) (s : Scanner) (k : Unit {0} × Scanner → Scanned B)
    → ((s1 : Scanner) → s1.left ≡ s.left → Takes m (k (tt, s1)))
    → Takes m (push_depth s >>= k)
unfolding push_depth
push_depth-bind m s k h = elim (Bool-cases (ltb 300 (s.depth + 1))) [
  | inl e ↦ rw (push_depth, e) tt
  | inr e ↦ rw (push_depth, e) (h _ refl)
]

-- One or more characters are dropped from a text that has one.
drop-length : (n c : ℕ) (t : Text) → length (drop (suc n) (c ∷ t)) < length (c ∷ t)
drop-length n c t = omega (arith, length-drop n t)

dispatch-Takes :
    (host : Host) (path : Text) (s : Scanner) (t : Text) (object array : Scanned Value)
    → s.left ≡ t
    → (0 < length t → Takes (length t) object)
    → (0 < length t → Takes (length t) array)
    → Takes (length t) (dispatch host path s t object array)
unfolding dispatch
dispatch-Takes host path s [] object array e ho ha = tt
dispatch-Takes host path s (c ∷ t) object array e ho ha =
    Within-if left_size m (c == b'{') _ _ (ho (omega arith)) (
      Within-if left_size m (c == b'[') _ _ (ha (omega arith)) (
        Within-if left_size m (c == b'"') _ _
          (Within->>= left_size left_size m m (scan_string host s) _
            (subst (λ u. Takes (length u) (scan_string host s)) e (scan_string-Takes host s))
            λ (x, s') less. less)
          (Within-if left_size m (c == b'-' || is_ascii_digit c) _ _
            (subst (λ u. Takes (length u) (scan_number host path s)) e
              (scan_number-Takes host path s))
            (Within-if left_size m (text_eq (take 4 (c ∷ t)) (codes "null")) _ _ (dropped 3) (
              Within-if left_size m (text_eq (take 4 (c ∷ t)) (codes "true")) _ _ (dropped 3) (
                Within-if left_size m (text_eq (take 5 (c ∷ t)) (codes "false")) _ _ (dropped 4)
                  tt))))))
  where
    m : ℕ
    m = length (c ∷ t)

    dropped : (n : ℕ) → length (drop (suc n) s.left) < length (c ∷ t)
    dropped n = subst (λ u. length (drop (suc n) u) < length (c ∷ t)) (sym e) (drop-length n c t)

note_key-left :
    (host : Host) (path key : Text) (seen : Seen) (s : Scanner)
    → (note_key host path key seen s).1.left ≡ s.left
unfolding note_key
note_key-left host path key seen s = elim (Option-cases (first_seen key seen)) [
  | inl e ↦ rw (note_key, e)
  | inr (p, e) ↦ rw (note_key, e)
]

scan_key-Takes :
    (host : Host) (path : Text) (first : Bool) (seen : Seen) (s : Scanner)
    → Takes (length s.left) (scan_key host path first seen s)
unfolding scan_key
scan_key-Takes host path first seen s =
    Within->>= left_size left_size (suc (length s.left)) (length s.left) (separator first s) _
      (separator-Takes first s)
      λ (_, s1) less.
        Within->>= left_size left_size (length (ws s1).left) (length s.left)
          (scan_string host (ws s1)) _ (scan_string-Takes host (ws s1))
          λ (key, s2) less'.
            Within->>= left_size left_size (length (ws s2).left) (length s.left)
              (expect b':' (ws s2)) _ (expect-Takes b':' (ws s2))
              λ (_, s3) less''.
                subst (λ (t : Text). length t < length s.left)
                  (sym (note_key-left host path key seen s3))
                  (omega (arith, less, less', less'', ws-length s1, ws-length s2))

head_is-drop : (c : ℕ) (s : Scanner) → head_is c s ≡ true → length (drop 1 s.left) < length s.left
head_is-drop c s h = by_text s.left h
  where
    by_text :
        (t : Text)
        → (elim t as (λ x. Bool) [ [] ↦ false | d ∷ _ ↦ d == c ]) ≡ true
        → length (drop 1 t) < length t
    by_text [] e = cc
    by_text (d ∷ t) e = omega arith

-- what is left behind the first character
behind_first :
    (s s1 : Scanner)
    → s1.left ≡ s.left
    → 0 < length s.left
    → suc (length (drop 1 s1.left)) ≡ length s.left
behind_first s s1 e h = omega (arith, length-drop 1 s1.left, ap length e)

object_fuel : (n m k f : ℕ) → suc k ≡ m → m ≤ n → 2 * n + 1 ≤ suc f → 2 * k + 2 ≤ f
object_fuel n m k f e le fuel = omega arith

mutual
  unfolding parse members elements pop_depth

  parse-Takes :
      (host : Host) (f : ℕ) (path : Text) (s : Scanner)
      → 2 * length s.left + 1 ≤ f
      → Takes (length s.left) (parse host f path s)
  parse-Takes host zero path s le = absurd (omega arith)
  parse-Takes host (suc f) path s le =
      Within-weaker left_size (length (ws s).left) (length s.left) (parse host (suc f) path s)
        (ws-length s)
        (dispatch-Takes host path (ws s) (ws s).left _ _ refl
          (λ some_left. push_depth-bind (length (ws s).left) (ws s) _ λ s1 e.
            Within->>= left_size left_size (length (drop 1 s1.left)) (length (ws s).left)
              (members host f path true no_fields [] (advance 1 s1)) _
              (members-Takes host f path true no_fields [] (advance 1 s1) (
                object_fuel (length s.left) (length (ws s).left) (length (drop 1 s1.left)) f
                  (behind_first (ws s) s1 e some_left) (ws-length s) le))
              λ (fs, s2) less. omega (arith, less, behind_first (ws s) s1 e some_left))
          (λ some_left. push_depth-bind (length (ws s).left) (ws s) _ λ s1 e.
            Within->>= left_size left_size (length (drop 1 s1.left)) (length (ws s).left)
              (elements host f path true 0 no_items (advance 1 s1)) _
              (elements-Takes host f path true 0 no_items (advance 1 s1) (
                object_fuel (length s.left) (length (ws s).left) (length (drop 1 s1.left)) f
                  (behind_first (ws s) s1 e some_left) (ws-length s) le))
              λ (xs, s2) less. omega (arith, less, behind_first (ws s) s1 e some_left)))

  members-Takes :
      (host : Host) (f : ℕ) (path : Text) (first : Bool) (result : Fields) (seen : Seen)
      (s : Scanner)
      → 2 * length s.left + 2 ≤ f
      → Takes (length s.left) (members host f path first result seen s)
  members-Takes host zero path first result seen s le = absurd (omega arith)
  members-Takes host (suc f) path first result seen s le = elim (Bool-cases (head_is b'}' (ws s))) [
    | inl e ↦ rw (members, e) (omega (arith, head_is-drop b'}' (ws s) e, ws-length s))
    | inr e ↦
        rw (members, e)
          (Within->>= left_size left_size (length (ws s).left) (length s.left)
            (scan_key host path first seen (ws s)) _ (scan_key-Takes host path first seen (ws s))
            λ ((key, seen'), s1) less.
              Within->>= left_size left_size (length s1.left) (length s.left)
                (parse host f (member_path host path key) s1) _
                (parse-Takes host f (member_path host path key) s1
                  (omega (arith, less, ws-length s, le)))
                λ (v, s2) less'.
                  Within-weaker left_size (length s2.left) (length s.left)
                    (members host f path false (set key v result) seen' s2)
                    (omega (arith, less, less', ws-length s))
                    (members-Takes host f path false (set key v result) seen' s2
                      (omega (arith, less, less', ws-length s, le))))
  ]

  elements-Takes :
      (host : Host) (f : ℕ) (path : Text) (first : Bool) (idx : ℕ) (result : Items) (s : Scanner)
      → 2 * length s.left + 2 ≤ f
      → Takes (length s.left) (elements host f path first idx result s)
  elements-Takes host zero path first idx result s le = absurd (omega arith)
  elements-Takes host (suc f) path first idx result s le = elim (Bool-cases (head_is b']' (ws s))) [
    | inl e ↦ rw (elements, e) (omega (arith, head_is-drop b']' (ws s) e, ws-length s))
    | inr e ↦
        rw (elements, e)
          (Within->>= left_size left_size (suc (length (ws s).left)) (length s.left)
            (separator first (ws s)) _ (separator-Takes first (ws s))
            λ (_, s1) less.
              Within->>= left_size left_size (length s1.left) (length s.left)
                (parse host f (element_path path idx) s1) _
                (parse-Takes host f (element_path path idx) s1
                  (omega (arith, less, ws-length s, le)))
                λ (v, s2) less'.
                  Within-weaker left_size (length s2.left) (length s.left)
                    (elements host f path false (idx + 1) (append_item result v) s2)
                    (omega (arith, less, less', ws-length s))
                    (elements-Takes host f path false (idx + 1) (append_item result v) s2
                      (omega (arith, less, less', ws-length s, le))))
  ]

finish-Terminates : (v : Value) (s : Scanner) → Terminates (finish v s)
unfolding finish
finish-Terminates v s = at_end s.left
  where
    at_end :
        (t : Text)
        → Terminates (elim t as (λ x. Result (Value × List RawViolation)) [
          | [] ↦ ok (v, s.violations)
          | _ ∷ _ ↦ err value_error
        ])
    at_end [] = tt
    at_end (c ∷ t) = tt

lex-Terminates : (host : Host) (t : Text) → Terminates (lex host t)
unfolding lex
lex-Terminates host t =
    Within-Terminates left_size (length t) (parse host (2 * length t + 2) (codes "$") (start t)) _
      (parse-Takes host (2 * length t + 2) (codes "$") (start t) (omega arith))
      λ (v, s) less. finish-Terminates v (ws s)

-- Scanning any text or bytes returns a value with its violations, or raises an exception: the fuel of
-- the model, two units for each character and two more, suffices for every nesting and length.
pub lex_raw-Terminates : (host : Host) (raw : Raw) → Terminates (lex_raw host raw)
unfolding lex_raw lex_decoded
lex_raw-Terminates host (Raw.text t) = lex-Terminates host t
lex_raw-Terminates host (Raw.octets b) = decoded (utf8_decode b)
  where
    decoded : (o : Option Text) → Terminates (lex_decoded host o)
    decoded none = tt
    decoded (some t) = lex-Terminates host t
