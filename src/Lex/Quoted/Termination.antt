-- ===== src/Lex/Quoted/Termination.antt =====
-- Reading a string returns on every input.
use scitt_payload_binding.Common.{
  ℕ, zero, suc, ◌+◌, ◌<◌, ◌≤◌, Bool, true, false, ◌&&◌, Text, [], ◌∷◌, ◌++◌, Option, none, some,
  length, take, drop, length-drop, ltb, ◌==◌, text_eq, arith,
}
use scitt_payload_binding.Common.Int.{ℤ, pos, negsuc}
use scitt_payload_binding.Errors.{Result, ok, err, value_error, ◌>>=◌, Terminates}
use scitt_payload_binding.Errors.Termination.{
  Within, Within-then, Within-if, >>=-Terminates, if-Terminates,
}
use scitt_payload_binding.Python.{Host, int_base16}
use scitt_payload_binding.Lex.Quoted.{
  hex_code, chr, between, short_escape, unicode_escape, Quoted, string_body, quoted,
}

hex_code-Terminates : (host : Host) (s : Text) → Terminates (hex_code host s)
unfolding hex_code
hex_code-Terminates host s = go (int_base16 host s)
  where
    go :
        (o : Option ℤ)
        → Terminates (elim o as (λ x. Result ℤ) [ none ↦ err value_error | some v ↦ ok v ])
    go none = tt
    go (some v) = tt

chr-Terminates : (v : ℤ) → Terminates (chr v)
unfolding chr
chr-Terminates (pos n) = if-Terminates (ltb n 0x110000) _ _ tt tt
chr-Terminates (negsuc n) = tt

unicode_escape-Terminates : (host : Host) (s : Text) → Terminates (unicode_escape host s)
unfolding unicode_escape
unicode_escape-Terminates host s = if-Terminates (ltb (length (take 4 s)) 4) _ _ tt (
    >>=-Terminates (hex_code host (take 4 s)) _ (hex_code-Terminates host (take 4 s)) λ code.
      if-Terminates (between 0xd800 code 0xdbff && text_eq (take 2 (drop 4 s)) (b'\\' ∷ b'u' ∷ []))
        _ _
        (>>=-Terminates (hex_code host (take 4 (drop 6 s))) _
          (hex_code-Terminates host (take 4 (drop 6 s)))
          λ low.
            if-Terminates (between 0xdc00 low 0xdfff) _ _ tt
              (>>=-Terminates (chr code) _ (chr-Terminates code) λ c. tt))
        (>>=-Terminates (chr code) _ (chr-Terminates code) λ c. tt))

-- It returns, and leaves less text than this.
abbrev pub Shortens : ℕ → Result Quoted → Type 0
Shortens m r = Within (λ q. length q.rest) m r

-- What the loop does behind a backslash, with its next rounds after a short and a long escape.
escape-Shortens :
    (host : Host) (m : ℕ) (o : Option ℕ) (u : Bool) (t : Text) (short : ℕ → Result Quoted)
    (long : ℕ → ℕ → Result Quoted)
    → ((d : ℕ) → Shortens m (short d))
    → ((d used : ℕ) → Shortens m (long d used))
    → Shortens m (elim o as (λ x. Result Quoted) [
      | some d ↦ short d
      | none ↦ elim u as (λ x. Result Quoted) [
        | true ↦ unicode_escape host t >>= λ (d, used). long d used
        | false ↦ err value_error
      ]
    ])
escape-Shortens host m (some d) u t short long hs hl = hs d
escape-Shortens host m none true t short long hs hl =
    Within-then (λ q. length q.rest) m (unicode_escape host t) _ (unicode_escape-Terminates host t)
      λ (d, used). hl d used
escape-Shortens host m none false t short long hs hl = tt

string_body-Shortens :
    (host : Host) (fuel m p : ℕ) (buf s : Text)
    → length s < fuel
    → length s ≤ m
    → Shortens m (string_body host fuel p buf s)
unfolding string_body
string_body-Shortens host zero m p buf s l le = absurd (omega arith)
string_body-Shortens host (suc fuel) m p buf [] l le = tt
string_body-Shortens host (suc fuel) m p buf (c ∷ []) l le =
    Within-if (λ q. length q.rest) m (c == b'"') _ _ (omega arith)
      (Within-if (λ q. length q.rest) m (c == b'\\') _ _ tt
        (Within-if (λ q. length q.rest) m (ltb c 0x20) _ _ tt
          (string_body-Shortens host fuel m (p + 1) (buf ++ (c ∷ [])) [] (omega arith)
            (omega arith))))
string_body-Shortens host (suc fuel) m p buf (c ∷ e ∷ t) l le =
    Within-if (λ q. length q.rest) m (c == b'"') _ _ (omega arith)
      (Within-if (λ q. length q.rest) m (c == b'\\') _ _
        (escape-Shortens host m (short_escape e) (e == b'u') t
          (λ d. string_body host fuel (p + 2) (buf ++ (d ∷ [])) t)
          (λ d used. string_body host fuel (p + 2 + used) (buf ++ (d ∷ [])) (drop used t))
          (λ d.
            string_body-Shortens host fuel m (p + 2) (buf ++ (d ∷ [])) t (omega arith)
              (omega arith))
          (λ d used.
            string_body-Shortens host fuel m (p + 2 + used) (buf ++ (d ∷ [])) (drop used t)
              (omega (arith, length-drop used t)) (omega (arith, length-drop used t))))
        (Within-if (λ q. length q.rest) m (ltb c 0x20) _ _ tt
          (string_body-Shortens host fuel m (p + 1) (buf ++ (c ∷ [])) (e ∷ t) (omega arith)
            (omega arith))))

pub quoted-Shortens : (host : Host) (p : ℕ) (s : Text) → Shortens (length s) (quoted host p s)
unfolding quoted
quoted-Shortens host p [] = tt
quoted-Shortens host p (c ∷ s) =
    Within-if (λ q. length q.rest) (suc (length s)) (c == b'"') _ _
      (string_body-Shortens host (suc (length s)) (suc (length s)) (p + 1) [] s (omega arith)
        (omega arith))
      tt
