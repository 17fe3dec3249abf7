-- ===== src/TypedRef/Hex/Plain.antt =====
-- A bare SHA-256 digest in hexadecimal, described without the check.
use scitt_payload_binding.Common.{
  ℕ, ◌≤◌, ◌≡◌, ◌≢◌, ◌↔◌, ◌⊎◌, inl, inr, true, ◌&&◌, Text, length, ◌==◌, ==_iff, &&_true, All, all,
  all-All, All-all, All-map, arith,
}
use scitt_payload_binding.TypedRef.Hex.{is_bare_hex_char, is_bare_hex_256}

-- a digit, or a letter from a to f
abbrev pub IsHexChar : ℕ → Type 0
IsHexChar c = ((48 ≤ c) × (c ≤ 57)) ⊎ ((97 ≤ c) × (c ≤ 102))

-- 64 lowercase hexadecimal characters
abbrev pub IsHex256 : Text → Type 0
IsHex256 t = (length t ≡ 64) × All IsHexChar t

is_bare_hex_char-IsHexChar : (c : ℕ) → is_bare_hex_char c ≡ true → IsHexChar c
is_bare_hex_char-IsHexChar c h = grind arith

IsHexChar-is_bare_hex_char : (c : ℕ) → IsHexChar c → is_bare_hex_char c ≡ true
IsHexChar-is_bare_hex_char c (inl h) = ground arith
IsHexChar-is_bare_hex_char c (inr h) = ground arith

pub is_bare_hex_256_iff : (t : Text) → (is_bare_hex_256 t ≡ true) ↔ IsHex256 t
unfolding is_bare_hex_256
is_bare_hex_256_iff t = (forward, backward)
  where
    forward : (length t == 64 && all is_bare_hex_char t) ≡ true → IsHex256 t
    forward h =
        let (size, chars) = &&_true (length t == 64) (all is_bare_hex_char t) h in
        (
          (==_iff (length t) 64).0 size,
          All-map _ IsHexChar t is_bare_hex_char-IsHexChar (all-All is_bare_hex_char t chars),
        )

    backward : IsHex256 t → (length t == 64 && all is_bare_hex_char t) ≡ true
    backward (size, chars) = rw (
      (==_iff (length t) 64).1 size,
      All-all is_bare_hex_char t (All-map IsHexChar _ t IsHexChar-is_bare_hex_char chars),
    )

-- no colon is among the characters
pub IsHex256-ne-colon : (t : Text) → IsHex256 t → All (λ c. c ≢ b':') t
IsHex256-ne-colon t h = All-map IsHexChar _ t other h.1
  where
    other : (c : ℕ) → IsHexChar c → c ≢ b':'
    other c (inl h) e = omega arith
    other c (inr h) e = omega arith
