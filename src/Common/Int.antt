-- ===== src/Common/Int.antt =====
-- Python's integers, over the native numbers.
use scitt_payload_binding.Common.{ℕ, zero, suc, ◌≡◌, Bool, true, false, ◌==◌, arith}

-- `negsuc n` is -(n + 1).
pub data ℤ : Type 0 where
  pos : ℕ → ℤ
  negsuc : ℕ → ℤ

-- |a|
abbrev pub magnitude : ℤ → ℕ
magnitude (pos n) = n
magnitude (negsuc n) = suc n

abbrev pub int_eq : ℤ → ℤ → Bool
int_eq (pos m) (pos n) = m == n
int_eq (negsuc m) (negsuc n) = m == n
int_eq (pos m) (negsuc n) = false
int_eq (negsuc m) (pos n) = false

pub int_eq_sound : (a b : ℤ) → int_eq a b ≡ true → a ≡ b
int_eq_sound (pos m) (pos n) h = ground arith
int_eq_sound (negsuc m) (negsuc n) h = ground arith
int_eq_sound (pos m) (negsuc n) h = ground arith
int_eq_sound (negsuc m) (pos n) h = ground arith

pub int_eq_refl : (a : ℤ) → int_eq a a ≡ true
int_eq_refl (pos m) = ground arith
int_eq_refl (negsuc m) = ground arith

-- minus n
abbrev pub neg : ℕ → ℤ
neg zero = pos 0
neg (suc n) = negsuc n
