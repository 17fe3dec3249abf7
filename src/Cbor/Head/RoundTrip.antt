-- ===== src/Cbor/Head/RoundTrip.antt =====
-- Reading back the head that was written.
use scitt_payload_binding.Common.{
  ℕ, zero, suc, ◌+◌, ◌*◌, ◌/◌, ◌%◌, ◌<◌, ◌≤◌, ◌≡◌, refl, ap, ◌∙◌, Bool, true, false, Bytes, [], ◌∷◌,
  ◌++◌, ◌&&◌, subst, some, length, take, drop, ltb, leb, arith, take-append, drop-append,
  length-append, Bool-cases, inl, inr,
}
use scitt_payload_binding.Errors.{ok}
use scitt_payload_binding.Cbor.Head.{
  from_bytes, to_bytes, argument_width, read_wide, read_argument, head,
}

length-to_bytes : (width n : ℕ) → length (to_bytes width n) ≡ width
unfolding to_bytes
length-to_bytes zero n = refl
length-to_bytes (suc width) n =
    length-append (to_bytes width (n / 256)) (n % 256 ∷ [])
    ∙ omega (arith, length-to_bytes width (n / 256))

from_bytes-append :
    (acc : ℕ) (b : ℕ) (bs : Bytes) → from_bytes acc (bs ++ (b ∷ [])) ≡ 256 * from_bytes acc bs + b
unfolding from_bytes
from_bytes-append acc b [] = refl
from_bytes-append acc b (c ∷ bs) = from_bytes-append (256 * acc + c) b bs

-- 256 to a power
abbrev bound : ℕ → ℕ
bound zero = 1
bound (suc width) = 256 * bound width

-- the value of the bytes of a number that fits
from_bytes-to_bytes : (width n : ℕ) → n < bound width → from_bytes 0 (to_bytes width n) ≡ n
unfolding to_bytes from_bytes
from_bytes-to_bytes zero n l = omega arith
from_bytes-to_bytes (suc width) n l =
    from_bytes-append 0 (n % 256) (to_bytes width (n / 256))
    ∙ rw (from_bytes-to_bytes width (n / 256) (smaller (bound width) n l)) (whole n)
  where
    smaller : (p m : ℕ) → m < 256 * p → m / 256 < p
    smaller p m h = omega arith

    whole : (m : ℕ) → 256 * (m / 256) + m % 256 ≡ m
    whole m = omega arith

take-to_bytes :
    (width n : ℕ) (rest : Bytes) → take width (to_bytes width n ++ rest) ≡ to_bytes width n
take-to_bytes width n rest =
    subst (λ k. take k (to_bytes width n ++ rest) ≡ to_bytes width n) (length-to_bytes width n)
      (take-append (to_bytes width n) rest)

drop-to_bytes : (width n : ℕ) (rest : Bytes) → drop width (to_bytes width n ++ rest) ≡ rest
drop-to_bytes width n rest =
    subst (λ k. drop k (to_bytes width n ++ rest) ≡ rest) (length-to_bytes width n)
      (drop-append (to_bytes width n) rest)

long_enough : (width n : ℕ) (rest : Bytes) → ltb (length (to_bytes width n ++ rest)) width ≡ false
long_enough width n rest =
    rw (length-append (to_bytes width n) rest, length-to_bytes width n)
      (not_less width (length rest))
  where
    not_less : (a b : ℕ) → ltb (a + b) a ≡ false
    not_less a b = ground arith

read_wide-to_bytes :
    (deterministic : Bool) (width least n : ℕ) (rest : Bytes)
    → n < bound width
    → least ≤ n
    → read_wide deterministic (to_bytes width n ++ rest) (width, least) ≡ ok (some n, rest)
unfolding read_wide
read_wide-to_bytes deterministic width least n rest l m = rw (
  long_enough width n rest,
  take-to_bytes width n rest,
  drop-to_bytes width n rest,
  from_bytes-to_bytes width n l,
  shortest,
)
  where
    shortest : (deterministic && ltb n least) ≡ false
    shortest = ground arith

-- The initial byte and the bytes behind it, from which the argument is read back.
abbrev pub ReadBack : Bool → ℕ → ℕ → Bytes → ℕ → Bytes → Type 0
ReadBack deterministic major n rest initial tail =
    (head major n ≡ ok (initial ∷ tail))
    × (initial / 32 ≡ major)
    × (read_argument deterministic (initial % 32) (tail ++ rest) ≡ ok (some n, rest))

low_bits : (major additional : ℕ) → additional < 32 → (32 * major + additional) % 32 ≡ additional
low_bits major additional l = omega arith

high_bits : (major additional : ℕ) → additional < 32 → (32 * major + additional) / 32 ≡ major
high_bits major additional l = omega arith

one_byte : (n : ℕ) → n < 256 → to_bytes 1 n ≡ n ∷ []
unfolding to_bytes
one_byte n l = ap (λ b. b ∷ []) (omega arith)

-- The head of an argument up to 2^64 - 1 is a byte that holds the major type and the bytes behind it;
-- reading them, with anything behind, gives back the argument and what follows, in deterministic
-- decoding too.
pub read_argument-head :
    (deterministic : Bool) (major n : ℕ) (rest : Bytes)
    → n ≤ 0xffffffffffffffff
    → (initial : ℕ) × (tail : Bytes) × ReadBack deterministic major n rest initial tail
unfolding head read_argument argument_width
read_argument-head deterministic major n rest l = elim (Bool-cases (ltb n 24)) [
  | inl small ↦
      let within : n < 32 = ground arith in
      (
        32 * major + n,
        [],
        (rw small, high_bits major n within, rw (low_bits major n within, small)),
      )
  | inr a ↦ elim (Bool-cases (leb n 0xff)) [
    | inl e ↦
        let least : 24 ≤ n = ground arith in
        let fits : n < 256 = ground arith in
        (
          32 * major + 24,
          n ∷ [],
          (
            rw (a, e),
            high_bits major 24 (omega arith),
            rw (low_bits major 24 (omega arith)) (
                subst (λ t. read_wide deterministic (t ++ rest) (1, 24) ≡ ok (some n, rest))
                  (one_byte n fits) (read_wide-to_bytes deterministic 1 24 n rest fits least)),
          ),
        )
    | inr b ↦ elim (Bool-cases (leb n 0xffff)) [
      | inl e ↦ (
        32 * major + 25,
        to_bytes 2 n,
        (
          rw (a, b, e),
          high_bits major 25 (omega arith),
          rw (low_bits major 25 (omega arith))
              (read_wide-to_bytes deterministic 2 0x100 n rest (ground arith) (ground arith)),
        ),
      )
      | inr c ↦ elim (Bool-cases (leb n 0xffffffff)) [
        | inl e ↦ (
          32 * major + 26,
          to_bytes 4 n,
          (
            rw (a, b, c, e),
            high_bits major 26 (omega arith),
            rw (low_bits major 26 (omega arith))
                (read_wide-to_bytes deterministic 4 0x10000 n rest (ground arith) (ground arith)),
          ),
        )
        | inr d ↦
            let e : leb n 0xffffffffffffffff ≡ true = ground arith in
            (
              32 * major + 27,
              to_bytes 8 n,
              (
                rw (a, b, c, d, e),
                high_bits major 27 (omega arith),
                rw (low_bits major 27 (omega arith)) (
                    read_wide-to_bytes deterministic 8 0x100000000 n rest (ground arith)
                      (ground arith)),
              ),
            )
      ]
    ]
  ]
]
