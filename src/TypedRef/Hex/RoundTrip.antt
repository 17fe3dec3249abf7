-- ===== src/TypedRef/Hex/RoundTrip.antt =====
-- Hexadecimal and raw digests hold the same information.
use scitt_payload_binding.Common.{
  ℕ, zero, suc, ◌+◌, ◌*◌, ◌/◌, ◌%◌, ◌<◌, ◌≡◌, refl, sym, ◌∙◌, ap, is_empty, text_eq, true, Text,
  Bytes, List, [], ◌∷◌, length, all, All, arith, ◌==◌, inl, inr, Bool-cases, &&_true, ==_iff,
}
use scitt_payload_binding.Value.{Value, bytes}
use scitt_payload_binding.Errors.{ok, >>=-eq-ok}
use scitt_payload_binding.Platform.{Platform, IsByte, IsSha256}
use scitt_payload_binding.Canonicalize.Serialize.{hex_digit}
use scitt_payload_binding.Canonicalize.Digest.{
  hex, raw_digest, canonical_digest, octets_digest, pre_image, exclude, is_json_algorithm,
  as_transmitted_name,
}
use scitt_payload_binding.TypedRef.Hex.{
  is_bare_hex_char, is_bare_hex_256, hex_digit_value, from_hex, hex_to_raw, raw_to_hex,
}

digit_value : (n : ℕ) → n < 16 → hex_digit_value (hex_digit n) ≡ n
digit_value n h = ground arith

digit_char : (n : ℕ) → n < 16 → is_bare_hex_char (hex_digit n) ≡ true
digit_char n h = ground arith

value_digit :
    (c : ℕ)
    → is_bare_hex_char c ≡ true
    → (hex_digit_value c < 16) × (hex_digit (hex_digit_value c) ≡ c)
value_digit c h = ground arith

pub from_hex-hex : (b : Bytes) → All IsByte b → from_hex (hex b) ≡ b
unfolding from_hex hex
from_hex-hex [] h = refl
from_hex-hex (b ∷ bs) (hb, hbs) =
    rw (digit_value (b / 16) (omega arith), digit_value (b % 16) (omega arith), from_hex-hex bs hbs)
      (ap (λ n. n ∷ bs) (omega arith))

pub length-hex : (b : Bytes) → length (hex b) ≡ 2 * length b
unfolding hex
length-hex [] = refl
length-hex (b ∷ bs) = omega (arith, length-hex bs)

pub all-hex : (b : Bytes) → All IsByte b → all is_bare_hex_char (hex b) ≡ true
unfolding hex
all-hex [] h = refl
all-hex (b ∷ bs) (hb, hbs) =
    rw (digit_char (b / 16) (omega arith), digit_char (b % 16) (omega arith)) (all-hex bs hbs)

pub hex-is_bare_hex_256 :
    (b : Bytes) → All IsByte b → length b ≡ 32 → is_bare_hex_256 (hex b) ≡ true
unfolding is_bare_hex_256
hex-is_bare_hex_256 b h e = rw (length-hex b, e, all-hex b h)

-- Rendering 32 octets as hexadecimal and converting back gives the octets.
pub hex_to_raw-hex : (b : Bytes) → All IsByte b → length b ≡ 32 → hex_to_raw (hex b) ≡ ok b
unfolding hex_to_raw
hex_to_raw-hex b h e = rw (hex-is_bare_hex_256 b h e, from_hex-hex b h)

hex-from_hex :
    (k : ℕ) (t : Text)
    → length t ≡ 2 * k
    → all is_bare_hex_char t ≡ true
    → (hex (from_hex t) ≡ t) × (length (from_hex t) ≡ k)
unfolding hex from_hex
hex-from_hex k [] e h = (refl, omega arith)
hex-from_hex k (c ∷ []) e h = absurd (omega arith)
hex-from_hex zero (c ∷ d ∷ t) e h = absurd (omega arith)
hex-from_hex (suc k) (c ∷ d ∷ t) e h =
    let (hc, h1) = &&_true (is_bare_hex_char c) _ h in
    let (hd, ht) = &&_true (is_bare_hex_char d) _ h1 in
    let (ih, size) = hex-from_hex k t (omega arith) ht in
    let (lc, ec) = value_digit c hc in
    let (ld, ed) = value_digit d hd in
    (
      rw (
        quotient (hex_digit_value c) (hex_digit_value d) ld,
        remainder (hex_digit_value c) (hex_digit_value d) ld,
        ec,
        ed,
        ih,
      ),
      ap suc size,
    )
  where
    quotient : (a b : ℕ) → b < 16 → (16 * a + b) / 16 ≡ a
    quotient a b l = omega arith

    remainder : (a b : ℕ) → b < 16 → (16 * a + b) % 16 ≡ b
    remainder a b l = omega arith

-- A text that `hex_to_raw` accepts is what `raw_to_hex` gives for the octets that it returned.
pub raw_to_hex-hex_to_raw : (t : Text) (b : Bytes) → hex_to_raw t ≡ ok b → raw_to_hex b ≡ ok t
unfolding hex_to_raw raw_to_hex is_bare_hex_256
raw_to_hex-hex_to_raw t b h = elim (Bool-cases (is_bare_hex_256 t)) [
  | inl good ↦
      let (size, chars) = &&_true (length t == 64) _ good in
      let (back, size') = hex-from_hex 32 t ((==_iff _ 64).0 size) chars in
      let same : from_hex t ≡ b = cc (rw good at h) in rw (← same, size', back)
  | inr bad ↦ cc (rw bad at h)
]

octets_digest-sha256 :
    (platform : Platform) (excluded : List Text) (v : Value) (b : Bytes)
    → octets_digest platform excluded v ≡ ok b
    → (input : Bytes) × (b ≡ platform.sha256 input)
unfolding octets_digest
octets_digest-sha256 platform excluded (bytes input) b h = elim (Bool-cases (is_empty excluded)) [
  | inl e ↦ (input, cc (rw e at h))
  | inr e ↦ cc (rw e at h)
]
octets_digest-sha256 platform excluded _ b h = cc

pub raw_digest-sha256 :
    (platform : Platform) (algorithm : Text) (excluded : List Text) (v : Value) (b : Bytes)
    → raw_digest platform algorithm excluded v ≡ ok b
    → (input : Bytes) × (b ≡ platform.sha256 input)
unfolding raw_digest
raw_digest-sha256 platform algorithm excluded v b h =
    elim (Bool-cases (text_eq algorithm as_transmitted_name)) [
      | inl e ↦ octets_digest-sha256 platform excluded v b (rw e at h)
      | inr e ↦ elim (Bool-cases (is_json_algorithm algorithm)) [
        | inl k ↦
            let (image, _, last) =
              >>=-eq-ok (pre_image platform algorithm (exclude excluded v)) _ (rw (e, k) at h) in
            (image, cc last)
        | inr k ↦ cc (rw (e, k) at h)
      ]
    ]

-- When SHA-256 returns 32 octets, a canonical digest is 64 lowercase hexadecimal characters, and
-- `hex_to_raw` takes it to exactly the octets of `raw_digest`, under every algorithm.
pub canonical_digest-raw_digest :
    (platform : Platform) (algorithm : Text) (excluded : List Text) (v : Value) (t : Text)
    → IsSha256 platform
    → canonical_digest platform algorithm excluded v ≡ ok t
    → (is_bare_hex_256 t ≡ true) × (raw_digest platform algorithm excluded v ≡ hex_to_raw t)
unfolding canonical_digest
canonical_digest-raw_digest platform algorithm excluded v t sha h =
    let (b, found, last) = >>=-eq-ok (raw_digest platform algorithm excluded v) _ h in
    let (input, e) = raw_digest-sha256 platform algorithm excluded v b found in
    let is_bytes = rw (← e) at (sha.digest_bytes input) in
    let size = rw (← e) at (sha.digest_size input) in
    let same : hex b ≡ t = cc last in
    (
      rw (← same) (hex-is_bare_hex_256 b is_bytes size),
      found ∙ sym (rw (← same) (hex_to_raw-hex b is_bytes size)),
    )
