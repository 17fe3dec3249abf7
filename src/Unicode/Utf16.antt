-- ===== src/Unicode/Utf16.antt =====
-- The UTF-16 form tells different texts apart.
use scitt_payload_binding.Common.{
  ℕ, ◌+◌, ◌-◌, ◌/◌, ◌%◌, ◌≤◌, ◌<◌, ◌≡◌, refl, sym, ap, ◌∙◌, true, false, Text, Bytes, [], ◌∷◌, ◌++◌,
  some, ltb, Bool-cases, Option-cases, inl, inr, ◌⊎◌, arith,
}
use scitt_payload_binding.Unicode.{is_scalar, utf16_char, utf16_encode}

heads : (a b : ℕ) (s t : Bytes) → a ∷ s ≡ b ∷ t → (a ≡ b) × (s ≡ t)
heads a b s t h = (cc h, cc h)

-- a character of one code unit, and one of two
high : ℕ → ℕ
high c = 0xd800 + (c - 0x10000) / 1024

low : ℕ → ℕ
low c = 0xdc00 + (c - 0x10000) % 1024

utf16_char-one : (c : ℕ) → ltb c 0x10000 ≡ true → utf16_char c ≡ c / 256 ∷ c % 256 ∷ []
unfolding utf16_char
utf16_char-one c e = rw e

utf16_char-two :
    (c : ℕ)
    → ltb c 0x10000 ≡ false
    → utf16_char c ≡ high c / 256 ∷ high c % 256 ∷ low c / 256 ∷ low c % 256 ∷ []
unfolding utf16_char high low
utf16_char-two c e = rw e

scalar-range : (c : ℕ) → is_scalar c ≡ true → ((c < 0xd800) ⊎ (0xe000 ≤ c)) × (c < 0x110000)
scalar-range c h = (
  elim (Bool-cases (ltb c 0xd800)) [ inl e ↦ inl (ground arith) | inr e ↦ inr (ground arith) ],
  ground arith,
)

one-one : (c d : ℕ) → c / 256 ≡ d / 256 → c % 256 ≡ d % 256 → c ≡ d
one-one c d h k = omega arith

two-two :
    (c d : ℕ)
    → ltb c 0x10000 ≡ false
    → ltb d 0x10000 ≡ false
    → high c / 256 ≡ high d / 256
    → high c % 256 ≡ high d % 256
    → low c / 256 ≡ low d / 256
    → low c % 256 ≡ low d % 256
    → c ≡ d
unfolding high low
two-two c d ec ed h1 h2 h3 h4 =
    let same_high = one-one (high c) (high d) h1 h2 in
    let same_low = one-one (low c) (low d) h3 h4 in ground (arith, same_high, same_low)

one-two :
    (c d : ℕ)
    → is_scalar c ≡ true
    → is_scalar d ≡ true
    → ltb d 0x10000 ≡ false
    → c / 256 ≡ high d / 256
    → ⊥
unfolding high
one-two c d hc hd ed h = ground (arith, scalar-range c hc, scalar-range d hd)

four :
    (a b c d a' b' c' d' : ℕ) (s t : Bytes)
    → a ∷ b ∷ c ∷ d ∷ s ≡ a' ∷ b' ∷ c' ∷ d' ∷ t
    → (a ≡ a') × (b ≡ b') × (c ≡ c') × (d ≡ d') × (s ≡ t)
four a b c d a' b' c' d' s t h =
    let (h1, r1) = heads a a' _ _ h in
    let (h2, r2) = heads b b' _ _ r1 in
    let (h3, r3) = heads c c' _ _ r2 in let (h4, r4) = heads d d' _ _ r3 in (h1, h2, h3, h4, r4)

utf16_char-injective :
    (c d : ℕ) (s t : Bytes)
    → is_scalar c ≡ true
    → is_scalar d ≡ true
    → utf16_char c ++ s ≡ utf16_char d ++ t
    → (c ≡ d) × (s ≡ t)
utf16_char-injective c d s t hc hd h = elim (Bool-cases (ltb c 0x10000)) [
  | inl ec ↦ elim (Bool-cases (ltb d 0x10000)) [
    | inl ed ↦
        let (h1, r1) =
          heads (c / 256) (d / 256) _ _ (joined (utf16_char-one c ec) (utf16_char-one d ed)) in
        let (h2, r2) = heads (c % 256) (d % 256) _ _ r1 in (one-one c d h1 h2, r2)
    | inr ed ↦
        let (h1, _) =
          heads (c / 256) (high d / 256) _ _ (joined (utf16_char-one c ec) (utf16_char-two d ed)) in
        absurd (one-two c d hc hd ed h1)
  ]
  | inr ec ↦ elim (Bool-cases (ltb d 0x10000)) [
    | inl ed ↦
        let (h1, _) =
          heads (high c / 256) (d / 256) _ _ (joined (utf16_char-two c ec) (utf16_char-one d ed)) in
        absurd (one-two d c hd hc ec (sym h1))
    | inr ed ↦
        let (h1, h2, h3, h4, r) =
          four _ _ _ _ _ _ _ _ s t (joined (utf16_char-two c ec) (utf16_char-two d ed)) in
        (two-two c d ec ed h1 h2 h3 h4, r)
  ]
]
  where
    joined : {a b : Bytes} → utf16_char c ≡ a → utf16_char d ≡ b → a ++ s ≡ b ++ t
    joined {a} {b} e f = sym (ap (λ x. x ++ s) e) ∙ (h ∙ ap (λ x. x ++ t) f)

utf16_encode-cons :
    (c : ℕ) (t : Text) (u : Bytes)
    → utf16_encode (c ∷ t) ≡ some u
    → (is_scalar c ≡ true)
      × ((rest : Bytes) × (utf16_encode t ≡ some rest) × (u ≡ utf16_char c ++ rest))
unfolding utf16_encode
utf16_encode-cons c t u h = elim (Bool-cases (is_scalar c)) [
  | inr e ↦ cc (rw (utf16_encode, e) at h)
  | inl e ↦ elim (Option-cases (utf16_encode t)) [
    | inl none_left ↦ cc (rw (utf16_encode, e, none_left) at h)
    | inr (rest, found) ↦ (e, (rest, found, cc (rw (utf16_encode, e, found) at h)))
  ]
]

utf16_char-nonempty : (c : ℕ) (s : Bytes) → utf16_char c ++ s ≡ [] → ⊥
utf16_char-nonempty c s h = elim (Bool-cases (ltb c 0x10000)) [
  | inl e ↦ cc (rw (utf16_char-one c e) at h)
  | inr e ↦ cc (rw (utf16_char-two c e) at h)
]

-- Texts with the same UTF-16 form are the same.
pub utf16_encode-injective :
    (s t : Text) (u : Bytes) → utf16_encode s ≡ some u → utf16_encode t ≡ some u → s ≡ t
unfolding utf16_encode
utf16_encode-injective [] [] u h k = refl
utf16_encode-injective [] (d ∷ t) u h k =
    let (_, (rest, _, e)) = utf16_encode-cons d t u k in
    let nothing : [] ≡ u = cc h in absurd (utf16_char-nonempty d rest (sym e ∙ sym nothing))
utf16_encode-injective (c ∷ s) [] u h k =
    let (_, (rest, _, e)) = utf16_encode-cons c s u h in
    let nothing : [] ≡ u = cc k in absurd (utf16_char-nonempty c rest (sym e ∙ sym nothing))
utf16_encode-injective (c ∷ s) (d ∷ t) u h k =
    let (hc, (rest, found, e)) = utf16_encode-cons c s u h in
    let (hd, (rest', found', e')) = utf16_encode-cons d t u k in
    let (same, tails) = utf16_char-injective c d rest rest' hc hd (sym e ∙ e') in
    let others = utf16_encode-injective s t rest found (found' ∙ ap some (sym tails)) in
    ap (λ x. x ∷ s) same ∙ ap (λ x. d ∷ x) others
