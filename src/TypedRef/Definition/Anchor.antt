-- ===== src/TypedRef/Definition/Anchor.antt =====
-- The two forms of a verification anchor.
use scitt_payload_binding.Common.{
  ◌≡◌, ◌≢◌, refl, ap, ◌∙◌, ◌↔◌, ◌⊎◌, inl, inr, true, false, ◌&&◌, ◌||◌, not, Text, [], ◌∷◌, ◌++◌,
  Option, none, some, ◌==◌, ==_iff, text_eq, text_eq_sound, text_eq_refl, codes, All, Bool-cases,
  Option-cases,
}
use scitt_payload_binding.Errors.{ok, raise_if, >>=-eq-ok, raise_if-eq-ok}
use scitt_payload_binding.TypedRef.Hex.{is_bare_hex_256}
use scitt_payload_binding.TypedRef.Hex.Plain.{IsHex256, is_bare_hex_256_iff, IsHex256-ne-colon}
use scitt_payload_binding.TypedRef.Definition.{
  rpartition_colon, context_set_prefix, snapshot_prefix, check_anchor_parts, check_anchor,
}

-- The text `context-set-sha256:` and the digest of the context set itself, or the text
-- `registry-snapshot-sha256:` and some digest.
abbrev pub AnchorHolds : Text → Text → Type 0
AnchorHolds digest anchor =
    (anchor ≡ codes "context-set-sha256" ++ (b':' ∷ digest))
    ⊎ ((h : Text) × IsHex256 h × (anchor ≡ codes "registry-snapshot-sha256" ++ (b':' ∷ h)))

rpartition_colon-none : (t : Text) → All (λ c. c ≢ b':') t → rpartition_colon t ≡ none
unfolding rpartition_colon
rpartition_colon-none [] h = refl
rpartition_colon-none (c ∷ t) h = elim (Bool-cases (c == b':')) [
  | inl e ↦ absurd (h.0 ((==_iff c b':').0 e))
  | inr e ↦ rw (rpartition_colon-none t h.1, e)
]

pub rpartition_colon-append :
    (a t : Text) → All (λ c. c ≢ b':') t → rpartition_colon (a ++ (b':' ∷ t)) ≡ some (a, t)
unfolding rpartition_colon
rpartition_colon-append [] t h = rw (rpartition_colon-none t h)
rpartition_colon-append (c ∷ a) t h = rw (rpartition_colon-append a t h)

-- the text that two parts make with a colon
abbrev joined : Option (Text × Text) → Text
joined none = []
joined (some (a, b)) = a ++ (b':' ∷ b)

rpartition_colon-eq-some : (t a b : Text) → rpartition_colon t ≡ some (a, b) → t ≡ a ++ (b':' ∷ b)
unfolding rpartition_colon
rpartition_colon-eq-some [] a b h = cc
rpartition_colon-eq-some (c ∷ t) a b h = elim (Option-cases (rpartition_colon t)) [
  | inr ((front, back), e) ↦
      let same : ◌≡◌ {A = Option (Text × Text)} (some (c ∷ front, back)) (some (a, b)) =
        rw (e, rpartition_colon) at h in
      ap (λ u. c ∷ u) (rpartition_colon-eq-some t front back e) ∙ ap joined same
  | inl e ↦ elim (Bool-cases (c == b':')) [
    | inl k ↦
        let same : ◌≡◌ {A = Option (Text × Text)} (some ([], t)) (some (a, b)) =
          rw (e, k, rpartition_colon) at h in
        ap (λ d. d ∷ t) ((==_iff c b':').0 k) ∙ ap joined same
    | inr k ↦ cc (rw (e, k) at h)
  ]
]

-- the parts of an anchor pass when they make an anchor that holds
parts-AnchorHolds :
    (digest front back : Text)
    → check_anchor_parts digest (some (front, back)) ≡ ok tt
    → AnchorHolds digest (front ++ (b':' ∷ back))
unfolding check_anchor_parts
parts-AnchorHolds digest front back h =
    let (_, first, second) =
      >>=-eq-ok
        (raise_if
          (not (text_eq front context_set_prefix || text_eq front snapshot_prefix)
            || not (is_bare_hex_256 back))
          _)
        _ h in
    by_prefix (Bool-cases (text_eq front context_set_prefix))
      (Bool-cases (text_eq front snapshot_prefix)) (Bool-cases (is_bare_hex_256 back))
      (raise_if-eq-ok _ _ first) (raise_if-eq-ok _ _ second)
  where
    by_prefix :
        (text_eq front context_set_prefix ≡ true) ⊎ (text_eq front context_set_prefix ≡ false)
        → (text_eq front snapshot_prefix ≡ true) ⊎ (text_eq front snapshot_prefix ≡ false)
        → (is_bare_hex_256 back ≡ true) ⊎ (is_bare_hex_256 back ≡ false)
        → (not (text_eq front context_set_prefix || text_eq front snapshot_prefix)
            || not (is_bare_hex_256 back))
          ≡ false
        → (text_eq front context_set_prefix && not (text_eq back digest)) ≡ false
        → AnchorHolds digest (front ++ (b':' ∷ back))
    by_prefix (inl a) b c first second = elim (Bool-cases (text_eq back digest)) [
      | inl same ↦
          rw (text_eq_sound front context_set_prefix a, text_eq_sound back digest same) (inl refl)
      | inr other ↦ cc (rw (a, other) at second)
    ]
    by_prefix (inr a) (inl b) (inl c) first second = inr (
      back,
      (is_bare_hex_256_iff back).0 c,
      ap (λ u. u ++ (b':' ∷ back)) (text_eq_sound front snapshot_prefix b),
    )
    by_prefix (inr a) (inr b) c first second = cc (rw (a, b) at first)
    by_prefix (inr a) (inl b) (inr c) first second = cc (rw (a, b, c) at first)

pub check_anchor_iff :
    (digest anchor : Text)
    → IsHex256 digest
    → (check_anchor digest (some anchor) ≡ ok tt) ↔ AnchorHolds digest anchor
unfolding check_anchor check_anchor_parts
check_anchor_iff digest anchor hex = (forward, backward)
  where
    forward :
        check_anchor_parts digest (rpartition_colon anchor) ≡ ok tt → AnchorHolds digest anchor
    forward h = elim (Option-cases (rpartition_colon anchor)) [
      | inl e ↦ cc (rw (e, check_anchor_parts) at h)
      | inr ((front, back), e) ↦
          rw (rpartition_colon-eq-some anchor front back e)
            (parts-AnchorHolds digest front back (rw e at h))
    ]

    backward :
        AnchorHolds digest anchor → check_anchor_parts digest (rpartition_colon anchor) ≡ ok tt
    backward (inl e) = rw (
      e,
      rpartition_colon-append context_set_prefix digest (IsHex256-ne-colon digest hex),
      check_anchor_parts,
      (is_bare_hex_256_iff digest).1 hex,
      text_eq_refl digest,
    )
    backward (inr (h, hex', e)) = rw (
      e,
      rpartition_colon-append snapshot_prefix h (IsHex256-ne-colon h hex'),
      check_anchor_parts,
      (is_bare_hex_256_iff h).1 hex',
    )
