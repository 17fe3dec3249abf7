-- ===== src/Vectors/Carrier/Extracted.antt =====
-- The library extracts the references of every fixture that the vector checks accept.
use scitt_payload_binding.Common.{
  ℕ, ◌≡◌, refl, sym, ◌∙◌, subst, false, ◌&&◌, not, Text, List, [], ◌∷◌, Option, none, some, ltb,
  all, any, Bool-cases, inl, inr,
}
use scitt_payload_binding.Errors.{ok, raise_if, >>=-eq-ok, raise_if-eq-ok}
use scitt_payload_binding.Python.{Host}
use scitt_payload_binding.Canonicalize.Serialize.{encode_utf8}
use scitt_payload_binding.TypedRef.Reference.{Digest, digest_text, digest_octets, TypedRef}
use scitt_payload_binding.Cbor.Item.{
  Scalar, null, octets, text, Cbor, scalar, array, map, tag, Elements, no_elements, element, Pairs,
  contains, keys, count_elements,
}
use scitt_payload_binding.Cbor.Item as Item
use scitt_payload_binding.Cose.Headers.{label}
use scitt_payload_binding.Cose.Refs.{
  bounded, nonempty_text, digest_of, is_member_key, purpose_of, reference_of,
  validate_reference_map, reference_list, same_digest, same_purpose, same_identity, repeats,
  carrier_refs,
}
use scitt_payload_binding.Vectors.Carrier.{
  fits_in, bounded_nonempty_text, bounded_digest, optional_purpose, checked_ref_map,
  validate_cpb_ref_map, validated_refs, same_member, same_ref, repeats_ref, carried_refs,
}

fits_in-bounded : (n : ℕ) (t : Text) → fits_in n t ≡ ok tt → bounded n t ≡ ok tt
unfolding fits_in bounded
fits_in-bounded n t h =
    let (b, encoded, fits) = >>=-eq-ok (encode_utf8 t) _ h in rw (encoded, raise_if-eq-ok _ _ fits)

-- A text member that both read alike.
nonempty_text-agrees :
    (n : ℕ) (o : Option Cbor)
    → bounded_nonempty_text n o ≡ ok tt
    → (t : Text) × (nonempty_text n o ≡ ok t) × (o ≡ some (scalar (text t)))
unfolding bounded_nonempty_text nonempty_text
nonempty_text-agrees n (some (scalar (text (c ∷ t)))) h =
    (c ∷ t, rw (fits_in-bounded n (c ∷ t) h), refl)
nonempty_text-agrees n _ h = cc

-- the CBOR value of a digest
abbrev pub digest_item : Digest → Cbor
digest_item (digest_text t) = scalar (text t)
digest_item (digest_octets b) = scalar (octets b)

digest_of-agrees :
    (o : Option Cbor)
    → bounded_digest o ≡ ok tt
    → (d : Digest) × (digest_of o ≡ ok d) × (o ≡ some (digest_item d))
unfolding bounded_digest digest_of
digest_of-agrees (some (scalar (text (c ∷ t)))) h =
    (digest_text (c ∷ t), rw (fits_in-bounded 128 (c ∷ t) h), refl)
digest_of-agrees (some (scalar (octets (b ∷ bs)))) h =
    (digest_octets (b ∷ bs), rw (raise_if-eq-ok _ _ h), refl)
digest_of-agrees _ h = cc

-- the CBOR value of an optional purpose
abbrev pub purpose_item : Option Text → Option Cbor
purpose_item none = none
purpose_item (some p) = some (scalar (text p))

-- The members of a CBOR map are those of a reference.
pub record Describes (host : Host) (ps : Pairs) (r : TypedRef) : Type 0 where
  pub type : Item.get host (label 1) ps ≡ some (scalar (text r.type))
  pub purpose : Item.get host (label 2) ps ≡ purpose_item r.purpose
  pub digest_alg : Item.get host (label 3) ps ≡ some (scalar (text r.digest_alg))
  pub digest : Item.get host (label 4) ps ≡ some (digest_item r.digest)

-- The maps describe the references, one each and in their order.
abbrev pub DescribeAll : Host → List Pairs → List TypedRef → Type 0
DescribeAll host [] [] = Unit
DescribeAll host (ps ∷ pss) (r ∷ rs) = Describes host ps r × DescribeAll host pss rs
DescribeAll host _ _ = ⊥

pub get-contains :
    (host : Host) (k : Scalar) (ps : Pairs) → contains host k ps ≡ false → Item.get host k ps ≡ none
unfolding contains Item.get
get-contains host k Item.no_pairs h = refl
get-contains host k (Item.pair j v ps) h = elim (Bool-cases (Item.same_key host j k)) [
  | inl e ↦ cc (rw (contains, e) at h)
  | inr e ↦ rw (Item.get, e) (get-contains host k ps (rw (contains, e) at h))
]

purpose_of-agrees :
    (host : Host) (ps : Pairs)
    → optional_purpose host ps ≡ ok tt
    → (p : Option Text) × (purpose_of host ps ≡ ok p)
      × (Item.get host (label 2) ps ≡ purpose_item p)
unfolding optional_purpose purpose_of
purpose_of-agrees host ps h = elim (Bool-cases (contains host (label 2) ps)) [
  | inr lacks ↦ (none, rw (purpose_of, lacks), get-contains host (label 2) ps lacks)
  | inl has ↦
      let (t, found, e) =
        nonempty_text-agrees 64 (Item.get host (label 2) ps) (rw (optional_purpose, has) at h) in
      (some t, rw (purpose_of, has, found), e)
]

checked_ref_map-agrees :
    (host : Host) (ps qs : Pairs)
    → checked_ref_map host ps ≡ ok qs
    → (ps ≡ qs) × ((r : TypedRef) × (reference_of host ps ≡ ok r) × Describes host ps r)
unfolding checked_ref_map reference_of
checked_ref_map-agrees host ps qs h =
    let (_, known, h1) = >>=-eq-ok (raise_if (not (all is_member_key (keys ps))) _) _ h in
    let (_, enough, h2) =
      >>=-eq-ok
        (raise_if
          (not (
            contains host (label 1) ps && contains host (label 3) ps && contains host (label 4) ps))
          _)
        _ h1 in
    let (_, type_ok, h3) =
      >>=-eq-ok (bounded_nonempty_text 255 (Item.get host (label 1) ps)) _ h2 in
    let (_, purpose_ok, h4) = >>=-eq-ok (optional_purpose host ps) _ h3 in
    let (_, alg_ok, h5) = >>=-eq-ok (bounded_nonempty_text 32 (Item.get host (label 3) ps)) _ h4 in
    let (_, digest_ok, last) = >>=-eq-ok (bounded_digest (Item.get host (label 4) ps)) _ h5 in
    let (t, type_read, type_at) = nonempty_text-agrees 255 _ type_ok in
    let (p, purpose_read, purpose_at) = purpose_of-agrees host ps purpose_ok in
    let (a, alg_read, alg_at) = nonempty_text-agrees 32 _ alg_ok in
    let (d, digest_read, digest_at) = digest_of-agrees _ digest_ok in
    let made : TypedRef = record { type = t; digest_alg = a; digest = d; purpose = p } in
    let read : reference_of host ps ≡ ok made = rw (
      raise_if-eq-ok _ _ known,
      raise_if-eq-ok _ _ enough,
      type_read,
      purpose_read,
      alg_read,
      digest_read,
    ) in
    (
      cc last,
      (
        made,
        read,
        record { type = type_at; purpose = purpose_at; digest_alg = alg_at; digest = digest_at },
      ),
    )

validate-agrees :
    (host : Host) (v : Cbor) (ps : Pairs)
    → validate_cpb_ref_map host v ≡ ok ps
    → (r : TypedRef) × (validate_reference_map host v ≡ ok r) × Describes host ps r
unfolding validate_cpb_ref_map validate_reference_map
validate-agrees host (map qs) ps h =
    let (same, rest) = checked_ref_map-agrees host qs ps h in
    subst (λ us. (r : TypedRef) × (reference_of host qs ≡ ok r) × Describes host us r) same rest
validate-agrees host _ ps h = cc

same_member-purposes :
    (p q : Option Text) → same_member (purpose_item p) (purpose_item q) ≡ same_purpose p q
unfolding same_member
same_member-purposes none none = refl
same_member-purposes none (some q) = refl
same_member-purposes (some p) none = refl
same_member-purposes (some p) (some q) = refl

same_member-digests :
    (d e : Digest) → same_member (some (digest_item d)) (some (digest_item e)) ≡ same_digest d e
unfolding same_member
same_member-digests (digest_text s) (digest_text t) = refl
same_member-digests (digest_text s) (digest_octets t) = refl
same_member-digests (digest_octets s) (digest_text t) = refl
same_member-digests (digest_octets s) (digest_octets t) = refl

same_ref-Describes :
    (host : Host) (ps qs : Pairs) (r s : TypedRef)
    → Describes host ps r
    → Describes host qs s
    → same_ref host ps qs ≡ same_identity r s
unfolding same_ref same_identity same_member
same_ref-Describes host ps qs r s d e = rw (
  d.type,
  e.type,
  d.purpose,
  e.purpose,
  d.digest_alg,
  e.digest_alg,
  d.digest,
  e.digest,
  same_member-purposes r.purpose s.purpose,
  same_member-digests r.digest s.digest,
)

any-Describes :
    (host : Host) (ps : Pairs) (r : TypedRef) (pss : List Pairs) (rs : List TypedRef)
    → Describes host ps r
    → DescribeAll host pss rs
    → any (same_ref host ps) pss ≡ any (same_identity r) rs
any-Describes host ps r [] [] d ds = refl
any-Describes host ps r [] (s ∷ rs) d ds = absurd ds
any-Describes host ps r (qs ∷ pss) [] d ds = absurd ds
any-Describes host ps r (qs ∷ pss) (s ∷ rs) d (e, ds) =
    rw (same_ref-Describes host ps qs r s d e, any-Describes host ps r pss rs d ds)

repeats_ref-DescribeAll :
    (host : Host) (pss : List Pairs) (rs : List TypedRef)
    → DescribeAll host pss rs
    → repeats_ref host pss ≡ repeats rs
unfolding repeats_ref repeats
repeats_ref-DescribeAll host [] [] ds = refl
repeats_ref-DescribeAll host [] (r ∷ rs) ds = absurd ds
repeats_ref-DescribeAll host (ps ∷ pss) [] ds = absurd ds
repeats_ref-DescribeAll host (ps ∷ pss) (r ∷ rs) (d, ds) =
    rw (any-Describes host ps r pss rs d ds, repeats_ref-DescribeAll host pss rs ds)

validated_refs-agrees :
    (host : Host) (xs : Elements) (pss : List Pairs)
    → validated_refs host xs ≡ ok pss
    → (rs : List TypedRef) × (reference_list host xs ≡ ok rs) × DescribeAll host pss rs
unfolding validated_refs reference_list
validated_refs-agrees host no_elements pss h =
    let same : [] ≡ pss = cc h in ([], refl, subst (λ x. DescribeAll host x []) same tt)
validated_refs-agrees host (element v xs) pss h =
    let (ps, one, h1) = >>=-eq-ok (validate_cpb_ref_map host v) _ h in
    let (qss, others, last) = >>=-eq-ok (validated_refs host xs) _ h1 in
    let (r, r_read, d) = validate-agrees host v ps one in
    let (rs, rs_read, ds) = validated_refs-agrees host xs qss others in
    let same : ps ∷ qss ≡ pss = cc last in
    (r ∷ rs, rw (r_read, rs_read), subst (λ x. DescribeAll host x (r ∷ rs)) same (d, ds))

-- The value of a carrier header that the vector checks accept is one that the library accepts, and
-- the accepted maps describe the references that the library makes of them, in their order.
pub carried_refs-carrier_refs :
    (host : Host) (o : Option Cbor) (pss : List Pairs)
    → carried_refs host o ≡ ok pss
    → (rs : List TypedRef) × (carrier_refs host o ≡ ok rs) × DescribeAll host pss rs
unfolding carried_refs carrier_refs
carried_refs-carrier_refs host (some (array (element v xs))) pss h =
    let (_, few, h1) = >>=-eq-ok (raise_if (ltb 64 (count_elements (element v xs))) _) _ h in
    let (qss, valid, h2) = >>=-eq-ok (validated_refs host (element v xs)) _ h1 in
    let (_, distinct, last) = >>=-eq-ok (raise_if (repeats_ref host qss) _) _ h2 in
    let (rs, rs_read, ds) = validated_refs-agrees host (element v xs) qss valid in
    let same : qss ≡ pss = cc last in
    let once = sym (repeats_ref-DescribeAll host qss rs ds) ∙ raise_if-eq-ok _ _ distinct in
    (rs, rw (raise_if-eq-ok _ _ few, rs_read, once), subst (λ x. DescribeAll host x rs) same ds)
carried_refs-carrier_refs host _ pss h = cc
