-- ===== src/Cose/Refs/Extracted.antt =====
-- What the extraction of the carried references returns.
use scitt_payload_binding.Common.{
  ℕ, suc, ◌≤◌, ◌≡◌, ◌≢◌, Bool, ◌∙◌, Bytes, any, Distinct, text_eq_refl, ||_false, refl, sym, ap,
  subst, true, false, not, ◌&&◌, Text, List, [], ◌∷◌, Option, none, some, length, All, ltb, arith,
  all, Bool-cases, inl, inr,
}
use mathlib.Core.Bool.{false≢true}
use scitt_payload_binding.Canonicalize.Serialize.{encode_utf8}
use scitt_payload_binding.Errors.{ok, raise_if, >>=-eq-ok, raise_if-eq-ok}
use scitt_payload_binding.Python.{Host}
use scitt_payload_binding.TypedRef.Reference.{Digest, digest_text, digest_octets, TypedRef}
use scitt_payload_binding.Cbor.Item.{
  Scalar, octets, text, Cbor, scalar, array, map, Elements, no_elements, element, Pairs, get,
  contains, keys, has_same_key, count_elements,
}
use scitt_payload_binding.Cose.Sign1.{CoseSign1}
use scitt_payload_binding.Cose.Headers.{label}
use scitt_payload_binding.Cose.Refs.{
  max_refs, max_type_bytes, max_purpose_bytes, max_digest_alg_bytes, max_digest_bytes, bounded,
  same_purpose, same_digest, same_identity, nonempty_text, digest_of, is_member_key, purpose_of,
  reference_of, validate_reference_map, reference_list, repeats, carrier_refs, Carriage,
  extract_refs,
}

-- a non-empty text whose UTF-8 form has at most `maximum` bytes
abbrev pub NonemptyText : ℕ → Text → Type 0
NonemptyText maximum t =
    (t ≢ []) × ((encoded : Bytes) × (encode_utf8 t ≡ ok encoded) × (length encoded ≤ maximum))

abbrev pub NonemptyDigest : Digest → Type 0
NonemptyDigest (digest_text t) = NonemptyText 128 t
NonemptyDigest (digest_octets b) = (b ≢ []) × (length b ≤ 128)

abbrev pub OptionalText : Option Text → Type 0
OptionalText none = Unit
OptionalText (some t) = NonemptyText 64 t

-- the members of a carried reference are within their bounds
pub record Bounded (r : TypedRef) : Type 0 where
  pub type_fits : NonemptyText 255 r.type
  pub purpose_fits : OptionalText r.purpose
  pub digest_alg_fits : NonemptyText 32 r.digest_alg
  pub digest_fits : NonemptyDigest r.digest

cons-ne-nil : (c : ℕ) (t : Text) → c ∷ t ≢ []
cons-ne-nil c t e = cc e

bounded-eq-ok :
    (maximum : ℕ) (t : Text)
    → bounded maximum t ≡ ok tt
    → (encoded : Bytes) × (encode_utf8 t ≡ ok encoded) × (length encoded ≤ maximum)
unfolding bounded
bounded-eq-ok maximum t h =
    let (encoded, e, h1) = >>=-eq-ok (encode_utf8 t) _ h in
    (encoded, e, at_most (length encoded) (raise_if-eq-ok _ _ h1))
  where
    at_most : (n : ℕ) → ltb maximum n ≡ false → n ≤ maximum
    at_most n f = ground arith

nonempty_text-eq-ok :
    (maximum : ℕ) (o : Option Cbor) (t : Text)
    → nonempty_text maximum o ≡ ok t
    → NonemptyText maximum t
unfolding nonempty_text
nonempty_text-eq-ok maximum (some (scalar (text (c ∷ s)))) t h =
    let (_, fits, last) = >>=-eq-ok (bounded maximum (c ∷ s)) _ h in
    let same : c ∷ s ≡ t = cc last in
    subst (NonemptyText maximum) same (cons-ne-nil c s, bounded-eq-ok maximum (c ∷ s) fits)
nonempty_text-eq-ok maximum _ t h = cc

digest_of-eq-ok : (o : Option Cbor) (d : Digest) → digest_of o ≡ ok d → NonemptyDigest d
unfolding digest_of
digest_of-eq-ok (some (scalar (text (c ∷ s)))) d h =
    let (_, fits, last) = >>=-eq-ok (bounded max_digest_bytes (c ∷ s)) _ h in
    let same : digest_text (c ∷ s) ≡ d = cc last in
    subst NonemptyDigest same (cons-ne-nil c s, bounded-eq-ok max_digest_bytes (c ∷ s) fits)
digest_of-eq-ok (some (scalar (octets (c ∷ s)))) d h =
    let (_, fits, last) = >>=-eq-ok (raise_if (ltb max_digest_bytes (length (c ∷ s))) _) _ h in
    let same : digest_octets (c ∷ s) ≡ d = cc last in
    subst NonemptyDigest same
      (cons-ne-nil c s, at_most (length (c ∷ s)) max_digest_bytes (raise_if-eq-ok _ _ fits))
  where
    at_most : (a b : ℕ) → ltb b a ≡ false → a ≤ b
    at_most a b e = ground arith
digest_of-eq-ok _ d h = cc

purpose_of-eq-ok :
    (host : Host) (ps : Pairs) (o : Option Text) → purpose_of host ps ≡ ok o → OptionalText o
unfolding purpose_of
purpose_of-eq-ok host ps o h = elim (Bool-cases (contains host (label 2) ps)) [
  | inr lacks ↦
      let absent : none ≡ o = cc (rw (lacks, purpose_of) at h) in subst OptionalText absent tt
  | inl has ↦
      let (p, found, last) =
        >>=-eq-ok (nonempty_text max_purpose_bytes (get host (label 2) ps)) (λ t. ok (some t))
          (rw (has, purpose_of) at h) in
      let same : some p ≡ o = cc last in
      subst OptionalText same (nonempty_text-eq-ok max_purpose_bytes _ p found)
]

reference_of-eq-ok :
    (host : Host) (ps : Pairs) (r : TypedRef) → reference_of host ps ≡ ok r → Bounded r
unfolding reference_of
reference_of-eq-ok host ps r h =
    let (_, _, h1) = >>=-eq-ok (raise_if (not (all is_member_key (keys ps))) _) _ h in
    let (_, _, h2) =
      >>=-eq-ok
        (raise_if
          (not (
            contains host (label 1) ps && contains host (label 3) ps && contains host (label 4) ps))
          _)
        _ h1 in
    let (t, type_found, h3) =
      >>=-eq-ok (nonempty_text max_type_bytes (get host (label 1) ps)) _ h2 in
    let (p, purpose_found, h4) = >>=-eq-ok (purpose_of host ps) _ h3 in
    let (a, alg_found, h5) =
      >>=-eq-ok (nonempty_text max_digest_alg_bytes (get host (label 3) ps)) _ h4 in
    let (d, digest_found, last) = >>=-eq-ok (digest_of (get host (label 4) ps)) _ h5 in
    let made : TypedRef = record { type = t; digest_alg = a; digest = d; purpose = p } in
    let same : made ≡ r = cc last in
    subst Bounded same (record {
      type_fits = nonempty_text-eq-ok max_type_bytes _ t type_found;
      purpose_fits = purpose_of-eq-ok host ps p purpose_found;
      digest_alg_fits = nonempty_text-eq-ok max_digest_alg_bytes _ a alg_found;
      digest_fits = digest_of-eq-ok _ d digest_found;
    })

validate_reference_map-eq-ok :
    (host : Host) (v : Cbor) (r : TypedRef) → validate_reference_map host v ≡ ok r → Bounded r
unfolding validate_reference_map
validate_reference_map-eq-ok host (map ps) r h = reference_of-eq-ok host ps r h
validate_reference_map-eq-ok host _ r h = cc

reference_list-eq-ok :
    (host : Host) (xs : Elements) (rs : List TypedRef)
    → reference_list host xs ≡ ok rs
    → All Bounded rs × (length rs ≡ count_elements xs)
unfolding reference_list count_elements
reference_list-eq-ok host no_elements [] h = (tt, refl)
reference_list-eq-ok host no_elements (r ∷ rs) h = cc
reference_list-eq-ok host (element v xs) rs h =
    let (q, one, h1) = >>=-eq-ok (validate_reference_map host v) _ h in
    let (qs, more, last) = >>=-eq-ok (reference_list host xs) _ h1 in
    let same : q ∷ qs ≡ rs = cc last in
    let (fit, size) = reference_list-eq-ok host xs qs more in
    subst (λ ts. All Bounded ts × (length ts ≡ suc (count_elements xs))) same
      ((validate_reference_map-eq-ok host v q one, fit), ap suc size)

-- At most 64 references, pairwise different, each within the bounds of its members.
pub record Carried (refs : List TypedRef) : Type 0 where
  pub few : length refs ≤ 64
  pub distinct : Distinct refs
  pub fits : All Bounded refs

same_purpose_refl : (o : Option Text) → same_purpose o o ≡ true
same_purpose_refl none = refl
same_purpose_refl (some t) = text_eq_refl t

same_digest_refl : (d : Digest) → same_digest d d ≡ true
same_digest_refl (digest_text t) = text_eq_refl t
same_digest_refl (digest_octets b) = text_eq_refl b

same_identity_refl : (r : TypedRef) → same_identity r r ≡ true
unfolding same_identity
same_identity_refl r = rw (
  text_eq_refl r.type,
  same_purpose_refl r.purpose,
  text_eq_refl r.digest_alg,
  same_digest_refl r.digest,
)

any-All-ne :
    (r : TypedRef) (rs : List TypedRef) → any (same_identity r) rs ≡ false → All (λ s. r ≢ s) rs
any-All-ne r [] h = tt
any-All-ne r (s ∷ rs) h =
    let (first, later) = ||_false (same_identity r s) (any (same_identity r) rs) h in
    (
      λ e. false≢true (sym first ∙ subst (λ q. same_identity r q ≡ true) e (same_identity_refl r)),
      any-All-ne r rs later,
    )

repeats-Distinct : (rs : List TypedRef) → repeats rs ≡ false → Distinct rs
unfolding repeats
repeats-Distinct [] h = tt
repeats-Distinct (r ∷ rs) h =
    let (first, later) = ||_false (any (same_identity r) rs) (repeats rs) h in
    (any-All-ne r rs first, repeats-Distinct rs later)

-- the carrier's value is a non-empty array, with one reference for each element
pub record Listed (o : Option Cbor) (refs : List TypedRef) : Type 0 where
  pub elements : Elements
  pub is_array : o ≡ some (array elements)
  pub as_many : length refs ≡ count_elements elements
  pub some_listed : refs ≢ []

carrier_refs-eq-ok :
    (host : Host) (o : Option Cbor) (refs : List TypedRef)
    → carrier_refs host o ≡ ok refs
    → Carried refs × Listed o refs
unfolding carrier_refs count_elements
carrier_refs-eq-ok host (some (array (element v xs))) refs h =
    let (_, few, h1) = >>=-eq-ok (raise_if (ltb max_refs (count_elements (element v xs))) _) _ h in
    let (rs, listed, h2) = >>=-eq-ok (reference_list host (element v xs)) _ h1 in
    let (_, distinct, last) = >>=-eq-ok (raise_if (repeats rs) _) _ h2 in
    let same : rs ≡ refs = cc last in
    let (fit, size) = reference_list-eq-ok host (element v xs) rs listed in
    subst (λ ts. Carried ts × Listed (some (array (element v xs))) ts) same
      (
        record {
          few = at_most (count_elements (element v xs)) (length rs) size (raise_if-eq-ok _ _ few);
          distinct = repeats-Distinct rs (raise_if-eq-ok _ _ distinct);
          fits = fit;
        },
        record {
          elements = element v xs;
          is_array = refl;
          as_many = size;
          some_listed = λ e. no_zero rs (count_elements xs) e size;
        },
      )
  where
    no_zero : (ts : List TypedRef) (n : ℕ) → ts ≡ [] → length ts ≡ suc n → ⊥
    no_zero [] n e f = omega arith
    no_zero (t ∷ ts) n e f = cc e

    at_most : (n m : ℕ) → m ≡ n → ltb 64 n ≡ false → m ≤ 64
    at_most n m e f = ground arith
carrier_refs-eq-ok host _ refs h = cc

implied : (a b : Bool) → (a && not b) ≡ false → a ≡ true → b ≡ true
implied a b h e = ground arith

-- Extraction returns references only when the carrier header is not unprotected: at most 64 of them,
-- pairwise different, each with a non-empty type, hash algorithm and digest and no empty purpose, of at
-- most 255, 32, 128 and 64 bytes. An absent header is optional and gives
-- none; the value of a header that is present is an array, with one reference for each element, and a
-- header that must be critical is listed in `crit`.
pub extract_refs-eq-ok :
    (host : Host) (cose : CoseSign1) (key : Scalar) (carriage : Carriage) (critical : List Scalar)
    (refs : List TypedRef)
    → extract_refs host cose key carriage critical ≡ ok refs
    → (contains host key cose.unprotected ≡ false)
      × Carried refs
      × (contains host key cose.protected ≡ true
          → (carriage.require_critical ≡ true → has_same_key host key critical ≡ true)
            × Listed (get host key cose.protected) refs)
      × (contains host key cose.protected ≡ false → (carriage.required ≡ false) × (refs ≡ []))
unfolding extract_refs
extract_refs-eq-ok host cose key carriage critical refs h =
    let (_, located, h1) = >>=-eq-ok (raise_if (contains host key cose.unprotected) _) _ h in
    elim (Bool-cases (contains host key cose.protected)) [
      | inl has ↦
          let (_, listed, h2) =
            >>=-eq-ok
              (raise_if (carriage.require_critical && not (has_same_key host key critical)) _) _
              (rw has at h1) in
          (
            raise_if-eq-ok _ _ located,
            (carrier_refs-eq-ok host (get host key cose.protected) refs h2).0,
            (λ _. (
              implied carriage.require_critical (has_same_key host key critical)
                  (raise_if-eq-ok _ _ listed),
              (carrier_refs-eq-ok host (get host key cose.protected) refs h2).1,
            )),
            λ e. cc (has, e),
          )
      | inr lacks ↦
          let (_, optional, last) = >>=-eq-ok (raise_if carriage.required _) _ (rw lacks at h1) in
          let same : [] ≡ refs = cc last in
          (
            raise_if-eq-ok _ _ located,
            subst Carried same (record { few = omega arith; distinct = tt; fits = tt }),
            (λ e. cc (lacks, e)),
            λ _. (raise_if-eq-ok _ _ optional, sym same),
          )
    ]
