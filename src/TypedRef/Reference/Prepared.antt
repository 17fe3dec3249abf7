-- ===== src/TypedRef/Reference/Prepared.antt =====
-- What the metadata checks on a reference establish.
use scitt_payload_binding.Common.{
  not-false, ◌≡◌, refl, ap, ◌∙◌, subst, ◌↔◌, ◌⊎◌, ◌++◌, ◌==◌, ==_iff, &&_true, Bytes, [], ◌∷◌,
  Option, none, some, codes, starts_with, drop, length, text_eq_refl, true, false, not, Text,
  text_eq, text_eq_sound, text_eq_complete, inl, inr, Bool-cases,
}
use scitt_payload_binding.Errors.{ok, raise_if, >>=-eq-ok, raise_if-eq-ok}
use scitt_payload_binding.Canonicalize.Digest.{as_transmitted_name, is_json_algorithm}
use scitt_payload_binding.TypedRef.Context.{ArtifactDigestContext}
use scitt_payload_binding.TypedRef.Hex.{is_bare_hex_256}
use scitt_payload_binding.TypedRef.Hex.Plain.{IsHex256, is_bare_hex_256_iff}
use scitt_payload_binding.TypedRef.Context.{bare_hex, sha256_prefixed, raw_name}
use scitt_payload_binding.TypedRef.Definition.{is_none}
use scitt_payload_binding.TypedRef.Select.{require_executable_context}
use scitt_payload_binding.TypedRef.Reference.{
  sha256_colon, is_prefixed_hex, digest_text, digest_octets, Digest, TypedRef, Reference,
  as_typed_ref, carried_purpose, purpose_differs, sha_256, has_representation,
  is_known_representation, check_representation, prepare_reference,
}

-- A JSON algorithm with a declared field selection.
pub record IsExecutable (entry : ArtifactDigestContext) : Type 0 where
  pub json_algorithm : is_json_algorithm entry.algorithm ≡ true
  pub selects_fields : is_none entry.whole_object_exclusion_set ≡ false

json_not_transmitted :
    (t : Text) → is_json_algorithm t ≡ true → text_eq t as_transmitted_name ≡ false
json_not_transmitted t h = elim (Bool-cases (text_eq t as_transmitted_name)) [
  | inl e ↦ cc (rw (text_eq_sound t as_transmitted_name e) at h)
  | inr e ↦ e
]

pub require_executable_context_iff :
    (entry : ArtifactDigestContext)
    → (require_executable_context entry ≡ ok tt) ↔ IsExecutable entry
unfolding require_executable_context
require_executable_context_iff entry = (forward, backward)
  where
    forward : require_executable_context entry ≡ ok tt → IsExecutable entry
    forward h =
        let (_, _, h1) = >>=-eq-ok (raise_if (text_eq entry.algorithm as_transmitted_name) _) _ h in
        let (_, known, h2) =
          >>=-eq-ok (raise_if (not (is_json_algorithm entry.algorithm)) _) _ h1 in
        record {
          json_algorithm = not-false (is_json_algorithm entry.algorithm) (raise_if-eq-ok _ _ known);
          selects_fields = raise_if-eq-ok _ _ h2;
        }

    backward : IsExecutable entry → require_executable_context entry ≡ ok tt
    backward x =
        rw (
          json_not_transmitted entry.algorithm x.json_algorithm,
          x.json_algorithm,
          x.selects_fields,
        )

check_representation-eq-ok :
    (digest : Digest) (representation : Text)
    → check_representation digest representation ≡ ok tt
    → (is_known_representation representation ≡ true)
      × (has_representation representation digest ≡ true)
unfolding check_representation
check_representation-eq-ok digest representation h =
    elim (Bool-cases (is_known_representation representation)) [
      | inl known ↦ (
        known,
        not-false (has_representation representation digest) (raise_if-eq-ok _ _ (rw known at h)),
      )
      | inr unknown ↦ cc (rw unknown at h)
    ]

-- A digest in one of the three representations: 64 hexadecimal characters, the same behind `sha256:`,
-- or 32 octets.
pub data Represented (representation : Text) (digest : Digest) : Type 0 where
  bare :
      (h : Text)
      → representation ≡ codes "bare-hex"
      → digest ≡ digest_text h
      → IsHex256 h
      → Represented representation digest
  prefixed :
      (h : Text)
      → representation ≡ codes "sha256-prefixed"
      → digest ≡ digest_text (codes "sha256:" ++ h)
      → IsHex256 h
      → Represented representation digest
  raw :
      (b : Bytes)
      → representation ≡ codes "raw"
      → digest ≡ digest_octets b
      → length b ≡ 32
      → Represented representation digest

starts_with-append : (s p : Text) → starts_with s p ≡ true → s ≡ p ++ drop (length p) s
starts_with-append s [] h = refl
starts_with-append [] (d ∷ p) h = cc
starts_with-append (c ∷ s) (d ∷ p) h =
    let (first, later) = &&_true (c == d) (starts_with s p) h in
    ap (λ x. x ∷ s) ((==_iff c d).0 first) ∙ ap (λ x. d ∷ x) (starts_with-append s p later)

text-Represented :
    (representation t : Text)
    → has_representation representation (digest_text t) ≡ true
    → Represented representation (digest_text t)
unfolding has_representation
text-Represented representation t h = elim (Bool-cases (text_eq representation bare_hex)) [
  | inl e ↦
      bare t (text_eq_sound representation bare_hex e) refl
        ((is_bare_hex_256_iff t).0 (rw (e, has_representation) at h))
  | inr e ↦
      let (named, form) =
        &&_true (text_eq representation sha256_prefixed) (is_prefixed_hex t)
          (rw (e, has_representation) at h) in
      let (start, hex) = &&_true (starts_with t sha256_colon) (is_bare_hex_256 (drop 7 t)) form in
      prefixed (drop 7 t) (text_eq_sound representation sha256_prefixed named)
        (ap digest_text (starts_with-append t sha256_colon start))
        ((is_bare_hex_256_iff (drop 7 t)).0 hex)
]

octets-Represented :
    (representation : Text) (b : Bytes)
    → has_representation representation (digest_octets b) ≡ true
    → Represented representation (digest_octets b)
unfolding has_representation
octets-Represented representation b h =
    let (named, size) = &&_true (text_eq representation raw_name) (length b == 32) h in
    raw b (text_eq_sound representation raw_name named) refl ((==_iff (length b) 32).0 size)

pub has_representation-Represented :
    (representation : Text) (digest : Digest)
    → has_representation representation digest ≡ true
    → Represented representation digest
has_representation-Represented r (digest_text t) h = text-Represented r t h
has_representation-Represented r (digest_octets b) h = octets-Represented r b h

Represented-passes :
    (representation : Text) (digest : Digest)
    → Represented representation digest
    → check_representation digest representation ≡ ok tt
unfolding check_representation has_representation
Represented-passes r d (bare h e f hex) = rw (e, f, (is_bare_hex_256_iff h).1 hex)
Represented-passes r d (prefixed h e f hex) = rw (e, f, (is_bare_hex_256_iff h).1 hex)
Represented-passes r d (raw b e f size) = rw (e, f, (==_iff (length b) 32).1 size)

purpose_differs-agrees :
    (o : Option Text) (expected : Text)
    → purpose_differs o expected ≡ false
    → (o ≡ none) ⊎ (o ≡ some expected)
purpose_differs-agrees none expected h = inl refl
purpose_differs-agrees (some t) expected h =
    inr (ap some (text_eq_sound t expected (not-false (text_eq t expected) h)))

agrees-purpose_differs :
    (o : Option Text) (expected : Text)
    → (o ≡ none) ⊎ (o ≡ some expected)
    → purpose_differs o expected ≡ false
agrees-purpose_differs o expected (inl e) = rw e
agrees-purpose_differs o expected (inr e) = rw (e, purpose_differs, text_eq_refl expected)

-- The reference names the context's type, its purpose if it names one, the hash algorithm, and
-- carries a digest in the context's representation; the context is executable.
pub record IsPrepared (reference : Reference) (entry : ArtifactDigestContext) (r : TypedRef)
    : Type 0 where
  pub is_ref : as_typed_ref reference ≡ ok r
  pub same_type : entry.name ≡ r.type
  pub same_purpose :
      (carried_purpose reference ≡ none) ⊎ (carried_purpose reference ≡ some entry.purpose)
  pub executable : IsExecutable entry
  pub hash_alg : r.digest_alg ≡ sha_256
  pub represented : Represented entry.representation r.digest

-- The metadata checks return `r` exactly when the reference is `r`, agrees with the context in type and
-- purpose, the context is executable, the hash algorithm is SHA-256 and the digest has the context's
-- representation.
pub prepare_reference_iff :
    (reference : Reference) (entry : ArtifactDigestContext) (r : TypedRef)
    → (prepare_reference reference entry ≡ ok r) ↔ IsPrepared reference entry r
unfolding prepare_reference
prepare_reference_iff reference entry r = (forward, backward)
  where
    forward : prepare_reference reference entry ≡ ok r → IsPrepared reference entry r
    forward h =
        let (q, is_ref, h1) = >>=-eq-ok (as_typed_ref reference) _ h in
        let (_, same_type, h2) = >>=-eq-ok (raise_if (not (text_eq entry.name q.type)) _) _ h1 in
        let (_, same_purpose, h3) =
          >>=-eq-ok (raise_if (purpose_differs (carried_purpose reference) entry.purpose) _) _ h2 in
        let (_, runs, h4) = >>=-eq-ok (require_executable_context entry) _ h3 in
        let (_, hash_alg, h5) = >>=-eq-ok (raise_if (not (text_eq q.digest_alg sha_256)) _) _ h4 in
        let (_, represented, last) =
          >>=-eq-ok (check_representation q.digest entry.representation) _ h5 in
        let (_, has) = check_representation-eq-ok q.digest entry.representation represented in
        subst (IsPrepared reference entry) (cc last) (record {
          is_ref = is_ref;
          same_type =
              text_eq_sound entry.name q.type
                (not-false (text_eq entry.name q.type) (raise_if-eq-ok _ _ same_type));
          same_purpose =
              purpose_differs-agrees (carried_purpose reference) entry.purpose
                (raise_if-eq-ok _ _ same_purpose);
          executable = (require_executable_context_iff entry).0 runs;
          hash_alg =
              text_eq_sound q.digest_alg sha_256
                (not-false (text_eq q.digest_alg sha_256) (raise_if-eq-ok _ _ hash_alg));
          represented = has_representation-Represented entry.representation q.digest has;
        })

    backward : IsPrepared reference entry r → prepare_reference reference entry ≡ ok r
    backward p = rw (
      p.is_ref,
      text_eq_complete entry.name r.type p.same_type,
      agrees-purpose_differs (carried_purpose reference) entry.purpose p.same_purpose,
      (require_executable_context_iff entry).1 p.executable,
      text_eq_complete r.digest_alg sha_256 p.hash_alg,
      Represented-passes entry.representation r.digest p.represented,
    )
