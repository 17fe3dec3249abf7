-- ===== src/TypedRef/Verify/Constructed.antt =====
-- A constructed typed reference verifies.
use scitt_payload_binding.Common.{
  ◌≡◌, refl, sym, subst, Bool, true, false, Text, List, [], ◌∷◌, ◌++◌, Option, some, text_eq,
  text_eq_sound, text_eq_complete, All, keep, arith, inl, inr, Bool-cases,
}
use scitt_payload_binding.Value.{Value, obj}
use scitt_payload_binding.Errors.{ok, >>=-eq-ok, raise_if-eq-ok}
use scitt_payload_binding.Platform.{Platform, IsSha256}
use scitt_payload_binding.Canonicalize.Digest.{parse_json_object, canonical_digest_json, jcs_n_name}
use scitt_payload_binding.Vintage.{Vintage}
use scitt_payload_binding.TypedRef.Hex.{is_bare_hex_256}
use scitt_payload_binding.TypedRef.Hex.RoundTrip.{canonical_digest-raw_digest}
use scitt_payload_binding.TypedRef.Context.{
  ArtifactDigestContext, bare_hex, sha256_prefixed, raw_name,
}
use scitt_payload_binding.TypedRef.Definition.{ArtifactTypeDefinition, require_integrity}
use scitt_payload_binding.TypedRef.Select.{
  select_context, require_json_representation, require_executable_context,
}
use scitt_payload_binding.TypedRef.Select.Unique.{
  Selected, select_context_iff, select_context_again,
}
use scitt_payload_binding.TypedRef.Reference.{
  Digest, digest_text, TypedRef, ref, carried_type, carried_purpose, as_typed_ref,
  has_representation, is_known_representation, carried_bare, sha256_colon, sha_256,
}
use scitt_payload_binding.TypedRef.Reference.Prepared.{
  require_executable_context_iff, has_representation-Represented,
}
use scitt_payload_binding.TypedRef.Verify.{
  exclusions, digest_json_for_context, render_digest, make_typed_ref_json, verify_typed_ref_json,
}
use scitt_payload_binding.TypedRef.Verify.Sound.{VerifiedReference, verify_typed_ref_json_iff}

All-keep {ℓ κ} :
    {A : Type ℓ} (P : A → Type κ) (p : A → Bool) (xs : List A) → All P xs → All P (keep p xs)
All-keep P p [] h = tt
All-keep P p (x ∷ xs) (hx, hxs) = elim (Bool-cases (p x)) [
  | inl e ↦ rw (e, keep) (hx, All-keep P p xs hxs)
  | inr e ↦ rw (e, keep) (All-keep P p xs hxs)
]

-- The digest of raw JSON is 64 lowercase hexadecimal characters.
pub canonical_digest_json-is_bare_hex_256 :
    (platform : Platform) (algorithm : Text) (excluded : List Text) (raw : Value) (t : Text)
    → IsSha256 platform
    → canonical_digest_json platform algorithm excluded raw ≡ ok t
    → is_bare_hex_256 t ≡ true
unfolding canonical_digest_json
canonical_digest_json-is_bare_hex_256 platform algorithm excluded raw t sha h =
    let (fs, _, digested) = >>=-eq-ok (parse_json_object platform algorithm raw) _ h in
    (canonical_digest-raw_digest platform algorithm excluded (obj fs) t sha digested).0

-- A rendered digest has its representation, and its bare form is the digest that was rendered.
rendered :
    (hex representation : Text) (digest : Digest)
    → is_bare_hex_256 hex ≡ true
    → is_known_representation representation ≡ true
    → text_eq representation raw_name ≡ false
    → render_digest hex representation ≡ ok digest
    → (has_representation representation digest ≡ true)
      × (carried_bare representation digest ≡ ok (some hex))
unfolding render_digest has_representation carried_bare
rendered hex representation digest good known textual h =
    elim (Bool-cases (text_eq representation sha256_prefixed)) [
      | inl prefixed ↦
          let e = text_eq_sound representation sha256_prefixed prefixed in
          let same : digest_text (sha256_colon ++ hex) ≡ digest = cc (rw prefixed at h) in
          subst
            (λ d.
              (has_representation representation d ≡ true)
              × (carried_bare representation d ≡ ok (some hex)))
            same (rw (e, good) (refl, refl))
      | inr plain ↦
          let bare : text_eq representation bare_hex ≡ true = ground arith in
          let same : digest_text hex ≡ digest = cc (rw (plain, textual) at h) in
          subst
            (λ d.
              (has_representation representation d ≡ true)
              × (carried_bare representation d ≡ ok (some hex)))
            same (rw (bare, plain, textual) (good, refl))
    ]

module _ (platform : Platform) (vintage : Vintage) (raw : Value)
    (made pinned : ArtifactTypeDefinition) (purpose : Option Text) (r : TypedRef)
    (sha : IsSha256 platform)
    (known : All (λ c. is_known_representation c.representation ≡ true) made.contexts)
    (same_contexts : pinned.contexts ≡ made.contexts)
    (intact : require_integrity platform true pinned ≡ ok tt) where
  verified_again :
      make_typed_ref_json platform raw made purpose ≡ ok r
      → (digest : Text) × VerifiedReference platform vintage (ref r) raw pinned digest
  unfolding make_typed_ref_json require_json_representation digest_json_for_context carried_type
      carried_purpose as_typed_ref
  verified_again h =
      let (_, _, h1) = >>=-eq-ok (require_integrity platform false made) _ h in
      let (entry, selected, h2) = >>=-eq-ok (select_context made.name purpose made.contexts) _ h1 in
      let (_, textual, h3) = >>=-eq-ok (require_json_representation entry) _ h2 in
      let (_, runs, h4) = >>=-eq-ok (require_executable_context entry) _ h3 in
      let (hex, digested, h5) = >>=-eq-ok (digest_json_for_context platform raw entry) _ h4 in
      let (_, _, evaluated) = >>=-eq-ok (require_executable_context entry) _ digested in
      elim (Bool-cases (text_eq entry.algorithm jcs_n_name)) [
        | inl old ↦ cc (rw old at h5)
        | inr live ↦
            let (digest, drawn, last) =
              >>=-eq-ok (render_digest hex entry.representation) _ (rw live at h5) in
            let not_raw = raise_if-eq-ok _ _ textual in
            let again = select_context_again made.name purpose made.contexts entry selected in
            let s =
              (select_context_iff made.name (some entry.purpose) made.contexts entry).0 again in
            let kept =
              subst
                (All
                  (λ (c : ArtifactDigestContext). is_known_representation c.representation ≡ true))
                s.sole (All-keep _ _ _ (All-keep _ _ made.contexts known)) in
            let good =
              canonical_digest_json-is_bare_hex_256 platform entry.algorithm (exclusions entry) raw
                hex sha evaluated in
            let (has, carried) =
              rendered hex entry.representation digest good kept.0 not_raw drawn in
            let made_ref : TypedRef = record {
              type = entry.name;
              digest_alg = sha_256;
              digest = digest;
              purpose = some entry.purpose;
            } in
            let same : made_ref ≡ r = cc last in
            (
              hex,
              subst (λ q. VerifiedReference platform vintage (ref q) raw pinned hex) same
                  (record {
                    entry = entry;
                    r = made_ref;
                    intact = intact;
                    selected =
                        subst (λ t. Selected t (some entry.purpose) pinned.contexts entry)
                          (sym s.same_type)
                          (subst (λ cs. Selected made.name (some entry.purpose) cs entry)
                            (sym same_contexts) s);
                    textual = not_raw;
                    prepared = record {
                      is_ref = refl;
                      same_type = refl;
                      same_purpose = inr refl;
                      executable = (require_executable_context_iff entry).0 runs;
                      hash_alg = refl;
                      represented = has_representation-Represented entry.representation digest has;
                    };
                    recomputed = evaluated;
                    carried = carried;
                    vouched = λ e. cc (live, text_eq_complete entry.algorithm jcs_n_name e);
                  }),
            )
      ]

-- A reference constructed from raw JSON verifies against the same raw JSON and any intact pinned
-- definition with the same contexts, when every context has one of the three representations and
-- SHA-256 returns 32 octets.
pub verify-make_typed_ref_json :
    (platform : Platform) (vintage : Vintage) (raw : Value) (made pinned : ArtifactTypeDefinition)
    (purpose : Option Text) (r : TypedRef)
    → IsSha256 platform
    → All (λ c. is_known_representation c.representation ≡ true) made.contexts
    → pinned.contexts ≡ made.contexts
    → require_integrity platform true pinned ≡ ok tt
    → make_typed_ref_json platform raw made purpose ≡ ok r
    → (digest : Text) × (verify_typed_ref_json platform vintage (ref r) raw pinned ≡ ok digest)
verify-make_typed_ref_json platform vintage raw made pinned purpose r sha known same intact h =
    let (digest, v) =
      verified_again platform vintage raw made pinned purpose r sha known same intact h in
    (digest, (verify_typed_ref_json_iff platform vintage (ref r) raw pinned digest).1 v)
