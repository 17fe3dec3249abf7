-- ===== src/TypedRef/Verify/Sound.antt =====
-- What a verified typed reference stands for.
use scitt_payload_binding.Common.{
  not-false, ◌≡◌, refl, sym, ap, subst, ◌↔◌, true, false, not, Text, Option, none, some, text_eq,
  text_eq_sound, text_eq_refl,
}
use scitt_payload_binding.Value.{Value}
use scitt_payload_binding.Errors.{ok, raise_if, >>=-eq-ok, raise_if-eq-ok}
use scitt_payload_binding.Platform.{Platform}
use scitt_payload_binding.Canonicalize.Digest.{canonical_digest_json}
use scitt_payload_binding.Vintage.{Vintage}
use scitt_payload_binding.DeriveId.Verified.{HasVintage, require_vintage_for-eq-ok, vintage-require}
use scitt_payload_binding.TypedRef.Context.{ArtifactDigestContext, raw_name}
use scitt_payload_binding.TypedRef.Definition.{ArtifactTypeDefinition, require_integrity}
use scitt_payload_binding.TypedRef.Select.{
  select_context, require_json_representation, require_executable_context,
}
use scitt_payload_binding.TypedRef.Select.Unique.{Selected, select_context_iff}
use scitt_payload_binding.TypedRef.Reference.{
  TypedRef, Reference, carried_type, carried_purpose, prepare_reference, carried_bare, equals_text,
  compare_recomputed,
}
use scitt_payload_binding.TypedRef.Reference.Prepared.{
  IsPrepared, prepare_reference_iff, require_executable_context_iff,
}
use scitt_payload_binding.TypedRef.Verify.{
  exclusions, digest_json_for_context, json, resolve_reference_context, verify_resolved_reference,
  verify_typed_ref_json,
}

equals_text-eq : (o : Option Text) (t : Text) → equals_text o t ≡ true → o ≡ some t
equals_text-eq none t h = cc
equals_text-eq (some s) t h = ap some (sym (text_eq_sound t s h))

-- The comparison returns the recomputed digest exactly when the carried one has it as bare form.
pub compare_recomputed_iff :
    (r : TypedRef) (recomputed d : Text) (entry : ArtifactDigestContext)
    → (compare_recomputed r recomputed entry ≡ ok d)
      ↔ ((carried_bare entry.representation r.digest ≡ ok (some d)) × (d ≡ recomputed))
unfolding compare_recomputed
compare_recomputed_iff r recomputed d entry = (forward, backward)
  where
    forward :
        compare_recomputed r recomputed entry ≡ ok d
        → (carried_bare entry.representation r.digest ≡ ok (some d)) × (d ≡ recomputed)
    forward h =
        let (carried, found, h1) = >>=-eq-ok (carried_bare entry.representation r.digest) _ h in
        let (_, same, last) = >>=-eq-ok (raise_if (not (equals_text carried recomputed)) _) _ h1 in
        let e =
          equals_text-eq carried recomputed
            (not-false (equals_text carried recomputed) (raise_if-eq-ok _ _ same)) in
        (cc (found, e, last), cc last)

    backward :
        (carried_bare entry.representation r.digest ≡ ok (some d)) × (d ≡ recomputed)
        → compare_recomputed r recomputed entry ≡ ok d
    backward (found, e) = rw (found, ← e, text_eq_refl d)

-- The definition is intact and bound to a trusted pin, the reference selects one of its contexts, is
-- prepared for it and carries the digest recomputed from the raw artifact in a textual
-- representation; a withdrawn algorithm has its vintage proved.
pub record VerifiedReference (platform : Platform) (vintage : Vintage) (reference : Reference)
    (raw : Value) (artifact_type : ArtifactTypeDefinition) (digest : Text) : Type 0 where
  pub entry : ArtifactDigestContext
  pub r : TypedRef
  pub intact : require_integrity platform true artifact_type ≡ ok tt
  pub selected :
      Selected (carried_type reference) (carried_purpose reference) artifact_type.contexts entry
  pub textual : text_eq entry.representation raw_name ≡ false
  pub prepared : IsPrepared reference entry r
  pub recomputed : canonical_digest_json platform entry.algorithm (exclusions entry) raw ≡ ok digest
  pub carried : carried_bare entry.representation r.digest ≡ ok (some digest)
  pub vouched : HasVintage entry.algorithm vintage digest

module _ (platform : Platform) (vintage : Vintage) (reference : Reference) (raw : Value)
    (artifact_type : ArtifactTypeDefinition) (digest : Text) where
  sound :
      verify_typed_ref_json platform vintage reference raw artifact_type ≡ ok digest
      → VerifiedReference platform vintage reference raw artifact_type digest
  unfolding verify_typed_ref_json resolve_reference_context verify_resolved_reference
      digest_json_for_context require_json_representation
  sound h =
      let ((r, entry), resolved, h1) =
        >>=-eq-ok (resolve_reference_context platform reference artifact_type json) _ h in
      let (_, intact, r1) = >>=-eq-ok (require_integrity platform true artifact_type) _ resolved in
      let (found, selected, r2) = >>=-eq-ok (select_context _ _ artifact_type.contexts) _ r1 in
      let (_, textual, r3) = >>=-eq-ok (require_json_representation found) _ r2 in
      let (q, prepared, last) = >>=-eq-ok (prepare_reference reference found) _ r3 in
      let same_entry : found ≡ entry = cc last in
      let same_ref : q ≡ r = cc last in
      let (recomputed, digested, v1) =
        >>=-eq-ok (digest_json_for_context platform raw entry) _ h1 in
      let (_, _, evaluated) = >>=-eq-ok (require_executable_context entry) _ digested in
      let (d, compared, v2) = >>=-eq-ok (compare_recomputed r recomputed entry) _ v1 in
      let (carried, same_digest) = (compare_recomputed_iff r recomputed d entry).0 compared in
      let (e, vouched) = require_vintage_for-eq-ok entry.algorithm vintage recomputed digest v2 in
      record {
        entry = entry;
        r = r;
        intact = intact;
        selected =
            subst
              (Selected (carried_type reference) (carried_purpose reference) artifact_type.contexts)
              same_entry ((select_context_iff _ _ artifact_type.contexts found).0 selected);
        textual =
            subst (λ (c : ArtifactDigestContext). text_eq c.representation raw_name ≡ false)
              same_entry (raise_if-eq-ok _ _ textual);
        prepared =
            subst (λ c. IsPrepared reference c r) same_entry
              (subst (IsPrepared reference found) same_ref
                ((prepare_reference_iff reference found q).0 prepared));
        recomputed = cc (evaluated, e);
        carried = cc (carried, same_digest, e);
        vouched = subst (HasVintage entry.algorithm vintage) (sym e) vouched;
      }

  complete :
      VerifiedReference platform vintage reference raw artifact_type digest
      → verify_typed_ref_json platform vintage reference raw artifact_type ≡ ok digest
  unfolding verify_typed_ref_json resolve_reference_context verify_resolved_reference
      digest_json_for_context require_json_representation
  complete v =
      rw
        (
          v.intact,
          (select_context_iff _ _ artifact_type.contexts v.entry).1 v.selected,
          v.textual,
          (prepare_reference_iff reference v.entry v.r).1 v.prepared,
          (require_executable_context_iff v.entry).1 v.prepared.executable,
          v.recomputed,
          (compare_recomputed_iff v.r digest digest v.entry).1 (v.carried, refl),
        )
        (vintage-require v.entry.algorithm vintage digest v.vouched)

-- Verifying a typed reference against raw JSON returns a digest exactly when the artifact-type
-- definition is intact and bound to a trusted pin, the reference selects exactly one of its contexts,
-- agrees with it in type, purpose, hash algorithm and textual representation, the digest recomputed
-- from the raw JSON is the carried one, and, for the withdrawn algorithm, pre-cutoff vintage of that
-- digest is authenticated.
pub verify_typed_ref_json_iff :
    (platform : Platform) (vintage : Vintage) (reference : Reference) (raw : Value)
    (artifact_type : ArtifactTypeDefinition) (digest : Text)
    → (verify_typed_ref_json platform vintage reference raw artifact_type ≡ ok digest)
      ↔ VerifiedReference platform vintage reference raw artifact_type digest
verify_typed_ref_json_iff platform vintage reference raw artifact_type digest = (
  sound platform vintage reference raw artifact_type digest,
  complete platform vintage reference raw artifact_type digest,
)
