-- ===== src/TypedRef/Definition/Intact.antt =====
-- When a definition is intact, and what the constructions return.
use scitt_payload_binding.Common.{
  not-false, ◌≡◌, ◌≢◌, refl, sym, subst, ◌↔◌, ◌++◌, [], ◌∷◌, Bool, true, false, ◌&&◌, not, Text,
  List, Option, none, some, All, all, all-All, All-all, All-map, is_empty, text_eq, text_eq_sound,
  text_eq_complete, text_eq_refl, codes,
}
use scitt_payload_binding.Errors.{ok, raise_if, >>=-eq-ok, raise_if-eq-ok}
use scitt_payload_binding.Platform.{Platform}
use scitt_payload_binding.TypedRef.Hex.{is_bare_hex_256}
use scitt_payload_binding.TypedRef.Hex.Plain.{IsHex256, is_bare_hex_256_iff}
use scitt_payload_binding.TypedRef.Context.{ArtifactDigestContext, context_set_sha256}
use scitt_payload_binding.TypedRef.Definition.{
  ArtifactTypeDefinition, require_integrity, prepare_contexts, build, from_contexts, check_anchor,
  from_trusted_snapshot, context_set_prefix, snapshot_prefix, is_none,
}
use scitt_payload_binding.TypedRef.Definition.Anchor.{AnchorHolds, check_anchor_iff}

-- A named type with contexts, all of that type, whose digest is the one recorded; an anchor of one of
-- the two forms, if there is one.
pub record IsIntact (platform : Platform) (d : ArtifactTypeDefinition) : Type 0 where
  pub named : d.name ≢ []
  pub has_contexts : d.contexts ≢ []
  pub one_type : All (λ entry. entry.name ≡ d.name) d.contexts
  pub is_hex : IsHex256 d.context_set_sha256
  pub bound : context_set_sha256 platform d.name d.contexts ≡ d.context_set_sha256
  pub anchor : (a : Text) → d.verification_anchor ≡ some a → AnchorHolds d.context_set_sha256 a

is_empty-cons {ℓ} : {A : Type ℓ} (xs : List A) → is_empty xs ≡ false → xs ≢ []
is_empty-cons [] h e = cc h
is_empty-cons (x ∷ xs) h e = cc e

cons-is_empty {ℓ} : {A : Type ℓ} (xs : List A) → xs ≢ [] → is_empty xs ≡ false
cons-is_empty [] h = absurd (h refl)
cons-is_empty (x ∷ xs) h = refl

named-All :
    (t : Text) (cs : List ArtifactDigestContext)
    → all (λ entry. text_eq entry.name t) cs ≡ true
    → All (λ entry. entry.name ≡ t) cs
named-All t cs h = All-map _ _ cs (λ c e. text_eq_sound c.name t e) (all-All _ cs h)

All-named :
    (t : Text) (cs : List ArtifactDigestContext)
    → All (λ entry. entry.name ≡ t) cs
    → all (λ entry. text_eq entry.name t) cs ≡ true
All-named t cs h = All-all _ cs (All-map _ _ cs (λ c e. text_eq_complete c.name t e) h)

check_anchor-holds :
    (digest : Text) (o : Option Text)
    → IsHex256 digest
    → check_anchor digest o ≡ ok tt
    → (a : Text) → o ≡ some a
    → AnchorHolds digest a
check_anchor-holds digest o hex h a e = (check_anchor_iff digest a hex).0 (rw e at h)

holds-check_anchor :
    (digest : Text) (o : Option Text)
    → IsHex256 digest
    → ((a : Text) → o ≡ some a → AnchorHolds digest a)
    → check_anchor digest o ≡ ok tt
unfolding check_anchor
holds-check_anchor digest none hex h = refl
holds-check_anchor digest (some a) hex h = (check_anchor_iff digest a hex).1 (h a refl)

required-some : (b : Bool) (o : Option Text) → (b && is_none o) ≡ false → b ≡ true → o ≢ none
required-some b o h e n = cc (rw (e, n) at h)

some-required : (b : Bool) (o : Option Text) → (b ≡ true → o ≢ none) → (b && is_none o) ≡ false
some-required true none h = absurd (h refl refl)
some-required true (some a) h = refl
some-required false o h = refl

-- The integrity check passes exactly when the definition is named and has contexts, all of its type,
-- its digest is 64 hexadecimal characters and the digest of those contexts, an anchor names that
-- digest or some registry snapshot, and there is an anchor if one is required.
pub require_integrity_iff :
    (platform : Platform) (required : Bool) (d : ArtifactTypeDefinition)
    → (require_integrity platform required d ≡ ok tt)
      ↔ (IsIntact platform d × (required ≡ true → d.verification_anchor ≢ none))
unfolding require_integrity
require_integrity_iff platform required d = (forward, backward)
  where
    forward :
        require_integrity platform required d ≡ ok tt
        → IsIntact platform d × (required ≡ true → d.verification_anchor ≢ none)
    forward h =
        let (_, named, h1) = >>=-eq-ok (raise_if (is_empty d.name) _) _ h in
        let (_, filled, h2) = >>=-eq-ok (raise_if (is_empty d.contexts) _) _ h1 in
        let (_, one_type, h3) =
          >>=-eq-ok (raise_if (not (all (λ entry. text_eq entry.name d.name) d.contexts)) _) _ h2 in
        let (_, is_hex, h4) =
          >>=-eq-ok (raise_if (not (is_bare_hex_256 d.context_set_sha256)) _) _ h3 in
        let (_, bound, h5) =
          >>=-eq-ok
            (raise_if
              (not (text_eq (context_set_sha256 platform d.name d.contexts) d.context_set_sha256))
              _)
            _ h4 in
        let (_, anchor, last) =
          >>=-eq-ok (check_anchor d.context_set_sha256 d.verification_anchor) _ h5 in
        let hex =
          (is_bare_hex_256_iff d.context_set_sha256).0 (not-false _ (raise_if-eq-ok _ _ is_hex)) in
        (
          record {
            named = is_empty-cons d.name (raise_if-eq-ok _ _ named);
            has_contexts = is_empty-cons d.contexts (raise_if-eq-ok _ _ filled);
            one_type = named-All d.name d.contexts (not-false _ (raise_if-eq-ok _ _ one_type));
            is_hex = hex;
            bound = text_eq_sound _ _ (not-false _ (raise_if-eq-ok _ _ bound));
            anchor = check_anchor-holds d.context_set_sha256 d.verification_anchor hex anchor;
          },
          required-some required d.verification_anchor (raise_if-eq-ok _ _ last),
        )

    backward :
        IsIntact platform d × (required ≡ true → d.verification_anchor ≢ none)
        → require_integrity platform required d ≡ ok tt
    backward (i, anchored) = rw (
      cons-is_empty d.name i.named,
      cons-is_empty d.contexts i.has_contexts,
      All-named d.name d.contexts i.one_type,
      (is_bare_hex_256_iff d.context_set_sha256).1 i.is_hex,
      i.bound,
      text_eq_refl d.context_set_sha256,
      holds-check_anchor d.context_set_sha256 d.verification_anchor i.is_hex i.anchor,
      some-required required d.verification_anchor anchored,
    )

-- An intact definition of the given contexts, with its digest and its anchor.
pub record Bound (platform : Platform) (contexts : List ArtifactDigestContext)
    (digest anchor : Text) (d : ArtifactTypeDefinition) : Type 0 where
  pub intact : IsIntact platform d
  pub same_contexts : d.contexts ≡ contexts
  pub same_digest : d.context_set_sha256 ≡ digest
  pub anchored : d.verification_anchor ≡ some anchor

pub build-eq-ok :
    (platform : Platform) (name : Text) (contexts : List ArtifactDigestContext)
    (digest anchor : Text) (d : ArtifactTypeDefinition)
    → build platform name contexts digest (some anchor) ≡ ok d
    → Bound platform contexts digest anchor d
unfolding build
build-eq-ok platform name contexts digest anchor d h =
    let built : ArtifactTypeDefinition = record {
      name = name;
      contexts = contexts;
      context_set_sha256 = digest;
      verification_anchor = some anchor;
    } in
    let (_, passed, last) = >>=-eq-ok (require_integrity platform false built) (λ _. ok built) h in
    let same : built ≡ d = cc last in
    subst (Bound platform contexts digest anchor) same (record {
      intact = ((require_integrity_iff platform false built).0 passed).0;
      same_contexts = refl;
      same_digest = refl;
      anchored = refl;
    })

Bound-build :
    (platform : Platform) (contexts : List ArtifactDigestContext) (digest anchor : Text)
    (d : ArtifactTypeDefinition)
    → Bound platform contexts digest anchor d
    → build platform d.name contexts digest (some anchor) ≡ ok d
unfolding build
Bound-build platform contexts digest anchor d b =
    let made : ◌≡◌ {A = ArtifactTypeDefinition}
        (record {
          name = d.name;
          contexts = contexts;
          context_set_sha256 = digest;
          verification_anchor = some anchor;
        })
        d =
      rw (sym b.same_contexts, sym b.same_digest, sym b.anchored) refl in
    let passed = (require_integrity_iff platform false d).1 (b.intact, λ e. cc e) in
    rw (made, passed)

prepare_contexts-one_type :
    (name : Text) (cs : List ArtifactDigestContext)
    → cs ≢ []
    → All (λ entry. entry.name ≡ name) cs
    → prepare_contexts cs ≡ ok name
unfolding prepare_contexts
prepare_contexts-one_type name [] filled h = absurd (filled refl)
prepare_contexts-one_type name (c ∷ cs) filled h = rw (h.0, All-named name cs h.1)

-- Complete contexts and an expected digest give a definition exactly when it is intact, has those
-- contexts and that digest, and is anchored to the digest.
pub from_contexts_iff :
    (platform : Platform) (contexts : List ArtifactDigestContext) (expected : Text)
    (d : ArtifactTypeDefinition)
    → (from_contexts platform contexts expected ≡ ok d)
      ↔ Bound platform contexts expected (codes "context-set-sha256" ++ (b':' ∷ expected)) d
unfolding from_contexts
from_contexts_iff platform contexts expected d = (forward, backward)
  where
    forward :
        from_contexts platform contexts expected ≡ ok d
        → Bound platform contexts expected (context_set_prefix ++ (b':' ∷ expected)) d
    forward h =
        let (name, _, h1) = >>=-eq-ok (prepare_contexts contexts) _ h in
        build-eq-ok platform name contexts expected (context_set_prefix ++ (b':' ∷ expected)) d h1

    backward :
        Bound platform contexts expected (context_set_prefix ++ (b':' ∷ expected)) d
        → from_contexts platform contexts expected ≡ ok d
    backward b =
        let prepared : prepare_contexts contexts ≡ ok d.name =
          subst (λ cs. prepare_contexts cs ≡ ok d.name) b.same_contexts
            (prepare_contexts-one_type d.name d.contexts b.intact.has_contexts b.intact.one_type) in
        rw (prepared, Bound-build platform contexts expected _ d b)

pub from_trusted_snapshot-eq-ok :
    (platform : Platform) (contexts : List ArtifactDigestContext) (snapshot : Text)
    (d : ArtifactTypeDefinition)
    → from_trusted_snapshot platform contexts snapshot ≡ ok d
    → (digest : Text) × Bound platform contexts digest (snapshot_prefix ++ (b':' ∷ snapshot)) d
unfolding from_trusted_snapshot
from_trusted_snapshot-eq-ok platform contexts snapshot d h =
    let (name, _, h1) = >>=-eq-ok (prepare_contexts contexts) _ h in
    (
      context_set_sha256 platform name contexts,
      build-eq-ok platform name contexts (context_set_sha256 platform name contexts)
          (snapshot_prefix ++ (b':' ∷ snapshot)) d h1,
    )
