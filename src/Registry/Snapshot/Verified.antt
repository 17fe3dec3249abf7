-- ===== src/Registry/Snapshot/Verified.antt =====
-- What a verified registry snapshot satisfies.
use scitt_payload_binding.Common.{
  not-false, ◌≡◌, refl, sym, ap, ◌∙◌, subst, true, false, not, Text, Option, none, some, text_eq,
  codes, text_eq_sound, Bool-cases, inl, inr,
}
use scitt_payload_binding.Registry.Snapshot.Live.{
  TypeEntry, EachValue, check_type_entries-EachValue,
}
use scitt_payload_binding.Value.{Value, str, obj, Fields, get}
use scitt_payload_binding.Errors.{ok, raise_if, >>=-eq-ok, raise_if-eq-ok}
use scitt_payload_binding.Platform.{Platform}
use scitt_payload_binding.TypedRef.Hex.{is_bare_hex_256}
use scitt_payload_binding.Registry.Snapshot.{
  RegistrySnapshot, schema_version_key, algorithms_key, artifact_types_key, snapshot_key,
  is_version_one, object_of, digest_string, check_type_entries, BodyDumps, compute_body_sha256,
  compute_snapshot_sha256, pin_differs, verify_integrity,
}

-- The document has version 1, its two tables are objects, it records its own hash, the entries of its
-- types are well formed, and the trusted hash is the pin that the caller supplied, if any.
pub record Intact (platform : Platform) (dumps : BodyDumps) (pin : Option Text) (content : Fields)
    (snap : RegistrySnapshot) : Type 0 where
  pub types : Fields
  pub algorithms : Fields
  pub version : get schema_version_key content ≡ some (str (codes "1"))
  pub has_algorithms : get algorithms_key content ≡ some (obj algorithms)
  pub has_types : get artifact_types_key content ≡ some (obj types)
  pub recorded :
      get snapshot_key content ≡ some (str (compute_snapshot_sha256 platform dumps content))
  pub entries : EachValue TypeEntry types
  pub same_content : snap.content ≡ content
  pub verified : snap.verified ≡ true
  pub trusted : snap.trusted_snapshot_sha256 ≡ pin

is_version_one-true : (o : Option Value) → is_version_one o ≡ true → o ≡ some (str (codes "1"))
unfolding is_version_one
is_version_one-true (some (str s)) h = ap (λ t. some (str t)) (text_eq_sound s (codes "1") h)
is_version_one-true _ h = cc

object_of-eq-ok : (o : Option Value) (fs : Fields) → object_of o ≡ ok fs → o ≡ some (obj fs)
unfolding object_of
object_of-eq-ok (some (obj gs)) fs h = let same : gs ≡ fs = cc h in ap (λ xs. some (obj xs)) same
object_of-eq-ok _ fs h = cc

digest_string-eq-ok : (o : Option Value) (t : Text) → digest_string o ≡ ok t → o ≡ some (str t)
unfolding digest_string
digest_string-eq-ok (some (str s)) t h = elim (Bool-cases (is_bare_hex_256 s)) [
  | inl good ↦ let same : s ≡ t = cc (rw good at h) in ap (λ u. some (str u)) same
  | inr bad ↦ cc (rw bad at h)
]
digest_string-eq-ok _ t h = cc

-- the hash that is kept as trusted
abbrev kept : Option Text → Text → Option Text
kept pin actual = elim pin [ none ↦ none | some e ↦ some actual ]

kept-pin :
    (pin : Option Text) (actual : Text) → pin_differs pin actual ≡ false → kept pin actual ≡ pin
kept-pin none actual h = refl
kept-pin (some e) actual h = ap some (text_eq_sound actual e (not-false (text_eq actual e) h))

-- A snapshot that passes the integrity check is the document itself; the document has version 1, two
-- tables and its own hash, each of its type entries is an object with a non-empty array of digest
-- contexts, those of a live entry are objects with distinct non-empty purposes, and the hash that later lookups trust is the pin
-- that the caller supplied, and none without a pin.
pub verify_integrity-eq-ok :
    (platform : Platform) (dumps : BodyDumps) (pin : Option Text) (content : Fields)
    (snap : RegistrySnapshot)
    → verify_integrity platform dumps pin content ≡ ok snap
    → Intact platform dumps pin content snap
unfolding verify_integrity compute_snapshot_sha256
verify_integrity-eq-ok platform dumps pin content snap h =
    let (_, version, h1) =
      >>=-eq-ok (raise_if (not (is_version_one (get schema_version_key content))) _) _ h in
    let (algorithms, has_algorithms, h2) =
      >>=-eq-ok (object_of (get algorithms_key content)) _ h1 in
    let (types, has_types, h3) = >>=-eq-ok (object_of (get artifact_types_key content)) _ h2 in
    let (expected, recorded, h4) = >>=-eq-ok (digest_string (get snapshot_key content)) _ h3 in
    let actual = compute_body_sha256 platform dumps content in
    let (_, same, h5) = >>=-eq-ok (raise_if (not (text_eq actual expected)) _) _ h4 in
    let (_, agrees, h6) = >>=-eq-ok (raise_if (pin_differs pin actual) _) _ h5 in
    let (_, entries, last) = >>=-eq-ok (check_type_entries types) _ h6 in
    let built : RegistrySnapshot = record {
      content = content;
      verified = true;
      trusted_snapshot_sha256 = kept pin actual;
    } in
    let made : built ≡ snap = cc last in
    let hash = text_eq_sound actual expected (not-false _ (raise_if-eq-ok _ _ same)) in
    subst (Intact platform dumps pin content) made (record {
      types = types;
      algorithms = algorithms;
      version = is_version_one-true _ (not-false _ (raise_if-eq-ok _ _ version));
      has_algorithms = object_of-eq-ok _ algorithms has_algorithms;
      has_types = object_of-eq-ok _ types has_types;
      recorded = digest_string-eq-ok _ expected recorded ∙ ap (λ t. some (str t)) (sym hash);
      entries = check_type_entries-EachValue types entries;
      same_content = refl;
      verified = refl;
      trusted = kept-pin pin actual (raise_if-eq-ok _ _ agrees);
    })
