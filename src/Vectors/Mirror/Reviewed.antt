-- ===== src/Vectors/Mirror/Reviewed.antt =====
-- What an accepted fixture says of the library's reading, its review mirrors included.
use scitt_payload_binding.Common.{
  ◌≡◌, refl, ap, subst, Bool, true, false, ◌&&◌, not, Text, Option, none, some, codes, text_eq,
  text_eq_sound, &&_true, Bool-cases, inl, inr,
}
use scitt_payload_binding.Value.{Value, str, obj, Fields, no_fields, field, get, has_key}
use scitt_payload_binding.Errors.{ok, value_error, >>=-eq-ok, raise_if-eq-ok}
use scitt_payload_binding.Python.{Host}
use scitt_payload_binding.Canonicalize.Digest.{hex}
use scitt_payload_binding.TypedRef.Reference.{Digest, digest_text, digest_octets, TypedRef}
use scitt_payload_binding.Cbor.Item.{Cbor, scalar, text, octets, Pairs, contains}
use scitt_payload_binding.Cbor.Item as Item
use scitt_payload_binding.Cose.Headers.{label}
use scitt_payload_binding.Vectors.Carrier.{FixtureCarrier, decode_carrier}
use scitt_payload_binding.Vectors.Carrier.Extracted.{
  Describes, digest_item, purpose_item, get-contains,
}
use scitt_payload_binding.Vectors.Carrier.Fixture.{Read, decode_carrier-Read}
use scitt_payload_binding.Vectors.Mirror.{
  is_string, check_cbor_mirror, mirrors_text, mirrors_digest, mirrors_purpose, check_typed_mirror,
  decode_cpb_carrier,
}

abbrev pub optional_string : Option Text → Option Value
optional_string none = none
optional_string (some t) = some (str t)

-- the member of a mirror that holds a digest
abbrev pub StatesDigest : Fields → Digest → Type 0
StatesDigest mirror (digest_text t) = get (codes "digest") mirror ≡ some (str t)
StatesDigest mirror (digest_octets b) = get (codes "digest_bytes_hex") mirror ≡ some (str (hex b))

-- A mirror states the members of a reference, and no purpose when the reference has none.
pub record States (mirror : Fields) (r : TypedRef) : Type 0 where
  pub type : get (codes "type") mirror ≡ some (str r.type)
  pub digest_alg : get (codes "digest_alg") mirror ≡ some (str r.digest_alg)
  pub digest : StatesDigest mirror r.digest
  pub purpose : get (codes "purpose") mirror ≡ optional_string r.purpose

is_string-true : (t : Text) (o : Option Value) → is_string t o ≡ true → o ≡ some (str t)
unfolding is_string
is_string-true t (some (str u)) h = ap (λ x. some (str x)) (text_eq_sound u t h)
is_string-true t _ h = cc

get-has_key : (k : Text) (fs : Fields) → has_key k fs ≡ false → get k fs ≡ none
unfolding get has_key
get-has_key k no_fields h = refl
get-has_key k (field j v fs) h = elim (Bool-cases (text_eq k j)) [
  | inl e ↦ cc (rw (has_key, e) at h)
  | inr e ↦ rw (get, e) (get-has_key k fs (rw (has_key, e) at h))
]

digest-States :
    (o : Option Cbor) (d : Digest) (mirror : Fields)
    → o ≡ some (digest_item d)
    → mirrors_digest o mirror ≡ true
    → StatesDigest mirror d
unfolding mirrors_digest mirrors_text
digest-States o (digest_text t) mirror e h = is_string-true t _ (rw (e, mirrors_digest) at h)
digest-States o (digest_octets b) mirror e h =
    is_string-true (hex b) _ (rw (e, mirrors_digest) at h)

text-States :
    (o : Option Cbor) (t : Text) (found : Option Value)
    → o ≡ some (scalar (text t))
    → mirrors_text o found ≡ true
    → found ≡ some (str t)
unfolding mirrors_text
text-States o t found e h = is_string-true t found (rw (e, mirrors_text) at h)

purpose-States :
    (host : Host) (ps : Pairs) (p : Option Text) (mirror : Fields)
    → Item.get host (label 2) ps ≡ purpose_item p
    → mirrors_purpose host ps mirror ≡ true
    → get (codes "purpose") mirror ≡ optional_string p
unfolding mirrors_purpose mirrors_text
purpose-States host ps none mirror e h = elim (Bool-cases (contains host (label 2) ps)) [
  | inl has ↦ cc (rw (mirrors_purpose, has, e) at h)
  | inr lacks ↦ get-has_key (codes "purpose") mirror (not-true _ (rw (mirrors_purpose, lacks) at h))
]
  where
    not-true : (b : Bool) → not b ≡ true → b ≡ false
    not-true true n = cc
    not-true false n = refl
purpose-States host ps (some p) mirror e h = elim (Bool-cases (contains host (label 2) ps)) [
  | inl has ↦ text-States _ p _ e (rw (mirrors_purpose, has) at h)
  | inr lacks ↦ cc (get-contains host (label 2) ps lacks, e)
]

check_typed_mirror-States :
    (host : Host) (ps : Pairs) (mirror : Fields) (r : TypedRef)
    → Describes host ps r
    → check_typed_mirror host ps (some (obj mirror)) ≡ ok tt
    → States mirror r
unfolding check_typed_mirror
check_typed_mirror-States host ps mirror r d h =
    let type_at = mirrors_text (Item.get host (label 1) ps) (get (codes "type") mirror) in
    let alg_at = mirrors_text (Item.get host (label 3) ps) (get (codes "digest_alg") mirror) in
    let digest_at = mirrors_digest (Item.get host (label 4) ps) mirror in
    let purpose_at = mirrors_purpose host ps mirror in
    let agree =
      not-false _
        (raise_if-eq-ok (not (type_at && alg_at && digest_at && purpose_at)) value_error h) in
    let (three, purpose_ok) = &&_true (type_at && alg_at && digest_at) purpose_at agree in
    let (two, digest_ok) = &&_true (type_at && alg_at) digest_at three in
    let (type_ok, alg_ok) = &&_true type_at alg_at two in
    record {
      type = text-States _ r.type _ d.type type_ok;
      digest_alg = text-States _ r.digest_alg _ d.digest_alg alg_ok;
      digest = digest-States _ r.digest mirror d.digest digest_ok;
      purpose = purpose-States host ps r.purpose mirror d.purpose purpose_ok;
    }
  where
    not-false : (b : Bool) → not b ≡ false → b ≡ true
    not-false true n = refl
    not-false false n = cc

-- Whatever Category M fixture the vector checks accept, the library decodes its COSE_Sign1 in
-- deterministic mode to the same protected map, and extracts from it the references that the checked
-- maps describe, each one and in their order. A typed_reference mirror of the fixture states the
-- members of any reference that the selected map describes, and no purpose when that has none.
pub decode_cpb_carrier-Read :
    (host : Host) (v : Fields) (c : FixtureCarrier)
    → decode_cpb_carrier host v ≡ ok c
    → Read host c
      × ((mirror : Fields) (r : TypedRef)
          → get (codes "typed_reference") v ≡ some (obj mirror)
          → Describes host c.ref_map r
          → States mirror r)
unfolding decode_cpb_carrier
decode_cpb_carrier-Read host v c h =
    let (d, decoded, h1) = >>=-eq-ok (decode_carrier host v) _ h in
    let (_, _, h2) =
      >>=-eq-ok (check_cbor_mirror d.ref_map (get (codes "cbor_map_entry") v)) _ h1 in
    let (_, typed, last) =
      >>=-eq-ok (check_typed_mirror host d.ref_map (get (codes "typed_reference") v)) _ h2 in
    let same : d ≡ c = cc last in
    subst
      (λ x.
        Read host x
        × ((mirror : Fields) (r : TypedRef)
            → get (codes "typed_reference") v ≡ some (obj mirror)
            → Describes host x.ref_map r
            → States mirror r))
      same
      (
        decode_carrier-Read host v d decoded,
        λ mirror r e described.
            check_typed_mirror-States host d.ref_map mirror r described (rw e at typed),
      )
