-- ===== src/Vectors/Carrier/Fixture.antt =====
-- An accepted Category M fixture, in the library's own reading of its bytes.
use scitt_payload_binding.Common.{
  not-false, ℕ, ◌+◌, ◌*◌, ◌≡◌, refl, sym, ap, ◌∙◌, subst, true, false, not, Bytes, List, [], ◌∷◌,
  Option, none, some, ltb, ◌==◌, length, codes, all, text_eq, text_eq_sound, Bool-cases, inl, inr,
}
use scitt_payload_binding.Value.{Value, str, obj, Fields, get}
use scitt_payload_binding.Errors.{
  Result, ok, err, ◌>>=◌, raise_if, value_error, >>=-eq-ok, raise_if-eq-ok,
}
use scitt_payload_binding.Python.{Host}
use scitt_payload_binding.TypedRef.Hex.{hex_digit_value, from_hex}
use scitt_payload_binding.TypedRef.Reference.{TypedRef}
use scitt_payload_binding.Cbor.Item.{
  Scalar, null, octets, Cbor, scalar, array, map, tag, Elements, no_elements, element, Pairs,
  contains, keys,
}
use scitt_payload_binding.Cbor.Item as Item
use scitt_payload_binding.Cbor.Decode.{decode_exact}
use scitt_payload_binding.Cose.Headers.{is_label}
use scitt_payload_binding.Cose.Sign1.{
  CoseSign1, Parts, parts_of, sign1_parts, payload_of, octets_of, map_of, decode_protected,
  decode_cose_sign1,
}
use scitt_payload_binding.Cose.Refs.{Carriage, carrier_refs, extract_refs}
use scitt_payload_binding.Vectors.Cbor.{decode_strict_cbor}
use scitt_payload_binding.Vectors.Cbor.Refines.{decode_strict_cbor-decode_exact}
use scitt_payload_binding.Vectors.Carrier.{
  is_hex_pairs, strict_hex_bytes, Sign1Array, is_payload, is_octets, sign1_array, tagged_sign1,
  cose_sign1_parts, header_label, entry_index, select_ref, carried_refs, header_map,
  require_canonical, fixture_header, stated_as, fixture_envelope, FixtureCarrier, carrier_of,
  decode_carrier,
}
use scitt_payload_binding.Vectors.Carrier.Extracted.{DescribeAll, carried_refs-carrier_refs}

-- The library finds the same parts in the array.
abbrev SameParts : Result Parts → Sign1Array → Type 0
SameParts r a =
    (p : Parts) × (r ≡ ok p)
    × (p.protected_bytes ≡ a.protected_bytes)
    × (p.unprotected ≡ a.unprotected)

last_parts :
    (p : Bytes) (u : Pairs) (payload signature : Cbor) (a : Sign1Array)
    → is_payload payload ≡ true
    → is_octets signature ≡ true
    → a.protected_bytes ≡ p
    → a.unprotected ≡ u
    → SameParts
        (parts_of (
          element
            (scalar (octets p))
            (element (map u) (element payload (element signature no_elements)))))
        a
unfolding is_payload is_octets parts_of payload_of octets_of map_of
last_parts p u (scalar null) (scalar (octets s)) a h k e f = (
  record { protected_bytes = p; unprotected = u; payload = none; signature = s },
  refl,
  sym e,
  sym f,
)
last_parts p u (scalar (octets b)) (scalar (octets s)) a h k e f = (
  record { protected_bytes = p; unprotected = u; payload = some b; signature = s },
  refl,
  sym e,
  sym f,
)
last_parts p u _ _ a h k e f = cc

sign1_array-parts_of :
    (xs : Elements) (a : Sign1Array) → sign1_array xs ≡ ok a → SameParts (parts_of xs) a
unfolding sign1_array
sign1_array-parts_of
      (element
        (scalar (octets p))
        (element (map u) (element payload (element signature no_elements))))
      a h =
    let (_, one, h1) = >>=-eq-ok (raise_if (not (is_payload payload)) _) _ h in
    let (_, two, last) = >>=-eq-ok (raise_if (not (is_octets signature)) _) _ h1 in
    last_parts p u payload signature a (not-false _ (raise_if-eq-ok _ _ one))
      (not-false _ (raise_if-eq-ok _ _ two)) (cc last) (cc last)
sign1_array-parts_of _ a h = cc

tagged_sign1-sign1_parts :
    (c : Cbor) (a : Sign1Array) → tagged_sign1 c ≡ ok a → SameParts (sign1_parts c) a
unfolding tagged_sign1 sign1_parts
tagged_sign1-sign1_parts (tag n (array xs)) a h = elim (Bool-cases (n == 18)) [
  | inl e ↦ rw e (sign1_array-parts_of xs a (rw e at h))
  | inr e ↦ cc (rw e at h)
]
tagged_sign1-sign1_parts _ a h = cc

-- the result of the library's decoder
abbrev cose_of : Parts → Pairs → CoseSign1
cose_of p header = record {
  protected_bytes = p.protected_bytes;
  protected = header;
  unprotected = p.unprotected;
  payload = p.payload;
  signature = p.signature;
}

decode_cose_sign1-parts :
    (host : Host) (encoded : Bytes) (outer : Cbor) (p : Parts) (header : Pairs)
    → ltb (0x100000) (length encoded) ≡ false
    → decode_exact host true encoded ≡ ok outer
    → sign1_parts outer ≡ ok p
    → decode_protected host true p.protected_bytes ≡ ok header
    → decode_cose_sign1 host true encoded ≡ ok (cose_of p header)
unfolding decode_cose_sign1
decode_cose_sign1-parts host encoded outer p header small read parts protected =
    rw (small, read, parts, protected)

decode_strict_cbor-small :
    (host : Host) (encoded : Bytes) (c : Cbor)
    → decode_strict_cbor host encoded ≡ ok c
    → ltb (0x100000) (length encoded) ≡ false
unfolding decode_strict_cbor
decode_strict_cbor-small host encoded c h =
    let (_, small, _) = >>=-eq-ok (raise_if (ltb (0x100000) (length encoded)) _) _ h in
    raise_if-eq-ok _ _ small

-- A hexadecimal member gives at least one byte.
strict_hex_bytes-nonempty :
    (o : Option Value) (b : Bytes)
    → strict_hex_bytes false o ≡ ok b
    → (x : ℕ) × (bs : Bytes) × (b ≡ x ∷ bs)
unfolding strict_hex_bytes is_hex_pairs from_hex
strict_hex_bytes-nonempty (some (str [])) b h = cc
strict_hex_bytes-nonempty (some (str (c ∷ []))) b h = cc
strict_hex_bytes-nonempty (some (str (c ∷ d ∷ s))) b h =
    let (_, _, last) = >>=-eq-ok (raise_if (not (is_hex_pairs (c ∷ d ∷ s))) _) _ h in
    let shape : from_hex (c ∷ d ∷ s) ≡ b = cc last in
    (16 * hex_digit_value c + hex_digit_value d, from_hex s, sym shape)
strict_hex_bytes-nonempty _ b h = cc

header_map-eq-ok : (c : Cbor) (header : Pairs) → header_map c ≡ ok header → c ≡ map header
unfolding header_map
header_map-eq-ok (map ps) header h = cc
header_map-eq-ok _ header h = cc

fixture_header-decode_protected :
    (host : Host) (x : ℕ) (bs : Bytes) (header : Pairs)
    → fixture_header host (x ∷ bs) ≡ ok header
    → decode_protected host true (x ∷ bs) ≡ ok header
unfolding fixture_header decode_protected map_of
fixture_header-decode_protected host x bs header h =
    let (c, read, h1) = >>=-eq-ok (decode_strict_cbor host (x ∷ bs)) _ h in
    let (ps, mapped, h2) = >>=-eq-ok (header_map c) _ h1 in
    let (_, _, h3) = >>=-eq-ok (raise_if (not (all is_label (keys ps))) _) _ h2 in
    let (_, _, last) = >>=-eq-ok (require_canonical host (map ps) (x ∷ bs)) _ h3 in
    let same : ps ≡ header = cc last in
    let is_map : c ≡ map header = header_map-eq-ok c ps mapped ∙ ap map same in
    let exact : decode_exact host true (x ∷ bs) ≡ ok (map header) =
      decode_strict_cbor-decode_exact host (x ∷ bs) c read ∙ ap ok is_map in
    rw exact

-- The library's reading of the enveloping COSE_Sign1.
record Envelope (host : Host) (key : Scalar) (protected_bytes cose_bytes : Bytes) : Type 0 where
  outer : Cbor
  parts : Parts
  small : ltb 0x100000 (length cose_bytes) ≡ false
  read : decode_exact host true cose_bytes ≡ ok outer
  split : sign1_parts outer ≡ ok parts
  carried : parts.protected_bytes ≡ protected_bytes
  not_unprotected : contains host key parts.unprotected ≡ false

fixture_envelope-eq-ok :
    (host : Host) (v : Fields) (key : Scalar) (protected_bytes cose_bytes : Bytes)
    → fixture_envelope host v key protected_bytes ≡ ok cose_bytes
    → Envelope host key protected_bytes cose_bytes
unfolding fixture_envelope cose_sign1_parts
fixture_envelope-eq-ok host v key protected_bytes cose_bytes h =
    let (b, _, h1) =
      >>=-eq-ok (strict_hex_bytes false (get (codes "cose_sign1_bytes_hex") v)) _ h in
    let (a, parsed, h2) = >>=-eq-ok (decode_strict_cbor host b >>= tagged_sign1) _ h1 in
    let (outer, read, tagged) = >>=-eq-ok (decode_strict_cbor host b) _ parsed in
    let (_, _, h3) = >>=-eq-ok (require_canonical host (tag 18 (array a.decoded)) b) _ h2 in
    let (_, same, h4) =
      >>=-eq-ok (raise_if (not (text_eq a.protected_bytes protected_bytes)) _) _ h3 in
    let (_, _, h5) = >>=-eq-ok (raise_if (not (all is_label (keys a.unprotected))) _) _ h4 in
    let (_, absent, last) = >>=-eq-ok (raise_if (contains host key a.unprotected) _) _ h5 in
    let (p, split, e, f) = tagged_sign1-sign1_parts outer a tagged in
    let bytes_same : b ≡ cose_bytes = cc last in
    subst (Envelope host key protected_bytes) bytes_same (record {
      outer = outer;
      parts = p;
      small = decode_strict_cbor-small host b outer read;
      read = decode_strict_cbor-decode_exact host b outer read;
      split = split;
      carried =
          e
          ∙ text_eq_sound a.protected_bytes protected_bytes (not-false _ (raise_if-eq-ok _ _ same));
      not_unprotected = ap (contains host key) f ∙ raise_if-eq-ok _ _ absent;
    })

-- extraction with a carrier header that must be there
abbrev pub required_carriage : Carriage
required_carriage = record { required = true; require_critical = false }

-- The library reads the fixture's bytes as a COSE_Sign1 with this protected map, and extracts the
-- references that the accepted maps describe.
abbrev pub Read : Host → FixtureCarrier → Type 0
Read host c =
    (cose : CoseSign1) × ((refs : List TypedRef) × ((decode_cose_sign1 host true c.cose_bytes
          ≡ ok cose)
        × ((cose.protected_bytes ≡ c.protected_bytes)
            × ((cose.protected ≡ c.header)
                × ((extract_refs host cose c.key required_carriage [] ≡ ok refs)
                    × DescribeAll host c.refs refs)))))

contains-some :
    (host : Host) (k : Scalar) (ps : Pairs) (pss : List Pairs)
    → carried_refs host (Item.get host k ps) ≡ ok pss
    → contains host k ps ≡ true
unfolding contains Item.get carried_refs
contains-some host k Item.no_pairs pss h = cc
contains-some host k (Item.pair j v ps) pss h = elim (Bool-cases (Item.same_key host j k)) [
  | inl e ↦ rw (contains, e)
  | inr e ↦ rw (contains, e) (contains-some host k ps pss (rw (Item.get, e) at h))
]

extract_refs-carrier_refs :
    (host : Host) (cose : CoseSign1) (key : Scalar) (refs : List TypedRef)
    → contains host key cose.unprotected ≡ false
    → contains host key cose.protected ≡ true
    → carrier_refs host (Item.get host key cose.protected) ≡ ok refs
    → extract_refs host cose key required_carriage [] ≡ ok refs
unfolding extract_refs
extract_refs-carrier_refs host cose key refs absent present read = rw (absent, present, read)

ok-injective : (c d : FixtureCarrier) → ok c ≡ ok d → c ≡ d
ok-injective c d h = cc

carrier_of-Read :
    (host : Host) (v carrier : Fields) (c : FixtureCarrier)
    → carrier_of host v carrier ≡ ok c
    → Read host c
unfolding carrier_of
carrier_of-Read host v carrier c h =
    let (pb, hexed, h1) =
      >>=-eq-ok (strict_hex_bytes false (get (codes "bytes_hex") carrier)) _ h in
    let (header, read, h2) = >>=-eq-ok (fixture_header host pb) _ h1 in
    let (key, _, h3) = >>=-eq-ok (header_label (get (codes "cpb_refs_label") carrier)) _ h2 in
    let (pss, carried, h4) = >>=-eq-ok (carried_refs host (Item.get host key header)) _ h3 in
    let (index, _, h5) = >>=-eq-ok (entry_index (get (codes "entry_index") carrier)) _ h4 in
    let (ps, _, h6) = >>=-eq-ok (select_ref index pss) _ h5 in
    let (_, _, h7) =
      >>=-eq-ok (raise_if (not (stated_as (codes "envelope-header") (get (codes "carriage") v))) _)
        _ h6 in
    let (_, _, h8) =
      >>=-eq-ok (raise_if (not (stated_as (codes "cpb-refs") (get (codes "header_parameter") v))) _)
        _ h7 in
    let (cb, enveloped, last) = >>=-eq-ok (fixture_envelope host v key pb) _ h8 in
    let env = fixture_envelope-eq-ok host v key pb cb enveloped in
    let (x, bs, nonempty) = strict_hex_bytes-nonempty _ pb hexed in
    let protected : decode_protected host true pb ≡ ok header =
      subst (λ b. decode_protected host true b ≡ ok header) (sym nonempty)
        (fixture_header-decode_protected host x bs header
          (subst (λ b. fixture_header host b ≡ ok header) nonempty read)) in
    let (refs, extracted, described) = carried_refs-carrier_refs host _ pss carried in
    let made : FixtureCarrier = record {
      header = header;
      key = key;
      refs = pss;
      index = index;
      ref_map = ps;
      protected_bytes = pb;
      cose_bytes = cb;
    } in
    let same : made ≡ c = ok-injective made c last in
    let cose = cose_of env.parts header in
    subst (Read host) same (
      cose,
      (
        refs,
        (
          decode_cose_sign1-parts host cb env.outer env.parts header env.small env.read env.split
              (subst (λ b. decode_protected host true b ≡ ok header) (sym env.carried) protected),
          (
            env.carried,
            (
              refl,
              (
                extract_refs-carrier_refs host cose key refs env.not_unprotected
                    (contains-some host key header pss carried) extracted,
                described,
              ),
            ),
          ),
        ),
      ),
    )

-- Whatever Category M fixture the vector checks decode, the library decodes its bytes to the same
-- protected map, and extracts from them the references that the checked maps describe, each one and
-- in their order.
pub decode_carrier-Read :
    (host : Host) (v : Fields) (c : FixtureCarrier) → decode_carrier host v ≡ ok c → Read host c
unfolding decode_carrier
decode_carrier-Read host v c h = at_header (get (codes "protected_header") v) h
  where
    at_header :
        (o : Option Value)
        → (elim o as (λ x. Result FixtureCarrier) [
          | some (obj carrier) ↦ carrier_of host v carrier
          | _ ↦ err value_error
        ])
          ≡ ok c
        → Read host c
    at_header (some (obj carrier)) e = carrier_of-Read host v carrier c e
    at_header _ e = cc
