-- ===== src/Tests/Carriers.antt =====
-- A Category M fixture, and the result on it.
use scitt_payload_binding.Common.{◌≡◌, refl, Bytes, [], ◌∷◌, ◌++◌, some, codes}
use scitt_payload_binding.Common.Int.{pos}
use scitt_payload_binding.Value.{int, str, obj, Fields, no_fields, field, get}
use scitt_payload_binding.Errors.{ok}
use scitt_payload_binding.Canonicalize.Digest.{hex}
use scitt_payload_binding.TypedRef.Reference.{TypedRef}
use scitt_payload_binding.Cbor.Item.{
  scalar, text, octets, array, map, no_elements, element, Pairs, no_pairs, pair,
}
use scitt_payload_binding.Cose.Headers.{label}
use scitt_payload_binding.Vectors.Carrier.{FixtureCarrier}
use scitt_payload_binding.Vectors.Carrier.Extracted.{Describes}
use scitt_payload_binding.Vectors.Carrier.Fixture.{Read}
use scitt_payload_binding.Vectors.Mirror.{decode_cpb_carrier}
use scitt_payload_binding.Vectors.Mirror.Reviewed.{States, decode_cpb_carrier-Read}
use scitt_payload_binding.Tests.Sample.{sample_host}
use scitt_payload_binding.Runs.{
  lex_runs, digest_runs, reference_runs, cbor_runs, cose_runs, vectors_runs,
}

-- {1: "t", 3: "SHA-256", 4: h'0707'}
abbrev ref_pairs : Pairs
ref_pairs = pair (label 1) (scalar (text (codes "t"))) (
    pair (label 3) (scalar (text (codes "SHA-256")))
      (pair (label 4) (scalar (octets (7 ∷ 7 ∷ []))) no_pairs))

abbrev ref_bytes : Bytes
ref_bytes =
    0xa3 ∷ 0x01 ∷ 0x61 ∷ b't' ∷ 0x03 ∷ 0x67 ∷ (codes "SHA-256" ++ (0x04 ∷ 0x42 ∷ 7 ∷ 7 ∷ []))

-- {"r": [...]}
abbrev header_bytes : Bytes
header_bytes = 0xa1 ∷ 0x61 ∷ b'r' ∷ 0x81 ∷ ref_bytes

-- 18([header_bytes, {}, null, h'00']); the header has 21 bytes
abbrev envelope_bytes : Bytes
envelope_bytes = 0xd2 ∷ 0x84 ∷ 0x55 ∷ (header_bytes ++ (0xa0 ∷ 0xf6 ∷ 0x41 ∷ 0 ∷ []))

abbrev typed_mirror : Fields
typed_mirror = field (codes "type") (str (codes "t")) (
    field (codes "digest_alg") (str (codes "SHA-256"))
      (field (codes "digest_bytes_hex") (str (codes "0707")) no_fields))

abbrev fixture : Fields
fixture =
    field (codes "protected_header")
      (obj (
        field (codes "bytes_hex") (str (hex header_bytes)) (
          field (codes "cpb_refs_label") (str (codes "r"))
            (field (codes "entry_index") (int (pos 0)) no_fields))))
      (field (codes "cose_sign1_bytes_hex") (str (hex envelope_bytes))
        (field (codes "typed_reference") (obj typed_mirror) no_fields))

abbrev carrier : FixtureCarrier
carrier = record {
  header = pair (text (codes "r")) (array (element (map ref_pairs) no_elements)) no_pairs;
  key = text (codes "r");
  refs = ref_pairs ∷ [];
  index = 0;
  ref_map = ref_pairs;
  protected_bytes = header_bytes;
  cose_bytes = envelope_bytes;
}

carrier_run : decode_cpb_carrier sample_host fixture ≡ ok carrier
unfolding lex_runs digest_runs reference_runs cbor_runs cose_runs vectors_runs
carrier_run = refl

decode_cpb_carrier-Read_example :
    Read sample_host carrier
    × ((mirror : Fields) (r : TypedRef)
        → get (codes "typed_reference") fixture ≡ some (obj mirror)
        → Describes sample_host carrier.ref_map r
        → States mirror r)
decode_cpb_carrier-Read_example = decode_cpb_carrier-Read sample_host fixture carrier carrier_run
