-- ===== src/Cose/Sign1.antt =====
-- `CoseSign1`, `decode_cose_sign1` and `cose_signature1_structure` of lib/cpb/cose_refs.py.
use scitt_payload_binding.Common.{
  ℕ, ◌^◌, Bool, Bytes, [], ◌∷◌, Option, none, some, ltb, ◌==◌, if◌then◌else◌, length, codes,
}
use scitt_payload_binding.Errors.{
  Result, ok, err, ◌>>=◌, ◌>>◌, raise_if, malformed_cbor, cpb_refs_error,
}
use scitt_payload_binding.Python.{Host}
use scitt_payload_binding.Cbor.Item.{
  null, octets, text, Cbor, scalar, array, map, tag, Elements, no_elements, element, Pairs,
  no_pairs,
}
use scitt_payload_binding.Cbor.Decode.{decode_exact}
use scitt_payload_binding.Cbor.Encode.{encode}

pub record CoseSign1 : Type 0 where
  pub protected_bytes : Bytes
  pub protected : Pairs
  pub unprotected : Pairs
  pub payload : Option Bytes
  pub signature : Bytes

abbrev pub max_cose_bytes : ℕ
max_cose_bytes = 2 ^ 20

-- The four elements of the array, by their types.
pub record Parts : Type 0 where
  pub protected_bytes : Bytes
  pub unprotected : Pairs
  pub payload : Option Bytes
  pub signature : Bytes

unfoldable pub payload_of : Cbor → Result (Option Bytes)
payload_of (scalar null) = ok none
payload_of (scalar (octets b)) = ok (some b)
payload_of _ = err malformed_cbor

unfoldable pub octets_of : Cbor → Result Bytes
octets_of (scalar (octets b)) = ok b
octets_of _ = err malformed_cbor

unfoldable pub map_of : Cbor → Result Pairs
map_of (map ps) = ok ps
map_of _ = err malformed_cbor

unfoldable pub parts_of : Elements → Result Parts
parts_of (element a (element b (element c (element d no_elements)))) =
    octets_of a >>= λ protected_bytes. map_of b >>= λ unprotected. payload_of c >>= λ payload.
    octets_of d >>= λ signature. ok (record {
      protected_bytes = protected_bytes;
      unprotected = unprotected;
      payload = payload;
      signature = signature;
    })
parts_of _ = err malformed_cbor

-- tag 18 over a four-element array
unfoldable pub sign1_parts : Cbor → Result Parts
sign1_parts (tag n (array xs)) = if n == 18 then parts_of xs else err malformed_cbor
sign1_parts _ = err malformed_cbor

-- the protected map; a byte string of no bytes is the empty map
unfoldable pub decode_protected : Host → Bool → Bytes → Result Pairs
decode_protected host deterministic [] = ok no_pairs
decode_protected host deterministic (b ∷ bs) = decode_exact host deterministic (b ∷ bs) >>= map_of

unfoldable pub decode_cose_sign1 : Host → Bool → Bytes → Result CoseSign1
decode_cose_sign1 host deterministic encoded =
    raise_if (ltb max_cose_bytes (length encoded)) malformed_cbor
    >> (decode_exact host deterministic encoded >>= λ outer. sign1_parts outer >>= λ parts.
        decode_protected host deterministic parts.protected_bytes >>= λ protected. ok (record {
          protected_bytes = parts.protected_bytes;
          protected = protected;
          unprotected = parts.unprotected;
          payload = parts.payload;
          signature = parts.signature;
        }))

-- the attached payload, else the detached one
abbrev pub either_payload : Option Bytes → Option Bytes → Option Bytes
either_payload none detached = detached
either_payload (some b) detached = some b

abbrev pub octets_element : Bytes → Elements → Elements
octets_element b xs = element (scalar (octets b)) xs

unfoldable pub cose_signature1_structure : Host → CoseSign1 → Bytes → Option Bytes → Result Bytes
cose_signature1_structure host cose external_aad detached =
    elim (either_payload cose.payload detached) [
      | none ↦ err cpb_refs_error
      | some payload ↦ encode host (
          array (
            element (scalar (text (codes "Signature1"))) (
              octets_element cose.protected_bytes
                (octets_element external_aad (octets_element payload no_elements)))))
    ]
