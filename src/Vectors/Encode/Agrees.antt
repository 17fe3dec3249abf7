-- ===== src/Vectors/Encode/Agrees.antt =====
-- The two encoders give the same bytes.
use scitt_payload_binding.Common.{ℕ, ◌≡◌, refl, Bytes, List, [], ◌∷◌, length, arith, true, false}
use scitt_payload_binding.Common.Int.{pos, negsuc}
use scitt_payload_binding.Errors.{Result, ◌>>=◌, raise_if}
use scitt_payload_binding.Errors.Agree.{Agree, Agree-refl, Agree->>=, Agree-raise}
use scitt_payload_binding.Python.{Host}
use scitt_payload_binding.Canonicalize.Serialize.{encode_utf8}
use scitt_payload_binding.Cbor.Item.{
  Scalar, null, bool, int, float, octets, text, simple, Cbor, scalar, array, map, tag, Elements,
  no_elements, element, Pairs, no_pairs, pair, has_same_key, count_elements,
}
use scitt_payload_binding.Cbor.Head.{head}
use scitt_payload_binding.Cbor.Encode.{
  Entry, encode_scalar, encode_entries, encode, encode_elements, encode_pairs,
}
use scitt_payload_binding.Vectors.Encode.{
  cbor_head, strict_scalar_bytes, strict_entries_bytes, encode_strict, encode_strict_items,
  encode_strict_pairs,
}

-- the heads are the same function
cbor_head-eq-head : (major n : ℕ) → cbor_head major n ≡ head major n
unfolding cbor_head head
cbor_head-eq-head major n = ground arith

head-Agree :
    {B : Type 0} (major n : ℕ) (k k' : Bytes → Result B)
    → ((h : Bytes) → Agree (k h) (k' h))
    → Agree (cbor_head major n >>= k) (head major n >>= k')
head-Agree major n k k' hk =
    rw (cbor_head-eq-head major n) (Agree->>= (head major n) (head major n) k k' (Agree-refl _) hk)

scalar-Agree : (s : Scalar) → Agree (strict_scalar_bytes s) (encode_scalar s)
unfolding strict_scalar_bytes encode_scalar
scalar-Agree null = refl
scalar-Agree (bool true) = refl
scalar-Agree (bool false) = refl
scalar-Agree (int (pos n)) = rw (cbor_head-eq-head 0 n) (Agree-refl (head 0 n))
scalar-Agree (int (negsuc n)) = rw (cbor_head-eq-head 1 n) (Agree-refl (head 1 n))
scalar-Agree (octets b) = head-Agree 2 (length b) _ _ λ h. refl
scalar-Agree (text t) =
    Agree->>= (encode_utf8 t) (encode_utf8 t) _ _ (Agree-refl (encode_utf8 t))
      λ encoded. head-Agree 3 (length encoded) _ _ λ h. refl
scalar-Agree (float b) = tt
scalar-Agree (simple n) = tt

entries-Agree : (es : List Entry) → Agree (strict_entries_bytes es) (encode_entries es)
unfolding strict_entries_bytes encode_entries
entries-Agree es = head-Agree 5 (length es) _ _ λ h. refl

mutual
  unfolding encode_strict encode

  value-Agree : (host : Host) (v : Cbor) → Agree (encode_strict host v) (encode host v)
  value-Agree host (scalar s) = scalar-Agree s
  value-Agree host (array xs) = head-Agree 4 (count_elements xs) _ _ λ h.
      Agree->>= (encode_strict_items host xs) (encode_elements host xs) _ _ (items-Agree host xs)
        λ b. refl
  value-Agree host (tag n v) =
      head-Agree 6 n _ _
        λ h. Agree->>= (encode_strict host v) (encode host v) _ _ (value-Agree host v) λ b. refl
  value-Agree host (map ps) =
      Agree->>= (encode_strict_pairs host [] ps) (encode_pairs host [] ps) _ _
        (pairs-Agree host [] ps) entries-Agree

  items-Agree :
      (host : Host) (xs : Elements) → Agree (encode_strict_items host xs) (encode_elements host xs)
  items-Agree host no_elements = refl
  items-Agree host (element v xs) =
      Agree->>= (encode_strict host v) (encode host v) _ _ (value-Agree host v) λ b.
        Agree->>= (encode_strict_items host xs) (encode_elements host xs) _ _ (items-Agree host xs)
          λ rest. refl

  pairs-Agree :
      (host : Host) (seen : List Scalar) (ps : Pairs)
      → Agree (encode_strict_pairs host seen ps) (encode_pairs host seen ps)
  pairs-Agree host seen no_pairs = refl
  pairs-Agree host seen (pair k v ps) =
      Agree->>= (raise_if (has_same_key host k seen) _) (raise_if (has_same_key host k seen) _) _ _
        (Agree-raise (has_same_key host k seen) _ _)
        λ _. Agree->>= (strict_scalar_bytes k) (encode_scalar k) _ _ (scalar-Agree k) λ kb.
          Agree->>= (encode_strict host v) (encode host v) _ _ (value-Agree host v) λ vb.
            Agree->>= (encode_strict_pairs host (k ∷ seen) ps) (encode_pairs host (k ∷ seen) ps) _ _
              (pairs-Agree host (k ∷ seen) ps) λ es. refl

-- The encoder of the vector checks and the library's encoder give the same bytes for a value, or
-- both refuse it.
pub encode_strict-Agree : (host : Host) (v : Cbor) → Agree (encode_strict host v) (encode host v)
encode_strict-Agree host v = value-Agree host v
