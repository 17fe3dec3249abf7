-- ===== src/Cbor/Encode.antt =====
-- `encode_deterministic_cbor` of lib/cpb/cose_refs.py.
use scitt_payload_binding.Common.{
  Bool, true, false, ◌&&◌, ◌||◌, Bytes, List, [], ◌∷◌, ◌++◌, ltb, ◌==◌, length, text_ltb,
}
use scitt_payload_binding.Common.Int.{pos, negsuc}
use scitt_payload_binding.Errors.{
  Result, ok, err, ◌>>=◌, ◌>>◌, raise_if, type_error, duplicate_cbor_key,
}
use scitt_payload_binding.Python.{Host}
use scitt_payload_binding.Canonicalize.Serialize.{encode_utf8}
use scitt_payload_binding.Cbor.Item.{
  Scalar, null, bool, int, float, octets, text, simple, Cbor, scalar, array, map, tag, Elements,
  no_elements, element, Pairs, no_pairs, pair, has_same_key, count_elements,
}
use scitt_payload_binding.Cbor.Head.{head}

unfoldable pub encode_scalar : Scalar → Result Bytes
encode_scalar null = ok (0xf6 ∷ [])
encode_scalar (bool false) = ok (0xf4 ∷ [])
encode_scalar (bool true) = ok (0xf5 ∷ [])
encode_scalar (int (pos n)) = head 0 n
encode_scalar (int (negsuc n)) = head 1 n
encode_scalar (octets b) = head 2 (length b) >>= λ h. ok (h ++ b)
encode_scalar (text t) =
    encode_utf8 t >>= λ encoded. head 3 (length encoded) >>= λ h. ok (h ++ encoded)
encode_scalar (float b) = err type_error
encode_scalar (simple n) = err type_error

-- A map's entry: the encodings of its key and of its value.
abbrev pub Entry : Type 0
Entry = Bytes × Bytes

-- (len(k), k) of the one is less than that of the other
abbrev pub key_ltb : Bytes → Bytes → Bool
key_ltb a b = ltb (length a) (length b) || (length a == length b && text_ltb a b)

unfoldable pub insert_entry : Entry → List Entry → List Entry
insert_entry e [] = e ∷ []
insert_entry (k, v) ((j, w) ∷ es) = elim (key_ltb j k) [
  | true ↦ (j, w) ∷ insert_entry (k, v) es
  | false ↦ (k, v) ∷ (j, w) ∷ es
]

unfoldable pub sort_entries : List Entry → List Entry
sort_entries [] = []
sort_entries (e ∷ es) = insert_entry e (sort_entries es)

unfoldable pub join_entries : List Entry → Bytes
join_entries [] = []
join_entries ((k, v) ∷ es) = k ++ (v ++ join_entries es)

unfoldable pub encode_entries : List Entry → Result Bytes
encode_entries es = head 5 (length es) >>= λ h. ok (h ++ join_entries (sort_entries es))

unfoldable mutual
  -- encode_deterministic_cbor
  pub encode : Host → Cbor → Result Bytes
  encode host (scalar s) = encode_scalar s
  encode host (array xs) =
      head 4 (count_elements xs) >>= λ h. encode_elements host xs >>= λ b. ok (h ++ b)
  encode host (tag n v) = head 6 n >>= λ h. encode host v >>= λ b. ok (h ++ b)
  encode host (map ps) = encode_pairs host [] ps >>= encode_entries

  pub encode_elements : Host → Elements → Result Bytes
  encode_elements host no_elements = ok []
  encode_elements host (element v xs) =
      encode host v >>= λ b. encode_elements host xs >>= λ rest. ok (b ++ rest)

  pub encode_pairs : Host → List Scalar → Pairs → Result (List Entry)
  encode_pairs host seen no_pairs = ok []
  encode_pairs host seen (pair k v ps) =
      raise_if (has_same_key host k seen) duplicate_cbor_key
      >> (encode_scalar k >>= λ kb.
          encode host v >>= λ vb. encode_pairs host (k ∷ seen) ps >>= λ es. ok ((kb, vb) ∷ es))
