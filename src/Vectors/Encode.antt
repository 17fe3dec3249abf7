-- ===== src/Vectors/Encode.antt =====
-- The CBOR encoder of .github/check_vectors.py: `_cbor_head` and `_encode_cbor_deterministic`.
pub mod Agrees
use scitt_payload_binding.Common.{
  ℕ, ◌+◌, ◌*◌, Bool, true, false, Bytes, List, [], ◌∷◌, ◌++◌, ltb, if◌then◌else◌, length,
}
use scitt_payload_binding.Common.Int.{pos, negsuc}
use scitt_payload_binding.Errors.{Result, ok, err, ◌>>=◌, ◌>>◌, raise_if, value_error}
use scitt_payload_binding.Python.{Host}
use scitt_payload_binding.Canonicalize.Serialize.{encode_utf8}
use scitt_payload_binding.Cbor.Item.{
  Scalar, null, bool, int, float, octets, text, simple, Cbor, scalar, array, map, tag, Elements,
  no_elements, element, Pairs, no_pairs, pair, has_same_key, count_elements,
}
use scitt_payload_binding.Cbor.Head.{to_bytes}
use scitt_payload_binding.Cbor.Encode.{Entry, sort_entries, join_entries}

-- _cbor_head
unfoldable pub cbor_head : ℕ → ℕ → Result Bytes
cbor_head major argument =
    if ltb argument 24
    then ok ((32 * major + argument) ∷ [])
    else if ltb argument 0x100
    then ok ((32 * major + 24) ∷ argument ∷ [])
    else if ltb argument 0x10000
    then ok ((32 * major + 25) ∷ to_bytes 2 argument)
    else if ltb argument 0x100000000
    then ok ((32 * major + 26) ∷ to_bytes 4 argument)
    else if ltb argument 0x10000000000000000
    then ok ((32 * major + 27) ∷ to_bytes 8 argument)
    else err value_error

unfoldable pub strict_scalar_bytes : Scalar → Result Bytes
strict_scalar_bytes (bool false) = ok (0xf4 ∷ [])
strict_scalar_bytes (bool true) = ok (0xf5 ∷ [])
strict_scalar_bytes null = ok (0xf6 ∷ [])
strict_scalar_bytes (int (pos n)) = cbor_head 0 n
strict_scalar_bytes (int (negsuc n)) = cbor_head 1 n
strict_scalar_bytes (octets b) = cbor_head 2 (length b) >>= λ h. ok (h ++ b)
strict_scalar_bytes (text t) =
    encode_utf8 t >>= λ encoded. cbor_head 3 (length encoded) >>= λ h. ok (h ++ encoded)
strict_scalar_bytes (float b) = err value_error
strict_scalar_bytes (simple n) = err value_error

unfoldable pub strict_entries_bytes : List Entry → Result Bytes
strict_entries_bytes es = cbor_head 5 (length es) >>= λ h. ok (h ++ join_entries (sort_entries es))

unfoldable mutual
  -- _encode_cbor_deterministic
  pub encode_strict : Host → Cbor → Result Bytes
  encode_strict host (scalar s) = strict_scalar_bytes s
  encode_strict host (array xs) =
      cbor_head 4 (count_elements xs) >>= λ h. encode_strict_items host xs >>= λ b. ok (h ++ b)
  encode_strict host (tag n v) = cbor_head 6 n >>= λ h. encode_strict host v >>= λ b. ok (h ++ b)
  encode_strict host (map ps) = encode_strict_pairs host [] ps >>= strict_entries_bytes

  pub encode_strict_items : Host → Elements → Result Bytes
  encode_strict_items host no_elements = ok []
  encode_strict_items host (element v xs) =
      encode_strict host v >>= λ b. encode_strict_items host xs >>= λ rest. ok (b ++ rest)

  pub encode_strict_pairs : Host → List Scalar → Pairs → Result (List Entry)
  encode_strict_pairs host seen no_pairs = ok []
  encode_strict_pairs host seen (pair k v ps) =
      raise_if (has_same_key host k seen) value_error
      >> (strict_scalar_bytes k >>= λ kb. encode_strict host v >>= λ vb.
          encode_strict_pairs host (k ∷ seen) ps >>= λ es. ok ((kb, vb) ∷ es))
