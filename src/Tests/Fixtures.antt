-- ===== src/Tests/Fixtures.antt =====
-- Runs and instances of the results on the reference checks of .github/check_vectors.py.
use scitt_payload_binding.Common.{
  ◌≡◌, refl, Bool, true, false, Bytes, Text, [], ◌∷◌, none, some, codes, All,
}
use scitt_payload_binding.Common.Int.{pos}
use scitt_payload_binding.Value.{
  Value, null, int, str, arr, obj, no_items, item, Fields, no_fields, field, get,
}
use scitt_payload_binding.Errors.{ok, ◌>>=◌, Terminates}
use scitt_payload_binding.Lex.Scanner.{Raw, lex_raw}
use scitt_payload_binding.Lex.Scanner.Termination.{lex_raw-Terminates}
use scitt_payload_binding.Cbor.Decode.Termination.{decode_exact-Terminates}
use scitt_payload_binding.Vectors.Cbor.Termination.{decode_strict_cbor-Terminates}
use scitt_payload_binding.Errors.Agree.{Agree}
use scitt_payload_binding.Value.Reorder.{objects, swapped}
use scitt_payload_binding.Canonicalize.Digest.Reordered.{canonical_digest-Same}
use scitt_payload_binding.Canonicalize.Digest.{jcs_n_name, canonical_digest}
use scitt_payload_binding.TypedRef.Context.{ArtifactDigestContext}
use scitt_payload_binding.TypedRef.Select.{select_context}
use scitt_payload_binding.Cbor.Item.{
  Cbor, scalar, text, octets, array, map, no_elements, element, no_pairs, pair,
}
use scitt_payload_binding.Cbor.Item as Item
use scitt_payload_binding.Cbor.Decode.{decode_exact}
use scitt_payload_binding.Cbor.Encode.{encode}
use scitt_payload_binding.Vectors.Cbor.{decode_strict_cbor}
use scitt_payload_binding.Vectors.Cbor.Refines.{decode_strict_cbor-decode_exact}
use scitt_payload_binding.Vectors.Encode.{encode_strict}
use scitt_payload_binding.Vectors.Encode.Agrees.{encode_strict-Agree}
use scitt_payload_binding.Vectors.Pointer.{parse_json_pointer}
use scitt_payload_binding.Vectors.Pointer.RoundTrip.{
  print_pointer, parse_json_pointer-print_pointer,
}
use scitt_payload_binding.Vectors.Mapping.{MemberMapping, apply_member_mapping}
use scitt_payload_binding.Vectors.Mapping.Derived.{Carried, Stated, apply_member_mapping-Carried}
use scitt_payload_binding.Vectors.Contexts.{digest_context_entries, resolve_digest_context}
use scitt_payload_binding.Vectors.Contexts.Resolved.{
  Declares, purpose_value, resolve_digest_context-select_context,
}
use scitt_payload_binding.Vectors.Derivation.{check_member_mapping_derivation}
use scitt_payload_binding.Vectors.Derivation.Matched.{Matches, check_member_mapping_derivation-none}
use scitt_payload_binding.Vectors.Canonical.{jcs_n_pre_image, sha256_hex}
use scitt_payload_binding.Vectors.Canonical.Agrees.{canonical_digest-Agree}
use scitt_payload_binding.Tests.Sample.{sample_host, sample_platform}
use scitt_payload_binding.Runs.{lex_runs, digest_runs, reference_runs, cbor_runs, vectors_runs}

-- [1, "a"]
abbrev pair_bytes : Bytes
pair_bytes = 0x82 ∷ 0x01 ∷ 0x61 ∷ 0x61 ∷ []

abbrev pair_item : Cbor
pair_item =
    array (element (scalar (Item.int (pos 1))) (element (scalar (text (codes "a"))) no_elements))

strict_run : decode_strict_cbor sample_host pair_bytes ≡ ok pair_item
unfolding lex_runs digest_runs cbor_runs vectors_runs
strict_run = refl

decode_strict_cbor-decode_exact_example : decode_exact sample_host true pair_bytes ≡ ok pair_item
decode_strict_cbor-decode_exact_example =
    decode_strict_cbor-decode_exact sample_host pair_bytes pair_item strict_run

encode_strict-Agree_example :
    Agree (encode_strict sample_host pair_item) (encode sample_host pair_item)
encode_strict-Agree_example = encode_strict-Agree sample_host pair_item

parse_json_pointer-print_pointer_example :
    parse_json_pointer (print_pointer (codes "a/b" ∷ codes "m~n" ∷ []))
    ≡ ok (codes "a/b" ∷ codes "m~n" ∷ [])
parse_json_pointer-print_pointer_example =
    parse_json_pointer-print_pointer (codes "a/b") (codes "m~n" ∷ [])

-- {"body": {"id": "x"}}
abbrev source_object : Value
source_object =
    obj (field (codes "body") (obj (field (codes "id") (str (codes "x")) no_fields)) no_fields)

abbrev sample_mapping : MemberMapping
sample_mapping = record {
  fields = record { source_pointer = codes "/body/id"; preimage_pointer = codes "/record/id" } ∷ [];
  constants = record { preimage_pointer = codes "/record/kind"; value = str (codes "k") } ∷ [];
}

abbrev derived_object : Fields
derived_object =
    field (codes "record")
      (obj
        (field (codes "id") (str (codes "x")) (field (codes "kind") (str (codes "k")) no_fields)))
      no_fields

mapping_run : apply_member_mapping source_object sample_mapping ≡ ok derived_object
unfolding lex_runs vectors_runs
mapping_run = refl

apply_member_mapping-Carried_example :
    All (Carried source_object derived_object) sample_mapping.fields
    × All (Stated derived_object) sample_mapping.constants
apply_member_mapping-Carried_example =
    apply_member_mapping-Carried source_object sample_mapping derived_object mapping_run

abbrev whole_entry : Fields
whole_entry =
    field (codes "purpose") (str (codes "whole"))
      (field (codes "algorithm") (str (codes "jcs")) no_fields)

abbrev part_entry : Fields
part_entry =
    field (codes "purpose") (str (codes "part"))
      (field (codes "algorithm") (str (codes "jcs-n")) no_fields)

abbrev entry_array : Value
entry_array = arr (item (obj whole_entry) (item (obj part_entry) no_items))

abbrev whole_context : ArtifactDigestContext
whole_context = record {
  name = codes "invoice";
  algorithm = codes "jcs";
  representation = codes "bare-hex";
  purpose = codes "whole";
  whole_object_exclusion_set = some [];
}

abbrev part_context : ArtifactDigestContext
part_context = record {
  name = codes "invoice";
  algorithm = codes "jcs-n";
  representation = codes "bare-hex";
  purpose = codes "part";
  whole_object_exclusion_set = some [];
}

entries_run : digest_context_entries entry_array ≡ ok (whole_entry ∷ part_entry ∷ [])
unfolding lex_runs vectors_runs
entries_run = refl

part_run :
    select_context (codes "invoice") (some (codes "part")) (whole_context ∷ part_context ∷ [])
    ≡ ok part_context
unfolding lex_runs reference_runs
part_run = refl

whole-Declares : Declares whole_entry whole_context
unfolding lex_runs
whole-Declares = record { purpose = refl; algorithm = refl }

part-Declares : Declares part_entry part_context
unfolding lex_runs
part-Declares = record { purpose = refl; algorithm = refl }

resolve_digest_context-select_context_example :
    (fs : Fields) × (resolve_digest_context (purpose_value (some (codes "part"))) entry_array
      ≡ ok fs)
    × Declares fs part_context
resolve_digest_context-select_context_example =
    resolve_digest_context-select_context entry_array (whole_entry ∷ part_entry ∷ [])
      (codes "invoice") (whole_context ∷ part_context ∷ []) (some (codes "part")) part_context
      entries_run (whole-Declares, (part-Declares, tt)) (refl, (refl, tt)) part_run

-- {"b": null, "a": [1, "x"]}
abbrev payload : Fields
payload =
    field (codes "b") null
      (field (codes "a") (arr (item (int (pos 1)) (item (str (codes "x")) no_items))) no_fields)

canonical_digest-Agree_example :
    Agree
      (canonical_digest sample_platform jcs_n_name [] (obj payload))
      (jcs_n_pre_image payload [] >>= sha256_hex sample_platform)
canonical_digest-Agree_example = canonical_digest-Agree sample_platform [] payload

lex_raw-Terminates_example :
    Terminates (lex_raw sample_host (Raw.text (codes "{\"a\": [1, true, \"x\"]}")))
lex_raw-Terminates_example =
    lex_raw-Terminates sample_host (Raw.text (codes "{\"a\": [1, true, \"x\"]}"))

decode_exact-Terminates_example : Terminates (decode_exact sample_host false pair_bytes)
decode_exact-Terminates_example = decode_exact-Terminates sample_host false pair_bytes

decode_strict_cbor-Terminates_example : Terminates (decode_strict_cbor sample_host pair_bytes)
decode_strict_cbor-Terminates_example = decode_strict_cbor-Terminates sample_host pair_bytes

-- payload with its members the other way round
abbrev turned : Fields
turned =
    field (codes "a") (arr (item (int (pos 1)) (item (str (codes "x")) no_items)))
      (field (codes "b") null no_fields)

canonical_digest-Same_example :
    canonical_digest sample_platform jcs_n_name [] (obj payload)
    ≡ canonical_digest sample_platform jcs_n_name [] (obj turned)
canonical_digest-Same_example =
    canonical_digest-Same sample_platform [] (obj payload) (obj turned) (objects (swapped refl))

abbrev field_entry : Fields
field_entry =
    field (codes "source_pointer") (str (codes "/body/id"))
      (field (codes "preimage_pointer") (str (codes "/id")) no_fields)

abbrev declared_mapping : Fields
declared_mapping = field (codes "fields") (arr (item (obj field_entry) no_items)) no_fields

abbrev declared_context : Fields
declared_context = field (codes "member_mapping") (obj declared_mapping) no_fields

-- the input that the mapping derives from the source object
abbrev mapped_vector : Fields
mapped_vector = field (codes "declared_digest_context") (obj declared_context) (
    field (codes "source_object") source_object
      (field (codes "input") (obj (field (codes "id") (str (codes "x")) no_fields)) no_fields))

abbrev every_float : Text → Bool
every_float tok = true

derivation_run : check_member_mapping_derivation every_float mapped_vector ≡ ok none
unfolding lex_runs digest_runs vectors_runs
derivation_run = refl

context_found : get (codes "declared_digest_context") mapped_vector ≡ some (obj declared_context)
unfolding lex_runs
context_found = refl

mapping_found : get (codes "member_mapping") declared_context ≡ some (obj declared_mapping)
unfolding lex_runs
mapping_found = refl

check_member_mapping_derivation-none_example :
    Matches every_float mapped_vector (obj declared_mapping)
check_member_mapping_derivation-none_example =
    check_member_mapping_derivation-none every_float mapped_vector declared_context
      (obj declared_mapping) context_found mapping_found derivation_run
