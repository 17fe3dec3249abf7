-- ===== src/Runs.antt =====
-- What a run on concrete input computes with: a test unfolds the name of a component here.

unfoldable pub lex_runs : Unit {0}
unfolding scitt_payload_binding.Value.get scitt_payload_binding.Value.has_key
    scitt_payload_binding.Value.set scitt_payload_binding.Value.append_item
    scitt_payload_binding.Value.without_keys scitt_payload_binding.Python.digit_value
    scitt_payload_binding.Python.is_digit scitt_payload_binding.Python.is_space
    scitt_payload_binding.Python.hex_value scitt_payload_binding.Python.skip_spaces
    scitt_payload_binding.Python.hex_digits scitt_payload_binding.Python.after_prefix
    scitt_payload_binding.Python.unsigned_base16 scitt_payload_binding.Python.int_base16
    scitt_payload_binding.Python.digits_value scitt_payload_binding.Python.int_base10
    scitt_payload_binding.Python.decimal_digits scitt_payload_binding.Python.decimal_text
    scitt_payload_binding.Python.int_text scitt_payload_binding.Unicode.utf8_char
    scitt_payload_binding.Unicode.utf16_char scitt_payload_binding.Unicode.utf8_encode
    scitt_payload_binding.Unicode.utf16_encode scitt_payload_binding.Unicode.utf8_loop
    scitt_payload_binding.Unicode.utf8_decode scitt_payload_binding.Lex.Number.digit_run
    scitt_payload_binding.Lex.Number.match_integer scitt_payload_binding.Lex.Number.match_signed
    scitt_payload_binding.Lex.Number.match_tail scitt_payload_binding.Lex.Number.match_fraction
    scitt_payload_binding.Lex.Number.match_exponent scitt_payload_binding.Lex.Number.match_number
    scitt_payload_binding.Lex.Number.positive_form scitt_payload_binding.Lex.Number.strict_integer
    scitt_payload_binding.Lex.Number.is_float_token scitt_payload_binding.Lex.Number.number_value
    scitt_payload_binding.Lex.Quoted.hex_code scitt_payload_binding.Lex.Quoted.chr
    scitt_payload_binding.Lex.Quoted.short_escape scitt_payload_binding.Lex.Quoted.unicode_escape
    scitt_payload_binding.Lex.Quoted.string_body scitt_payload_binding.Lex.Quoted.quoted
    scitt_payload_binding.Lex.Scanner.skip_ws scitt_payload_binding.Lex.Scanner.ws
    scitt_payload_binding.Lex.Scanner.expect_at scitt_payload_binding.Lex.Scanner.expect
    scitt_payload_binding.Lex.Scanner.push_depth scitt_payload_binding.Lex.Scanner.pop_depth
    scitt_payload_binding.Lex.Scanner.scan_string scitt_payload_binding.Lex.Scanner.number_at
    scitt_payload_binding.Lex.Scanner.scan_number scitt_payload_binding.Lex.Scanner.dispatch
    scitt_payload_binding.Lex.Scanner.first_seen scitt_payload_binding.Lex.Scanner.note_key
    scitt_payload_binding.Lex.Scanner.scan_key scitt_payload_binding.Lex.Scanner.finish
    scitt_payload_binding.Lex.Scanner.lex scitt_payload_binding.Lex.Scanner.lex_decoded
    scitt_payload_binding.Lex.Scanner.lex_raw scitt_payload_binding.Lex.Scanner.parse
lex_runs = tt

unfoldable pub digest_runs : Unit {0}
unfolding scitt_payload_binding.Canonicalize.Normalize.is_absent
    scitt_payload_binding.Canonicalize.Normalize.normalize
    scitt_payload_binding.Canonicalize.Serialize.escape_char
    scitt_payload_binding.Canonicalize.Serialize.escaped
    scitt_payload_binding.Canonicalize.Serialize.jcs_string
    scitt_payload_binding.Canonicalize.Serialize.insert_member
    scitt_payload_binding.Canonicalize.Serialize.sort_members
    scitt_payload_binding.Canonicalize.Serialize.member
    scitt_payload_binding.Canonicalize.Serialize.join_members
    scitt_payload_binding.Canonicalize.Serialize.serialize_object
    scitt_payload_binding.Canonicalize.Serialize.encode_utf8
    scitt_payload_binding.Canonicalize.Serialize.jcs_n
    scitt_payload_binding.Canonicalize.Serialize.jcs_n_value
    scitt_payload_binding.Canonicalize.Digest.exclude
    scitt_payload_binding.Canonicalize.Digest.pre_image
    scitt_payload_binding.Canonicalize.Digest.octets_digest
    scitt_payload_binding.Canonicalize.Digest.raw_digest
    scitt_payload_binding.Canonicalize.Digest.hex
    scitt_payload_binding.Canonicalize.Digest.canonical_digest
    scitt_payload_binding.Canonicalize.Digest.as_raw
    scitt_payload_binding.Canonicalize.Digest.require_object
    scitt_payload_binding.Canonicalize.Digest.wire_gate
    scitt_payload_binding.Canonicalize.Digest.parse_json_object
    scitt_payload_binding.Canonicalize.Digest.canonical_digest_json
    scitt_payload_binding.Vintage.require_committed scitt_payload_binding.Vintage.require_evidence
    scitt_payload_binding.Vintage.require_pre_cutoff_jcs_n_vintage
    scitt_payload_binding.DeriveId.derive_id scitt_payload_binding.DeriveId.evaluate_derived_id
    scitt_payload_binding.DeriveId.evaluate_derived_id_json scitt_payload_binding.DeriveId.is_str
    scitt_payload_binding.DeriveId.carried_differs
    scitt_payload_binding.DeriveId.require_vintage_for
    scitt_payload_binding.DeriveId.verify_carried_id scitt_payload_binding.Check.check_r
    scitt_payload_binding.Check.judge scitt_payload_binding.Check.check
    scitt_payload_binding.Check.Walk.member_fault scitt_payload_binding.Check.Walk.check_p
    scitt_payload_binding.Check.Walk.p_walk
digest_runs = tt

unfoldable pub reference_runs : Unit {0}
unfolding scitt_payload_binding.TypedRef.Hex.is_bare_hex_256
    scitt_payload_binding.TypedRef.Hex.from_hex scitt_payload_binding.TypedRef.Hex.hex_to_raw
    scitt_payload_binding.TypedRef.Hex.raw_to_hex scitt_payload_binding.TypedRef.Context.post_init
    scitt_payload_binding.TypedRef.Context.insert_text
    scitt_payload_binding.TypedRef.Context.sort_texts
    scitt_payload_binding.TypedRef.Context.join_comma
    scitt_payload_binding.TypedRef.Context.exclusion_json
    scitt_payload_binding.TypedRef.Context.context_row
    scitt_payload_binding.TypedRef.Context.context_set_body
    scitt_payload_binding.TypedRef.Context.context_set_sha256
    scitt_payload_binding.TypedRef.Definition.rpartition_colon
    scitt_payload_binding.TypedRef.Definition.check_anchor_parts
    scitt_payload_binding.TypedRef.Definition.check_anchor
    scitt_payload_binding.TypedRef.Definition.require_integrity
    scitt_payload_binding.TypedRef.Definition.prepare_contexts
    scitt_payload_binding.TypedRef.Definition.build
    scitt_payload_binding.TypedRef.Definition.for_construction
    scitt_payload_binding.TypedRef.Definition.from_contexts
    scitt_payload_binding.TypedRef.Definition.from_trusted_snapshot
    scitt_payload_binding.TypedRef.Select.has_duplicate scitt_payload_binding.TypedRef.Select.choose
    scitt_payload_binding.TypedRef.Select.select_context
    scitt_payload_binding.TypedRef.Select.require_json_representation
    scitt_payload_binding.TypedRef.Select.require_executable_context
    scitt_payload_binding.TypedRef.Reference.get_text
    scitt_payload_binding.TypedRef.Reference.require_text
    scitt_payload_binding.TypedRef.Reference.as_dict
    scitt_payload_binding.TypedRef.Reference.carried_purpose
    scitt_payload_binding.TypedRef.Reference.carried_type
    scitt_payload_binding.TypedRef.Reference.as_typed_ref
    scitt_payload_binding.TypedRef.Reference.has_representation
    scitt_payload_binding.TypedRef.Reference.check_representation
    scitt_payload_binding.TypedRef.Reference.prepare_reference
    scitt_payload_binding.TypedRef.Reference.carried_bare
    scitt_payload_binding.TypedRef.Reference.compare_recomputed
    scitt_payload_binding.TypedRef.Verify.make_typed_ref
    scitt_payload_binding.TypedRef.Verify.digest_json_for_context
    scitt_payload_binding.TypedRef.Verify.render_digest
    scitt_payload_binding.TypedRef.Verify.make_typed_ref_json
    scitt_payload_binding.TypedRef.Verify.resolve_reference_context
    scitt_payload_binding.TypedRef.Verify.verify_resolved_reference
    scitt_payload_binding.TypedRef.Verify.evaluate_typed_ref_digest
    scitt_payload_binding.TypedRef.Verify.verify_typed_ref_json
    scitt_payload_binding.TypedRef.Verify.verify_cbor_typed_ref
    scitt_payload_binding.TypedRef.Verify.verify_typed_ref
reference_runs = tt

unfoldable pub cbor_runs : Unit {0}
unfolding scitt_payload_binding.Cbor.Item.same_key scitt_payload_binding.Cbor.Item.get
    scitt_payload_binding.Cbor.Item.contains scitt_payload_binding.Cbor.Item.keys
    scitt_payload_binding.Cbor.Item.has_same_key scitt_payload_binding.Cbor.Item.append_element
    scitt_payload_binding.Cbor.Item.append_pair scitt_payload_binding.Cbor.Item.count_elements
    scitt_payload_binding.Cbor.Item.count_pairs scitt_payload_binding.Cbor.Head.from_bytes
    scitt_payload_binding.Cbor.Head.to_bytes scitt_payload_binding.Cbor.Head.argument_width
    scitt_payload_binding.Cbor.Head.read_wide scitt_payload_binding.Cbor.Head.read_argument
    scitt_payload_binding.Cbor.Head.head scitt_payload_binding.Cbor.Encode.encode_scalar
    scitt_payload_binding.Cbor.Encode.insert_entry scitt_payload_binding.Cbor.Encode.sort_entries
    scitt_payload_binding.Cbor.Encode.join_entries scitt_payload_binding.Cbor.Encode.encode_entries
    scitt_payload_binding.Cbor.Encode.encode scitt_payload_binding.Cbor.Decode.read_float
    scitt_payload_binding.Cbor.Decode.read_simple_byte scitt_payload_binding.Cbor.Decode.read_simple
    scitt_payload_binding.Cbor.Decode.string_scalar scitt_payload_binding.Cbor.Decode.read_string
    scitt_payload_binding.Cbor.Decode.chunk_content scitt_payload_binding.Cbor.Decode.require_key
    scitt_payload_binding.Cbor.Decode.require_item scitt_payload_binding.Cbor.Decode.by_major
    scitt_payload_binding.Cbor.Decode.require_end scitt_payload_binding.Cbor.Decode.decode_exact
    scitt_payload_binding.Cbor.Decode.decode_item
cbor_runs = tt

unfoldable pub cose_runs : Unit {0}
unfolding scitt_payload_binding.Cose.Sign1.payload_of scitt_payload_binding.Cose.Sign1.octets_of
    scitt_payload_binding.Cose.Sign1.map_of scitt_payload_binding.Cose.Sign1.parts_of
    scitt_payload_binding.Cose.Sign1.sign1_parts scitt_payload_binding.Cose.Sign1.decode_protected
    scitt_payload_binding.Cose.Sign1.decode_cose_sign1
    scitt_payload_binding.Cose.Sign1.cose_signature1_structure
    scitt_payload_binding.Cose.Headers.is_label
    scitt_payload_binding.Cose.Headers.validate_label_map
    scitt_payload_binding.Cose.Headers.critical_entries
    scitt_payload_binding.Cose.Headers.critical_of
    scitt_payload_binding.Cose.Headers.validate_cose_headers
    scitt_payload_binding.Cose.Headers.validate_critical_headers
    scitt_payload_binding.Cose.Uri.partition scitt_payload_binding.Cose.Uri.rsplit
    scitt_payload_binding.Cose.Uri.occurrences scitt_payload_binding.Cose.Uri.is_media_type_name
    scitt_payload_binding.Cose.Uri.is_media_type scitt_payload_binding.Cose.Uri.valid_component
    scitt_payload_binding.Cose.Uri.valid_future scitt_payload_binding.Cose.Uri.valid_literal
    scitt_payload_binding.Cose.Uri.valid_bracketed scitt_payload_binding.Cose.Uri.valid_host
    scitt_payload_binding.Cose.Uri.valid_host_and_port
    scitt_payload_binding.Cose.Uri.valid_authority scitt_payload_binding.Cose.Uri.split_netloc
    scitt_payload_binding.Cose.Uri.split_once scitt_payload_binding.Cose.Uri.split_path
    scitt_payload_binding.Cose.Uri.urlsplit scitt_payload_binding.Cose.Uri.valid_scheme
    scitt_payload_binding.Cose.Uri.valid_split scitt_payload_binding.Cose.Uri.is_rfc3986_uri
    scitt_payload_binding.Cose.Uri.is_string_or_uri scitt_payload_binding.Cose.Baseline.is_int
    scitt_payload_binding.Cose.Baseline.is_octets scitt_payload_binding.Cose.Baseline.is_x5t
    scitt_payload_binding.Cose.Baseline.all_octets scitt_payload_binding.Cose.Baseline.is_x5chain
    scitt_payload_binding.Cose.Baseline.validate_x509_bucket
    scitt_payload_binding.Cose.Baseline.validate_x509_parameters
    scitt_payload_binding.Cose.Baseline.claim_text scitt_payload_binding.Cose.Baseline.claims_of
    scitt_payload_binding.Cose.Baseline.validate_rfc9943_baseline
    scitt_payload_binding.Cose.Mode.effective_payload
    scitt_payload_binding.Cose.Mode.is_content_type scitt_payload_binding.Cose.Mode.bad_size
    scitt_payload_binding.Cose.Mode.validate_full_content
    scitt_payload_binding.Cose.Mode.require_hash_alg scitt_payload_binding.Cose.Mode.is_text
    scitt_payload_binding.Cose.Mode.require_payload_size
    scitt_payload_binding.Cose.Mode.validate_hash_envelope
    scitt_payload_binding.Cose.Mode.validate_cpb_statement_mode
    scitt_payload_binding.Cose.Refs.bounded scitt_payload_binding.Cose.Refs.nonempty_text
    scitt_payload_binding.Cose.Refs.digest_of scitt_payload_binding.Cose.Refs.is_member_key
    scitt_payload_binding.Cose.Refs.purpose_of scitt_payload_binding.Cose.Refs.reference_of
    scitt_payload_binding.Cose.Refs.validate_reference_map
    scitt_payload_binding.Cose.Refs.reference_list scitt_payload_binding.Cose.Refs.same_identity
    scitt_payload_binding.Cose.Refs.repeats scitt_payload_binding.Cose.Refs.carrier_refs
    scitt_payload_binding.Cose.Refs.extract_refs
    scitt_payload_binding.Cose.Statement.extract_cpb_refs
    scitt_payload_binding.Cose.Statement.validate_cpb_signed_statement
cose_runs = tt

unfoldable pub registry_runs : Unit {0}
unfolding scitt_payload_binding.Registry.Snapshot.object_without_duplicate_keys
    scitt_payload_binding.Registry.Snapshot.is_live_status
    scitt_payload_binding.Registry.Snapshot.is_version_one
    scitt_payload_binding.Registry.Snapshot.object_of
    scitt_payload_binding.Registry.Snapshot.contexts_of
    scitt_payload_binding.Registry.Snapshot.nonempty_string
    scitt_payload_binding.Registry.Snapshot.digest_string
    scitt_payload_binding.Registry.Snapshot.check_live_contexts
    scitt_payload_binding.Registry.Snapshot.check_type_entry
    scitt_payload_binding.Registry.Snapshot.check_type_entries
    scitt_payload_binding.Registry.Snapshot.compute_body_sha256
    scitt_payload_binding.Registry.Snapshot.compute_snapshot_sha256
    scitt_payload_binding.Registry.Snapshot.verify_integrity
    scitt_payload_binding.Registry.Snapshot.from_dict
    scitt_payload_binding.Registry.Lookup.require_verified
    scitt_payload_binding.Registry.Lookup.table_of
    scitt_payload_binding.Registry.Lookup.entry_verdict
    scitt_payload_binding.Registry.Lookup.classify scitt_payload_binding.Registry.Lookup.lookup_in
    scitt_payload_binding.Registry.Lookup.lookup_algorithm
    scitt_payload_binding.Registry.Lookup.lookup_artifact_type
    scitt_payload_binding.Registry.Lookup.by_purpose
    scitt_payload_binding.Registry.Lookup.implementation_for
    scitt_payload_binding.Registry.Lookup.as_integrity
    scitt_payload_binding.Registry.Lookup.context_for
    scitt_payload_binding.Registry.Lookup.row_context
    scitt_payload_binding.Registry.Lookup.row_contexts
    scitt_payload_binding.Registry.Lookup.has_purpose
    scitt_payload_binding.Registry.Lookup.artifact_type_definition
registry_runs = tt

unfoldable pub vectors_runs : Unit {0}
unfolding scitt_payload_binding.Vectors.Cbor.preferred_width
    scitt_payload_binding.Vectors.Cbor.preferred_argument
    scitt_payload_binding.Vectors.Cbor.cbor_argument
    scitt_payload_binding.Vectors.Cbor.strict_simple
    scitt_payload_binding.Vectors.Cbor.strict_content
    scitt_payload_binding.Vectors.Cbor.strict_string scitt_payload_binding.Vectors.Cbor.strict_key
    scitt_payload_binding.Vectors.Cbor.strict_major scitt_payload_binding.Vectors.Cbor.strict_end
    scitt_payload_binding.Vectors.Cbor.decode_strict_cbor
    scitt_payload_binding.Vectors.Cbor.strict_item scitt_payload_binding.Vectors.Encode.cbor_head
    scitt_payload_binding.Vectors.Encode.strict_scalar_bytes
    scitt_payload_binding.Vectors.Encode.strict_entries_bytes
    scitt_payload_binding.Vectors.Encode.encode_strict
    scitt_payload_binding.Vectors.Pointer.valid_escapes
    scitt_payload_binding.Vectors.Pointer.replace
    scitt_payload_binding.Vectors.Pointer.unescape_pointer_token
    scitt_payload_binding.Vectors.Pointer.split_slash
    scitt_payload_binding.Vectors.Pointer.unescape_all
    scitt_payload_binding.Vectors.Pointer.parse_json_pointer
    scitt_payload_binding.Vectors.Pointer.resolve_tokens
    scitt_payload_binding.Vectors.Pointer.resolve_source_pointer
    scitt_payload_binding.Vectors.Mapping.is_prefix scitt_payload_binding.Vectors.Mapping.collide
    scitt_payload_binding.Vectors.Mapping.some_collide
    scitt_payload_binding.Vectors.Mapping.parse_pointers
    scitt_payload_binding.Vectors.Mapping.check_destination_collisions
    scitt_payload_binding.Vectors.Mapping.inner_fields scitt_payload_binding.Vectors.Mapping.assign
    scitt_payload_binding.Vectors.Mapping.field_values
    scitt_payload_binding.Vectors.Mapping.assign_all
    scitt_payload_binding.Vectors.Mapping.apply_member_mapping
    scitt_payload_binding.Vectors.Derivation.truthy
    scitt_payload_binding.Vectors.Derivation.pointer_member
    scitt_payload_binding.Vectors.Derivation.member_value
    scitt_payload_binding.Vectors.Derivation.field_entries
    scitt_payload_binding.Vectors.Derivation.constant_entries
    scitt_payload_binding.Vectors.Derivation.entry_items
    scitt_payload_binding.Vectors.Derivation.read_mapping
    scitt_payload_binding.Vectors.Derivation.compare_derived
    scitt_payload_binding.Vectors.Derivation.check_mapping
    scitt_payload_binding.Vectors.Derivation.check_declared
    scitt_payload_binding.Vectors.Derivation.check_context
    scitt_payload_binding.Vectors.Derivation.check_member_mapping_derivation
    scitt_payload_binding.Vectors.Contexts.nonempty_string
    scitt_payload_binding.Vectors.Contexts.context_entry
    scitt_payload_binding.Vectors.Contexts.context_entries
    scitt_payload_binding.Vectors.Contexts.digest_context_entries
    scitt_payload_binding.Vectors.Contexts.has_purpose
    scitt_payload_binding.Vectors.Contexts.resolve_entries
    scitt_payload_binding.Vectors.Contexts.resolve_digest_context
    scitt_payload_binding.Vectors.Carrier.is_hex_pairs
    scitt_payload_binding.Vectors.Carrier.strict_hex_bytes
    scitt_payload_binding.Vectors.Carrier.is_payload scitt_payload_binding.Vectors.Carrier.is_octets
    scitt_payload_binding.Vectors.Carrier.sign1_array
    scitt_payload_binding.Vectors.Carrier.tagged_sign1
    scitt_payload_binding.Vectors.Carrier.cose_sign1_parts
    scitt_payload_binding.Vectors.Carrier.fits_in
    scitt_payload_binding.Vectors.Carrier.bounded_nonempty_text
    scitt_payload_binding.Vectors.Carrier.bounded_digest
    scitt_payload_binding.Vectors.Carrier.optional_purpose
    scitt_payload_binding.Vectors.Carrier.checked_ref_map
    scitt_payload_binding.Vectors.Carrier.validate_cpb_ref_map
    scitt_payload_binding.Vectors.Carrier.validated_refs
    scitt_payload_binding.Vectors.Carrier.same_member scitt_payload_binding.Vectors.Carrier.same_ref
    scitt_payload_binding.Vectors.Carrier.repeats_ref
    scitt_payload_binding.Vectors.Carrier.header_label
    scitt_payload_binding.Vectors.Carrier.entry_index
    scitt_payload_binding.Vectors.Carrier.select_ref
    scitt_payload_binding.Vectors.Carrier.carried_refs
    scitt_payload_binding.Vectors.Carrier.header_map
    scitt_payload_binding.Vectors.Carrier.require_canonical
    scitt_payload_binding.Vectors.Carrier.fixture_header
    scitt_payload_binding.Vectors.Carrier.stated_as
    scitt_payload_binding.Vectors.Carrier.fixture_envelope
    scitt_payload_binding.Vectors.Carrier.carrier_of
    scitt_payload_binding.Vectors.Carrier.decode_carrier
    scitt_payload_binding.Vectors.Mirror.mirror_value
    scitt_payload_binding.Vectors.Mirror.mirror_key
    scitt_payload_binding.Vectors.Mirror.cbor_json_mirror
    scitt_payload_binding.Vectors.Mirror.count_fields scitt_payload_binding.Vectors.Mirror.is_string
    scitt_payload_binding.Vectors.Mirror.check_cbor_mirror
    scitt_payload_binding.Vectors.Mirror.mirrors_text
    scitt_payload_binding.Vectors.Mirror.mirrors_digest
    scitt_payload_binding.Vectors.Mirror.mirrors_purpose
    scitt_payload_binding.Vectors.Mirror.check_typed_mirror
    scitt_payload_binding.Vectors.Mirror.decode_cpb_carrier
    scitt_payload_binding.Vectors.Mirror.mirrors scitt_payload_binding.Vectors.Canonical.is_dropped
    scitt_payload_binding.Vectors.Canonical.kept_member
    scitt_payload_binding.Vectors.Canonical.dumps_char
    scitt_payload_binding.Vectors.Canonical.dumps_chars
    scitt_payload_binding.Vectors.Canonical.dumps_string
    scitt_payload_binding.Vectors.Canonical.safe_int
    scitt_payload_binding.Vectors.Canonical.joined_pairs
    scitt_payload_binding.Vectors.Canonical.jcs_object scitt_payload_binding.Vectors.Canonical.jcs
    scitt_payload_binding.Vectors.Canonical.ends_in_zero
    scitt_payload_binding.Vectors.Canonical.verified_float
    scitt_payload_binding.Vectors.Canonical.jcs_rfc8785
    scitt_payload_binding.Vectors.Canonical.jcs_n_pre_image
    scitt_payload_binding.Vectors.Canonical.sha256_hex scitt_payload_binding.Vectors.Canonical.strip
    scitt_payload_binding.Vectors.Canonical.jcs_with
vectors_runs = tt

unfoldable pub command_runs : Unit {0}
unfolding scitt_payload_binding.Command.vector_raw scitt_payload_binding.Command.raw_text
    scitt_payload_binding.Command.check_value scitt_payload_binding.Command.expects
    scitt_payload_binding.Command.compare_verdict scitt_payload_binding.Command.hashable
    scitt_payload_binding.Command.outcome_of_expected scitt_payload_binding.Command.outcome
    scitt_payload_binding.Command.count_expected scitt_payload_binding.Command.tally
    scitt_payload_binding.Command.run_vectors scitt_payload_binding.Command.counts_exit
    scitt_payload_binding.Command.self_test scitt_payload_binding.Command.check_exit
    scitt_payload_binding.Command.check_path scitt_payload_binding.Command.run_arguments
    scitt_payload_binding.Command.main
command_runs = tt
