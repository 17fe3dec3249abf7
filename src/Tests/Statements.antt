-- ===== src/Tests/Statements.antt =====
-- Runs and instances of the CBOR head, the header checks, registry snapshots and string tokens.
use scitt_payload_binding.Common.{
  ℕ, ◌+◌, ◌≡◌, ◌≢◌, refl, true, Text, Bytes, List, [], ◌∷◌, ◌++◌, none, some, codes, length, arith,
}
use scitt_payload_binding.Value.{Fields, Value, str, arr, obj, no_items, item, no_fields, field}
use scitt_payload_binding.Errors.{ok}
use scitt_payload_binding.Canonicalize.Serialize.{jcs_string}
use scitt_payload_binding.Lex.Quoted.{quoted}
use scitt_payload_binding.Lex.Quoted.RoundTrip.{quoted-jcs_string}
use scitt_payload_binding.TypedRef.Definition.Intact.{
  IsIntact, Bound, require_integrity_iff, from_contexts_iff,
}
use scitt_payload_binding.Cbor.Item.{
  Scalar, text, Cbor, scalar, array, no_elements, element, no_pairs, pair,
}
use scitt_payload_binding.Cbor.Head.RoundTrip.{ReadBack, read_argument-head}
use scitt_payload_binding.Cose.Sign1.{CoseSign1}
use scitt_payload_binding.Cose.Headers.{label, cose_crit, validate_critical_headers}
use scitt_payload_binding.Cose.Headers.Accepted.{Accepted, validate_critical_headers_iff}
use scitt_payload_binding.Registry.Snapshot.{
  RegistrySnapshot, artifact_types_key, contexts_key, status_key, purpose_key,
}
use scitt_payload_binding.Registry.Lookup.{artifact_type_definition}
use scitt_payload_binding.Registry.Lookup.Trusted.{Trusted, artifact_type_definition-eq-ok}
use scitt_payload_binding.TypedRef.Definition.{ArtifactTypeDefinition}
use scitt_payload_binding.Tests.Sample.{sample_host, sample_platform, sample_digest}
use scitt_payload_binding.Tests.References.{
  sample_contexts, sample_pin, pinned, from_contexts_run, pinned_run, content,
}
use scitt_payload_binding.Common.{false}
use scitt_payload_binding.Cbor.Item.{Pairs, get, octets, map, contains, has_same_key}
use scitt_payload_binding.TypedRef.Reference.{TypedRef, digest_octets}
use scitt_payload_binding.Cose.Refs.{Carriage, extract_refs}
use scitt_payload_binding.Cose.Refs.Extracted.{Carried, Listed, extract_refs-eq-ok}
use scitt_payload_binding.Registry.Snapshot.{
  BodyDumps, schema_version_key, algorithms_key, snapshot_key, verify_integrity,
}
use scitt_payload_binding.Registry.Snapshot.Verified.{Intact, verify_integrity-eq-ok}
use scitt_payload_binding.Runs.{
  lex_runs, digest_runs, reference_runs, cbor_runs, cose_runs, registry_runs,
}

-- a control character, a quotation mark and a character above U+007F
abbrev spiky : Text
spiky = 1 ∷ b'"' ∷ 0xe9 ∷ b'\\' ∷ []

quoted-jcs_string_example :
    quoted sample_host 3 (jcs_string spiky ++ codes ":1}")
    ≡ ok (record { value = spiky; rest = codes ":1}"; end = 3 + length (jcs_string spiky) })
quoted-jcs_string_example = quoted-jcs_string sample_host 3 spiky (codes ":1}")

from_contexts_iff_example :
    Bound sample_platform sample_contexts sample_pin
      (codes "context-set-sha256" ++ (b':' ∷ sample_pin))
      pinned
from_contexts_iff_example =
    (from_contexts_iff sample_platform sample_contexts sample_pin pinned).0 from_contexts_run

require_integrity_iff_example :
    IsIntact sample_platform pinned × (true ≡ true → pinned.verification_anchor ≢ none)
require_integrity_iff_example = (require_integrity_iff sample_platform true pinned).0 pinned_run

read_argument-head_example :
    (initial : ℕ) × (tail : Bytes) × ReadBack true 4 300 (7 ∷ []) initial tail
read_argument-head_example = read_argument-head true 4 300 (7 ∷ []) (omega arith)

abbrev critical_value : Cbor
critical_value =
    array (element (scalar (label 15)) (element (scalar (text (codes "refs"))) no_elements))

abbrev sample_cose : CoseSign1
sample_cose = record {
  protected_bytes = [];
  protected = pair cose_crit critical_value (
      pair (label 15) (array no_elements)
        (pair (text (codes "refs")) (array no_elements) no_pairs));
  unprotected = pair (label 34) (array no_elements) no_pairs;
  payload = none;
  signature = [];
}

abbrev understood : List Scalar
understood = text (codes "refs") ∷ cose_crit ∷ label 15 ∷ []

critical_run :
    validate_critical_headers sample_host sample_cose understood
    ≡ ok (label 15 ∷ text (codes "refs") ∷ [])
unfolding cbor_runs cose_runs
critical_run = refl

validate_critical_headers_iff_example :
    Accepted sample_host sample_cose understood (label 15 ∷ text (codes "refs") ∷ [])
validate_critical_headers_iff_example =
    (validate_critical_headers_iff sample_host sample_cose understood
        (label 15 ∷ text (codes "refs") ∷ [])).0
      critical_run

abbrev sample_row : Value
sample_row = obj (
    field purpose_key (str (codes "content")) (
      field (codes "algorithm") (str (codes "jcs"))
        (field (codes "representation") (str (codes "sha256-prefixed")) no_fields)))

abbrev sample_snapshot : RegistrySnapshot
sample_snapshot = record {
  content =
      field artifact_types_key
        (obj (
          field (codes "invoice")
            (obj (
              field status_key (str (codes "owner-confirmed"))
                (field contexts_key (arr (item sample_row no_items)) no_fields)))
            no_fields))
        no_fields;
  verified = true;
  trusted_snapshot_sha256 = some sample_digest;
}

abbrev invoice : ArtifactTypeDefinition
invoice = record {
  name = codes "invoice";
  contexts = content ∷ [];
  context_set_sha256 = codes "bf00000000000000000000000000000000000000000000000000000000000000";
  verification_anchor = some (codes "registry-snapshot-sha256:" ++ sample_digest);
}

definition_run :
    artifact_type_definition sample_platform sample_snapshot (codes "invoice") (content ∷ [])
    ≡ ok invoice
unfolding lex_runs digest_runs reference_runs registry_runs
definition_run = refl

artifact_type_definition-eq-ok_example :
    Trusted sample_platform sample_snapshot (codes "invoice") (content ∷ []) invoice
artifact_type_definition-eq-ok_example =
    artifact_type_definition-eq-ok sample_platform sample_snapshot (codes "invoice") (content ∷ [])
      invoice definition_run

abbrev carried_map : Pairs
carried_map = pair (label 1) (scalar (text (codes "invoice"))) (
    pair (label 3) (scalar (text (codes "SHA-256")))
      (pair (label 4) (scalar (octets (7 ∷ 7 ∷ []))) no_pairs))

abbrev carrying : CoseSign1
carrying = record {
  protected_bytes = [];
  protected = pair (text (codes "refs")) (array (element (map carried_map) no_elements)) no_pairs;
  unprotected = no_pairs;
  payload = none;
  signature = [];
}

abbrev optional : Carriage
optional = record { required = false; require_critical = false }

abbrev carried_ref : TypedRef
carried_ref = record {
  type = codes "invoice";
  digest_alg = codes "SHA-256";
  digest = digest_octets (7 ∷ 7 ∷ []);
  purpose = none;
}

extract_run :
    extract_refs sample_host carrying (text (codes "refs")) optional [] ≡ ok (carried_ref ∷ [])
unfolding lex_runs digest_runs cbor_runs cose_runs
extract_run = refl

extract_refs-eq-ok_example :
    (contains sample_host (text (codes "refs")) carrying.unprotected ≡ false)
    × Carried (carried_ref ∷ [])
    × (contains sample_host (text (codes "refs")) carrying.protected ≡ true
        → (optional.require_critical ≡ true
            → has_same_key sample_host (text (codes "refs")) [] ≡ true)
          × Listed (get sample_host (text (codes "refs")) carrying.protected) (carried_ref ∷ []))
    × (contains sample_host (text (codes "refs")) carrying.protected ≡ false
        → (optional.required ≡ false) × (carried_ref ∷ [] ≡ []))
extract_refs-eq-ok_example =
    extract_refs-eq-ok sample_host carrying (text (codes "refs")) optional [] (carried_ref ∷ [])
      extract_run

-- a body of seven characters
abbrev sample_dumps : BodyDumps
sample_dumps v = codes "{\"n\":1}"

abbrev document : Fields
document = field schema_version_key (str (codes "1")) (
    field algorithms_key (obj no_fields) (
      field artifact_types_key
        (obj (
          field (codes "invoice")
            (obj (
              field status_key (str (codes "owner-confirmed"))
                (field contexts_key (arr (item sample_row no_items)) no_fields)))
            no_fields))
        (field snapshot_key (str sample_digest) no_fields)))

abbrev verified_document : RegistrySnapshot
verified_document = record {
  content = document;
  verified = true;
  trusted_snapshot_sha256 = some sample_digest;
}

integrity_run :
    verify_integrity sample_platform sample_dumps (some sample_digest) document
    ≡ ok verified_document
unfolding lex_runs digest_runs reference_runs registry_runs
integrity_run = refl

verify_integrity-eq-ok_example :
    Intact sample_platform sample_dumps (some sample_digest) document verified_document
verify_integrity-eq-ok_example =
    verify_integrity-eq-ok sample_platform sample_dumps (some sample_digest) document
      verified_document integrity_run
