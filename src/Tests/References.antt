-- ===== src/Tests/References.antt =====
-- Runs and instances of typed references.
use scitt_payload_binding.Common.{◌≡◌, refl, true, Text, List, [], ◌∷◌, ◌++◌, none, some, codes}
use scitt_payload_binding.Errors.{ok}
use scitt_payload_binding.Canonicalize.Digest.{jcs_name}
use scitt_payload_binding.Vintage.{Vintage}
use scitt_payload_binding.TypedRef.Context.{ArtifactDigestContext, sha256_prefixed, bare_hex}
use scitt_payload_binding.TypedRef.Definition.{
  ArtifactTypeDefinition, from_contexts, for_construction, require_integrity,
}
use scitt_payload_binding.TypedRef.Select.{select_context}
use scitt_payload_binding.TypedRef.Select.Unique.{Selected, select_context_iff}
use scitt_payload_binding.TypedRef.Reference.{
  TypedRef, ref, digest_text, prepare_reference, sha256_colon, sha_256,
}
use scitt_payload_binding.TypedRef.Verify.{make_typed_ref_json, verify_typed_ref_json}
use scitt_payload_binding.TypedRef.Verify.Sound.{VerifiedReference, verify_typed_ref_json_iff}
use scitt_payload_binding.TypedRef.Verify.Constructed.{verify-make_typed_ref_json}
use scitt_payload_binding.Tests.Sample.{sample_platform, sample-IsSha256, sample_raw, sample_digest}
use scitt_payload_binding.Runs.{lex_runs, digest_runs, reference_runs}

abbrev sample_context : Text → Text → ArtifactDigestContext
sample_context purpose representation = record {
  name = codes "invoice";
  algorithm = jcs_name;
  representation = representation;
  purpose = purpose;
  whole_object_exclusion_set = some (codes "id" ∷ []);
}

abbrev pub content : ArtifactDigestContext
content = sample_context (codes "content") sha256_prefixed

abbrev pub sample_contexts : List ArtifactDigestContext
sample_contexts = content ∷ sample_context (codes "cache") bare_hex ∷ []

abbrev pub sample_pin : Text
sample_pin = codes "3600000000000000000000000000000000000000000000000000000000000000"

abbrev made : ArtifactTypeDefinition
made = record {
  name = codes "invoice";
  contexts = sample_contexts;
  context_set_sha256 = sample_pin;
  verification_anchor = none;
}

abbrev pub pinned : ArtifactTypeDefinition
pinned = record {
  name = codes "invoice";
  contexts = sample_contexts;
  context_set_sha256 = sample_pin;
  verification_anchor = some (codes "context-set-sha256:" ++ sample_pin);
}

abbrev no_vintage : Vintage
no_vintage = record { evidence = none; verifier = none }

abbrev invoice_ref : TypedRef
invoice_ref = record {
  type = codes "invoice";
  digest_alg = sha_256;
  digest = digest_text (sha256_colon ++ sample_digest);
  purpose = some (codes "content");
}

for_construction_run : for_construction sample_platform sample_contexts ≡ ok made
unfolding lex_runs digest_runs reference_runs
for_construction_run = refl

pub from_contexts_run : from_contexts sample_platform sample_contexts sample_pin ≡ ok pinned
unfolding lex_runs digest_runs reference_runs
from_contexts_run = refl

pub pinned_run : require_integrity sample_platform true pinned ≡ ok tt
unfolding lex_runs digest_runs reference_runs
pinned_run = refl

make_run :
    make_typed_ref_json sample_platform sample_raw made (some (codes "content")) ≡ ok invoice_ref
unfolding lex_runs digest_runs reference_runs
make_run = refl

verify_run :
    verify_typed_ref_json sample_platform no_vintage (ref invoice_ref) sample_raw pinned
    ≡ ok sample_digest
unfolding lex_runs digest_runs reference_runs
verify_run = refl

select_run : select_context (codes "invoice") (some (codes "content")) sample_contexts ≡ ok content
unfolding reference_runs
select_run = refl

prepare_run : prepare_reference (ref invoice_ref) content ≡ ok invoice_ref
unfolding reference_runs
prepare_run = refl

select_context_iff_example :
    Selected (codes "invoice") (some (codes "content")) sample_contexts content
select_context_iff_example =
    (select_context_iff (codes "invoice") (some (codes "content")) sample_contexts content).0
      select_run

verify_typed_ref_json_iff_example :
    VerifiedReference sample_platform no_vintage (ref invoice_ref) sample_raw pinned sample_digest
verify_typed_ref_json_iff_example =
    (verify_typed_ref_json_iff sample_platform no_vintage (ref invoice_ref) sample_raw pinned
        sample_digest).0
      verify_run

verify-make_typed_ref_json_example :
    (digest : Text) × (verify_typed_ref_json sample_platform no_vintage
        (ref invoice_ref)
        sample_raw
        pinned
      ≡ ok digest)
verify-make_typed_ref_json_example =
    verify-make_typed_ref_json sample_platform no_vintage sample_raw made pinned
      (some (codes "content")) invoice_ref sample-IsSha256 (refl, (refl, tt)) refl pinned_run
      make_run
