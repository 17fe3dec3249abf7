-- ===== src/TypedRef/Select.antt =====
-- `_select_context` and the checks on the selected context, of lib/cpb/typed_ref.py.
pub mod Unique
use scitt_payload_binding.Common.{
  ℕ, zero, suc, Bool, true, false, ◌&&◌, ◌||◌, not, Text, List, [], ◌∷◌, map, Option, none, some,
  if◌then◌else◌, text_eq, text_in, is_empty, keep,
}
use scitt_payload_binding.Errors.{
  Result, ok, err, ◌>>◌, ◌>>=◌, raise_if, context_resolution, purpose_required, purpose_mismatch,
  unsupported_representation, unsupported_context,
}
use scitt_payload_binding.Canonicalize.Digest.{is_json_algorithm, as_transmitted_name}
use scitt_payload_binding.TypedRef.Context.{ArtifactDigestContext, raw_name}
use scitt_payload_binding.TypedRef.Definition.{is_none}

-- some string stands twice in the list
unfoldable pub has_duplicate : List Text → Bool
has_duplicate [] = false
has_duplicate (t ∷ ts) = text_in t ts || has_duplicate ts

abbrev pub purposes_of : List ArtifactDigestContext → List Text
purposes_of = map (λ entry. entry.purpose)

-- the one element of a list
abbrev pub only {ℓ} : {A : Type ℓ} → Result A → List A → Result A
only e [] = e
only e (a ∷ []) = ok a
only e (a ∷ b ∷ rest) = e

-- the choice among the contexts of the type, by an optional purpose
unfoldable pub choose : Option Text → List ArtifactDigestContext → Result ArtifactDigestContext
choose none candidates = only (err purpose_required) candidates
choose (some purpose) candidates =
    only (err purpose_mismatch) (keep (λ entry. text_eq entry.purpose purpose) candidates)

unfoldable pub select_context :
    Text → Option Text → List ArtifactDigestContext → Result ArtifactDigestContext
select_context ref_type purpose entries =
    let candidates = keep (λ entry. text_eq entry.name ref_type) entries in
    raise_if (is_empty candidates) context_resolution
    >> (raise_if (has_duplicate (purposes_of candidates)) context_resolution
        >> choose purpose candidates)

-- _require_json_typed_ref_representation
unfoldable pub require_json_representation : ArtifactDigestContext → Result (Unit {0})
require_json_representation entry =
    raise_if (text_eq entry.representation raw_name) unsupported_representation

-- _require_executable_context
unfoldable pub require_executable_context : ArtifactDigestContext → Result (Unit {0})
require_executable_context entry =
    raise_if (text_eq entry.algorithm as_transmitted_name) unsupported_context
    >> (raise_if (not (is_json_algorithm entry.algorithm)) unsupported_context
        >> raise_if (is_none entry.whole_object_exclusion_set) unsupported_context)
