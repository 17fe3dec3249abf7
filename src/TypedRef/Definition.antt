-- ===== src/TypedRef/Definition.antt =====
-- `ArtifactTypeDefinition` of lib/cpb/typed_ref.py: a complete context set bound by its digest.
pub mod Intact
mod Anchor
use scitt_payload_binding.Common.{
  Bool, true, false, ◌&&◌, ◌||◌, not, Text, List, [], ◌∷◌, ◌++◌, Option, none, some, if◌then◌else◌,
  codes, text_eq, ◌==◌, is_empty, all,
}
use scitt_payload_binding.Errors.{
  Result, ok, err, ◌>>◌, ◌>>=◌, raise_if, value_error, type_error, context_resolution,
}
use scitt_payload_binding.Platform.{Platform}
use scitt_payload_binding.TypedRef.Hex.{is_bare_hex_256}
use scitt_payload_binding.TypedRef.Context.{ArtifactDigestContext, context_set_sha256}

pub record ArtifactTypeDefinition : Type 0 where
  pub name : Text
  pub contexts : List ArtifactDigestContext
  pub context_set_sha256 : Text
  pub verification_anchor : Option Text

-- s.rpartition(":"), of a string with a colon
unfoldable pub rpartition_colon : Text → Option (Text × Text)
rpartition_colon [] = none
rpartition_colon (c ∷ s) = elim (rpartition_colon s) [
  | some (front, back) ↦ some (c ∷ front, back)
  | none ↦ if c == b':' then some ([], s) else none
]

abbrev pub context_set_prefix : Text
context_set_prefix = codes "context-set-sha256"

abbrev pub snapshot_prefix : Text
snapshot_prefix = codes "registry-snapshot-sha256"

-- the checks on an anchor's parts
unfoldable pub check_anchor_parts : Text → Option (Text × Text) → Result (Unit {0})
check_anchor_parts pin none = err context_resolution
check_anchor_parts pin (some (front, digest)) =
    raise_if
      (not (text_eq front context_set_prefix || text_eq front snapshot_prefix)
        || not (is_bare_hex_256 digest))
      context_resolution
    >> raise_if (text_eq front context_set_prefix && not (text_eq digest pin)) context_resolution

unfoldable pub check_anchor : Text → Option Text → Result (Unit {0})
check_anchor pin none = ok tt
check_anchor pin (some anchor) = check_anchor_parts pin (rpartition_colon anchor)

abbrev pub is_none {ℓ} : {A : Type ℓ} → Option A → Bool
is_none none = true
is_none (some a) = false

-- _require_integrity
unfoldable pub require_integrity : Platform → Bool → ArtifactTypeDefinition → Result (Unit {0})
require_integrity platform require_verification_anchor d =
    raise_if (is_empty d.name) value_error
    >> (raise_if (is_empty d.contexts) type_error
        >> (raise_if (not (all (λ entry. text_eq entry.name d.name) d.contexts)) context_resolution
            >> (raise_if (not (is_bare_hex_256 d.context_set_sha256)) value_error
                >> (raise_if
                      (not (
                        text_eq (context_set_sha256 platform d.name d.contexts)
                          d.context_set_sha256))
                      context_resolution
                    >> (check_anchor d.context_set_sha256 d.verification_anchor
                        >> raise_if (require_verification_anchor && is_none d.verification_anchor)
                            context_resolution)))))

-- _prepare_contexts: the type's name, when all contexts have the same one
unfoldable pub prepare_contexts : List ArtifactDigestContext → Result Text
prepare_contexts [] = err context_resolution
prepare_contexts (c ∷ cs) =
    raise_if (not (all (λ entry. text_eq entry.name c.name) cs)) context_resolution >> ok c.name

-- _build
unfoldable pub build :
    Platform
    → Text
    → List ArtifactDigestContext
    → Text
    → Option Text
    → Result ArtifactTypeDefinition
build platform name contexts digest anchor =
    let d : ArtifactTypeDefinition = record {
      name = name;
      contexts = contexts;
      context_set_sha256 = digest;
      verification_anchor = anchor;
    } in
    require_integrity platform false d >> ok d

unfoldable pub for_construction :
    Platform → List ArtifactDigestContext → Result ArtifactTypeDefinition
for_construction platform contexts = prepare_contexts contexts >>= λ name.
    build platform name contexts (context_set_sha256 platform name contexts) none

unfoldable pub from_contexts :
    Platform → List ArtifactDigestContext → Text → Result ArtifactTypeDefinition
from_contexts platform contexts expected = prepare_contexts contexts >>= λ name.
    build platform name contexts expected (some (context_set_prefix ++ (b':' ∷ expected)))

-- _from_trusted_snapshot
unfoldable pub from_trusted_snapshot :
    Platform → List ArtifactDigestContext → Text → Result ArtifactTypeDefinition
from_trusted_snapshot platform contexts snapshot = prepare_contexts contexts >>= λ name.
    build platform name contexts (context_set_sha256 platform name contexts)
      (some (snapshot_prefix ++ (b':' ∷ snapshot)))
