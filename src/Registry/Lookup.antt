-- ===== src/Registry/Lookup.antt =====
-- The lookups of `RegistrySnapshot` in lib/cpb/registry.py, and the artifact-type definition that a
-- pinned snapshot gives.
pub mod Rows
pub mod Trusted
use scitt_payload_binding.Common.{
  Bool, true, false, ◌||◌, not, Text, List, [], ◌∷◌, Option, none, some, if◌then◌else◌, codes,
  text_eq, text_in, all,
}
use scitt_payload_binding.Value.{Value, Items, Fields, null, obj, no_items, item, no_fields, get}
use scitt_payload_binding.Errors.{
  Result, ok, err, out_of_fuel, ◌>>=◌, ◌>>◌, raise_if, snapshot_integrity, type_error,
}
use scitt_payload_binding.Platform.{Platform}
use scitt_payload_binding.TypedRef.Context.{ArtifactDigestContext, post_init}
use scitt_payload_binding.TypedRef.Definition.{ArtifactTypeDefinition, from_trusted_snapshot}
use scitt_payload_binding.Registry.Snapshot.{
  RegistrySnapshot, is_live_status, status_key, algorithms_key, artifact_types_key, contexts_key,
  purpose_key, nonempty_string, contexts_of,
}

pub data Verdict : Type 0 where
  verified reserved unknown_id id_unknown_to_snapshot : Verdict

-- _require_verified
unfoldable pub require_verified : RegistrySnapshot → Result (Unit {0})
require_verified snap = raise_if (not snap.verified) snapshot_integrity

-- A dict of the document; what else stands there has no `.get`, an AttributeError that the
-- integrity check excludes for the two tables.
unfoldable pub table_of : Option Value → Fields
table_of (some (obj fs)) = fs
table_of _ = no_fields

-- the verdict on a found entry
unfoldable pub entry_verdict : Fields → Result Verdict
entry_verdict entry =
    is_live_status (get status_key entry) >>= λ live. ok (if live then verified else reserved)

-- the verdict on an absent id
abbrev pub absent_verdict : Bool → Verdict
absent_verdict true = id_unknown_to_snapshot
absent_verdict false = unknown_id

-- A found entry. A JSON null counts as absent. Another value has no `.get`: AttributeError.
unfoldable pub classify : Bool → Option Value → Result (Verdict × Option Fields)
classify pinned none = ok (absent_verdict pinned, none)
classify pinned (some null) = ok (absent_verdict pinned, none)
classify pinned (some (obj entry)) = entry_verdict entry >>= λ v. ok (v, some entry)
classify pinned (some _) = err type_error

unfoldable pub lookup_in : Text → RegistrySnapshot → Text → Bool → Result (Verdict × Option Fields)
lookup_in table snap id pinned =
    require_verified snap >> classify pinned (get id (table_of (get table snap.content)))

unfoldable pub lookup_algorithm : RegistrySnapshot → Text → Bool → Result (Verdict × Option Fields)
lookup_algorithm snap id pinned = lookup_in algorithms_key snap id pinned

unfoldable pub lookup_artifact_type :
    RegistrySnapshot → Text → Bool → Result (Verdict × Option Fields)
lookup_artifact_type snap id pinned = lookup_in artifact_types_key snap id pinned

-- `by_purpose`: the supplied implementations, checked one by one
unfoldable pub by_purpose : Text → List Text → List ArtifactDigestContext → Result (Unit {0})
by_purpose type_name purposes [] = ok tt
by_purpose type_name purposes (c ∷ cs) =
    raise_if (not (text_eq c.name type_name)) snapshot_integrity
    >> (raise_if (text_in c.purpose purposes) snapshot_integrity
        >> by_purpose type_name (c.purpose ∷ purposes) cs)

-- by_purpose.get(purpose)
unfoldable pub implementation_for : Text → List ArtifactDigestContext → Option ArtifactDigestContext
implementation_for purpose [] = none
implementation_for purpose (c ∷ cs) = elim (text_eq c.purpose purpose) [
  | true ↦ some c
  | false ↦ implementation_for purpose cs
]

-- `except (TypeError, ValueError)`
unfoldable pub as_integrity {ℓ} : {A : Type ℓ} → Result A → Result A
as_integrity (ok a) = ok a
as_integrity (err e) = err snapshot_integrity
as_integrity out_of_fuel = out_of_fuel

-- the context of a registry row: metadata alone, or a matching implementation
unfoldable pub context_for :
    Text → Text → Text → Text → Option ArtifactDigestContext → Result ArtifactDigestContext
context_for type_name purpose algorithm representation none = as_integrity (
    post_init (record {
      name = type_name;
      algorithm = algorithm;
      representation = representation;
      purpose = purpose;
      whole_object_exclusion_set = none;
    }))
context_for type_name purpose algorithm representation (some c) =
    raise_if (not (text_eq c.algorithm algorithm)) snapshot_integrity
    >> (raise_if (not (text_eq c.representation representation)) snapshot_integrity >> ok c)

unfoldable pub row_context :
    Text → List ArtifactDigestContext → Value → Result ArtifactDigestContext
row_context type_name implementations (obj row) =
    nonempty_string (get purpose_key row) >>= λ purpose.
    nonempty_string (get (codes "algorithm") row) >>= λ algorithm.
    nonempty_string (get (codes "representation") row) >>= λ representation.
    context_for type_name purpose algorithm representation
      (implementation_for purpose implementations)
row_context type_name implementations _ = err snapshot_integrity

unfoldable pub row_contexts :
    Text → List ArtifactDigestContext → Items → Result (List ArtifactDigestContext)
row_contexts type_name implementations no_items = ok []
row_contexts type_name implementations (item v xs) =
    row_context type_name implementations v >>= λ c.
    row_contexts type_name implementations xs >>= λ cs. ok (c ∷ cs)

-- the purpose of some context
unfoldable pub has_purpose : List ArtifactDigestContext → Text → Bool
has_purpose [] purpose = false
has_purpose (c ∷ cs) purpose = text_eq purpose c.purpose || has_purpose cs purpose

abbrev pub live_entry : Verdict × Option Fields → Result Fields
live_entry (verified, some entry) = ok entry
live_entry (verified, none) = err snapshot_integrity
live_entry (reserved, entry) = err snapshot_integrity
live_entry (unknown_id, entry) = err snapshot_integrity
live_entry (id_unknown_to_snapshot, entry) = err snapshot_integrity

abbrev pub trusted_pin : RegistrySnapshot → Result Text
trusted_pin snap = elim snap.trusted_snapshot_sha256 [
  | none ↦ err snapshot_integrity
  | some pin ↦ ok pin
]

unfoldable pub artifact_type_definition :
    Platform → RegistrySnapshot → Text → List ArtifactDigestContext → Result ArtifactTypeDefinition
artifact_type_definition platform snap type_name implementations =
    require_verified snap
    >> (trusted_pin snap >>= λ pin. lookup_artifact_type snap type_name true >>= λ found.
        live_entry found >>= λ entry.
        by_purpose type_name [] implementations
        >> (contexts_of (get contexts_key entry) >>= λ rows.
            row_contexts type_name implementations rows >>= λ contexts.
            raise_if (not (all (λ c. has_purpose contexts c.purpose) implementations))
              snapshot_integrity
            >> from_trusted_snapshot platform contexts pin))
