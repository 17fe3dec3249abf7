-- ===== src/Registry/Snapshot.antt =====
-- `_object_without_duplicate_keys`, `RegistrySnapshot` and its integrity check, of
-- lib/cpb/registry.py. The JSON parser and `json.dumps` of the document body are parameters.
pub mod Live
pub mod Verified
use scitt_payload_binding.Common.{
  Bool, true, false, not, Text, Bytes, List, [], ◌∷◌, Option, none, some, if◌then◌else◌, codes,
  text_eq, text_in,
}
use scitt_payload_binding.Value.{
  Value, Items, Fields, str, arr, obj, no_items, item, no_fields, field, get, has_key, set,
  without_keys,
}
use scitt_payload_binding.Errors.{
  Result, ok, err, ◌>>=◌, ◌>>◌, raise_if, snapshot_integrity, type_error,
}
use scitt_payload_binding.Platform.{Platform}
use scitt_payload_binding.Canonicalize.Digest.{hex}
use scitt_payload_binding.TypedRef.Hex.{is_bare_hex_256}

abbrev pub live_statuses : List Text
live_statuses =
    codes "Registered"
    ∷ codes "owner-confirmed"
    ∷ codes "third-party-documented"
    ∷ codes "standards-referenced"
    ∷ []

-- _object_without_duplicate_keys, over the pairs of one object and the dict built so far
unfoldable pub object_without_duplicate_keys : Fields → Fields → Result Fields
object_without_duplicate_keys result no_fields = ok result
object_without_duplicate_keys result (field k v pairs) =
    raise_if (has_key k result) snapshot_integrity
    >> object_without_duplicate_keys (set k v result) pairs

pub record RegistrySnapshot : Type 0 where
  pub content : Fields
  pub verified : Bool
  pub trusted_snapshot_sha256 : Option Text

-- `entry.get("status") in _LIVE_STATUSES`; an array or an object is not hashable
unfoldable pub is_live_status : Option Value → Result Bool
is_live_status (some (str s)) = ok (text_in s live_statuses)
is_live_status (some (arr xs)) = err type_error
is_live_status (some (obj fs)) = err type_error
is_live_status _ = ok false

abbrev pub schema_version_key : Text
schema_version_key = codes "schema_version"

abbrev pub algorithms_key : Text
algorithms_key = codes "canonicalization_algorithms"

abbrev pub artifact_types_key : Text
artifact_types_key = codes "artifact_types"

abbrev pub snapshot_key : Text
snapshot_key = codes "snapshot_sha256"

abbrev pub contexts_key : Text
contexts_key = codes "digest_contexts"

abbrev pub status_key : Text
status_key = codes "status"

abbrev pub purpose_key : Text
purpose_key = codes "purpose"

-- `== "1"`
unfoldable pub is_version_one : Option Value → Bool
is_version_one (some (str s)) = text_eq s (codes "1")
is_version_one _ = false

unfoldable pub object_of : Option Value → Result Fields
object_of (some (obj fs)) = ok fs
object_of _ = err snapshot_integrity

-- a non-empty array
unfoldable pub contexts_of : Option Value → Result Items
contexts_of (some (arr (item v xs))) = ok (item v xs)
contexts_of _ = err snapshot_integrity

-- a non-empty string
unfoldable pub nonempty_string : Option Value → Result Text
nonempty_string (some (str (c ∷ s))) = ok (c ∷ s)
nonempty_string _ = err snapshot_integrity

-- 64 lowercase hexadecimal characters
unfoldable pub digest_string : Option Value → Result Text
digest_string (some (str s)) = if is_bare_hex_256 s then ok s else err snapshot_integrity
digest_string _ = err snapshot_integrity

-- the contexts of a live entry: objects whose purposes are texts, and distinct
unfoldable pub check_live_contexts : List Text → Items → Result (Unit {0})
check_live_contexts purposes no_items = ok tt
check_live_contexts purposes (item (obj context) xs) =
    nonempty_string (get purpose_key context) >>= λ purpose.
    raise_if (text_in purpose purposes) snapshot_integrity
    >> check_live_contexts (purpose ∷ purposes) xs
check_live_contexts purposes (item _ xs) = err snapshot_integrity

-- the checks on one entry of `artifact_types`
unfoldable pub check_type_entry : Value → Result (Unit {0})
check_type_entry (obj entry) = contexts_of (get contexts_key entry) >>= λ contexts.
    is_live_status (get status_key entry) >>= λ live.
    if live then check_live_contexts [] contexts else ok tt
check_type_entry _ = err snapshot_integrity

unfoldable pub check_type_entries : Fields → Result (Unit {0})
check_type_entries no_fields = ok tt
check_type_entries (field k v fs) = check_type_entry v >> check_type_entries fs

-- `json.dumps(body, sort_keys=True, separators=(",", ":"), ensure_ascii=True)` of the whole body
abbrev pub BodyDumps : Type 0
BodyDumps = Value → Bytes

-- _compute_body_sha256
unfoldable pub compute_body_sha256 : Platform → BodyDumps → Fields → Text
compute_body_sha256 platform dumps content =
    hex (platform.sha256 (dumps (obj (without_keys (snapshot_key ∷ []) content))))

-- compute_snapshot_sha256
unfoldable pub compute_snapshot_sha256 : Platform → BodyDumps → Fields → Text
compute_snapshot_sha256 platform dumps content = compute_body_sha256 platform dumps content

-- `expected_sha256 is not None and actual != expected_sha256`
abbrev pub pin_differs : Option Text → Text → Bool
pin_differs none actual = false
pin_differs (some expected) actual = not (text_eq actual expected)

-- RegistrySnapshot(data)
abbrev pub init : Fields → RegistrySnapshot
init content = record { content = content; verified = false; trusted_snapshot_sha256 = none }

-- _verify_integrity, on a new snapshot
unfoldable pub verify_integrity :
    Platform → BodyDumps → Option Text → Fields → Result RegistrySnapshot
verify_integrity platform dumps expected_sha256 content =
    raise_if (not (is_version_one (get schema_version_key content))) snapshot_integrity
    >> (object_of (get algorithms_key content) >>= λ _.
        object_of (get artifact_types_key content) >>= λ types.
        digest_string (get snapshot_key content) >>= λ expected.
        let actual = compute_body_sha256 platform dumps content in
        raise_if (not (text_eq actual expected)) snapshot_integrity
        >> (raise_if (pin_differs expected_sha256 actual) snapshot_integrity
            >> (check_type_entries types
                >> ok (record {
                  content = content;
                  verified = true;
                  trusted_snapshot_sha256 = elim expected_sha256 [
                    | none ↦ none
                    | some e ↦ some actual
                  ];
                }))))

-- from_dict
unfoldable pub from_dict :
    Platform → BodyDumps → Bool → Option Text → Fields → Result RegistrySnapshot
from_dict platform dumps verify expected_sha256 content =
    if verify then verify_integrity platform dumps expected_sha256 content else ok (init content)
