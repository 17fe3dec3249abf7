-- ===== src/Vectors/Contexts.antt =====
-- Digest contexts in .github/check_vectors.py: `_digest_context_entries` and
-- `_resolve_digest_context`.
pub mod Resolved
use scitt_payload_binding.Common.{
  Bool, false, Text, List, [], ◌∷◌, Option, none, some, codes, text_eq, keep,
}
use scitt_payload_binding.Value.{Value, null, str, arr, obj, Items, no_items, item, Fields, get}
use scitt_payload_binding.Errors.{Result, ok, err, ◌>>=◌, value_error}
use scitt_payload_binding.TypedRef.Select.{only}

-- `context.get(key)` is a non-empty string, which is the result
unfoldable pub nonempty_string : Option Value → Result Text
nonempty_string (some (str (c ∷ s))) = ok (c ∷ s)
nonempty_string _ = err value_error

-- the checks on one context, which is the result
unfoldable pub context_entry : Value → Result Fields
context_entry (obj fs) = nonempty_string (get (codes "purpose") fs) >>= λ _.
    nonempty_string (get (codes "algorithm") fs) >>= λ _. ok fs
context_entry _ = err value_error

unfoldable pub context_entries : Items → Result (List Fields)
context_entries no_items = ok []
context_entries (item v vs) =
    context_entry v >>= λ entry. context_entries vs >>= λ entries. ok (entry ∷ entries)

unfoldable pub digest_context_entries : Value → Result (List Fields)
digest_context_entries (arr (item v vs)) = context_entries (item v vs)
digest_context_entries _ = err value_error

-- `context["purpose"] == purpose`
unfoldable pub has_purpose : Text → Fields → Bool
has_purpose purpose context = elim (get (codes "purpose") context) [
  | some (str t) ↦ text_eq t purpose
  | _ ↦ false
]

-- the choice among the validated entries
unfoldable pub resolve_entries : Value → List Fields → Result Fields
resolve_entries null entries = only (err value_error) entries
resolve_entries (str (c ∷ s)) entries = only (err value_error) (keep (has_purpose (c ∷ s)) entries)
resolve_entries _ entries = err value_error

unfoldable pub resolve_digest_context : Value → Value → Result Fields
resolve_digest_context purpose contexts =
    digest_context_entries contexts >>= resolve_entries purpose
