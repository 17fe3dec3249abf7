-- ===== src/Check/Walk.antt =====
-- `check_p` and `_p_walk` of lib/cpb/check.py. The list that `_p_walk` appends to is its result.
use scitt_payload_binding.Common.{ℕ, ◌+◌, Text, List, [], ◌∷◌, ◌++◌, Option, none, some}
use scitt_payload_binding.Value.{
  Value, Items, Fields, null, bool, int, float, str, bytes, arr, obj, no_items, item, no_fields,
  field,
}
use scitt_payload_binding.Errors.{Detail, null_member, empty_array_member, empty_object_member}
use scitt_payload_binding.Python.{Host}
use scitt_payload_binding.Lex.Scanner.{member_path, element_path}

pub data Rule : Type 0 where
  p_rule r_rule : Rule

pub record Violation : Type 0 where
  pub path : Text
  pub rule : Rule
  pub detail : Detail

abbrev pub p_violation : Text → Detail → List Violation
p_violation path detail = record { path = path; rule = p_rule; detail = detail } ∷ []

-- the tests of `_p_walk` on a member's value
unfoldable pub member_fault : Value → Option Detail
member_fault null = some null_member
member_fault (arr no_items) = some empty_array_member
member_fault (obj no_fields) = some empty_object_member
member_fault _ = none

unfoldable mutual
  -- _p_walk
  pub p_walk : Host → Text → Value → List Violation
  p_walk host path null = []
  p_walk host path (bool b) = []
  p_walk host path (int n) = []
  p_walk host path (float tok) = []
  p_walk host path (str s) = []
  p_walk host path (bytes b) = []
  p_walk host path (arr xs) = p_items host path 0 xs
  p_walk host path (obj fs) = p_members host path fs

  pub p_items : Host → Text → ℕ → Items → List Violation
  p_items host path i no_items = []
  p_items host path i (item v xs) =
      p_walk host (element_path path i) v ++ p_items host path (i + 1) xs

  pub p_members : Host → Text → Fields → List Violation
  p_members host path no_fields = []
  p_members host path (field k v fs) =
      let at = member_path host path k in
      let inner = p_walk host at v in
      elim (member_fault v) [ some d ↦ p_violation at d | none ↦ inner ] ++ p_members host path fs

unfoldable pub check_p : Host → Text → Value → List Violation
check_p host path v = p_walk host path v
