-- ===== src/Check/NormalForm.antt =====
-- The P walk against normalization.
use scitt_payload_binding.Common.{
  ℕ, ◌+◌, ◌≡◌, refl, ◌↔◌, false, Text, List, [], ◌∷◌, ◌++◌, Option, none, some,
}
use scitt_payload_binding.Value.{
  Value, Items, Fields, null, bool, int, float, str, bytes, arr, obj, no_items, item, no_fields,
  field,
}
use scitt_payload_binding.Errors.{Detail}
use scitt_payload_binding.Python.{Host}
use scitt_payload_binding.Lex.Scanner.{member_path, element_path}
use scitt_payload_binding.Canonicalize.Normalize.{is_absent, normalize}
use scitt_payload_binding.Canonicalize.Normalize.Fixed.{
  IsNormal, AreNormal, HaveNormal, normalize-eq_self_iff,
}
use scitt_payload_binding.Check.Walk.{
  Violation, p_violation, member_fault, p_walk, p_items, p_members, check_p,
}

append-eq-nil : (xs ys : List Violation) → xs ++ ys ≡ [] → (xs ≡ []) × (ys ≡ [])
append-eq-nil [] ys h = (refl, h)
append-eq-nil (x ∷ xs) ys h = cc

fault-none : (v : Value) → is_absent v ≡ false → member_fault v ≡ none
unfolding is_absent member_fault
fault-none null h = cc
fault-none (arr no_items) h = cc
fault-none (obj no_fields) h = cc
fault-none _ h = refl

none-fault : (v : Value) → member_fault v ≡ none → is_absent v ≡ false
unfolding is_absent member_fault
none-fault null h = cc
none-fault (arr no_items) h = cc
none-fault (obj no_fields) h = cc
none-fault _ h = refl

-- a faulty member adds a violation
no_fault :
    (path : Text) (f : Option Detail) (inner : List Violation)
    → elim f [ some d ↦ p_violation path d | none ↦ inner ] ≡ []
    → (f ≡ none) × (inner ≡ [])
no_fault path none inner h = (refl, h)
no_fault path (some d) inner h = cc

mutual
  unfolding p_walk

  walk-IsNormal : (host : Host) (path : Text) (v : Value) → p_walk host path v ≡ [] → IsNormal v
  walk-IsNormal host path null h = tt
  walk-IsNormal host path (bool b) h = tt
  walk-IsNormal host path (int n) h = tt
  walk-IsNormal host path (float tok) h = tt
  walk-IsNormal host path (str s) h = tt
  walk-IsNormal host path (bytes b) h = tt
  walk-IsNormal host path (arr xs) h = walk-AreNormal host path 0 xs h
  walk-IsNormal host path (obj fs) h = walk-HaveNormal host path fs h

  walk-AreNormal :
      (host : Host) (path : Text) (i : ℕ) (xs : Items) → p_items host path i xs ≡ [] → AreNormal xs
  walk-AreNormal host path i no_items h = tt
  walk-AreNormal host path i (item v xs) h =
      let (hv, hs) =
        append-eq-nil (p_walk host (element_path path i) v) (p_items host path (i + 1) xs) h in
      (walk-IsNormal host (element_path path i) v hv, walk-AreNormal host path (i + 1) xs hs)

  walk-HaveNormal :
      (host : Host) (path : Text) (fs : Fields) → p_members host path fs ≡ [] → HaveNormal fs
  walk-HaveNormal host path no_fields h = tt
  walk-HaveNormal host path (field k v fs) h =
      let (hv, hs) = append-eq-nil _ (p_members host path fs) h in
      let (hf, hw) =
        no_fault (member_path host path k) (member_fault v)
          (p_walk host (member_path host path k) v) hv in
      (
        none-fault v hf,
        walk-IsNormal host (member_path host path k) v hw,
        walk-HaveNormal host path fs hs,
      )

mutual
  unfolding p_walk

  IsNormal-walk : (host : Host) (path : Text) (v : Value) → IsNormal v → p_walk host path v ≡ []
  IsNormal-walk host path null h = refl
  IsNormal-walk host path (bool b) h = refl
  IsNormal-walk host path (int n) h = refl
  IsNormal-walk host path (float tok) h = refl
  IsNormal-walk host path (str s) h = refl
  IsNormal-walk host path (bytes b) h = refl
  IsNormal-walk host path (arr xs) h = AreNormal-walk host path 0 xs h
  IsNormal-walk host path (obj fs) h = HaveNormal-walk host path fs h

  AreNormal-walk :
      (host : Host) (path : Text) (i : ℕ) (xs : Items) → AreNormal xs → p_items host path i xs ≡ []
  AreNormal-walk host path i no_items h = refl
  AreNormal-walk host path i (item v xs) (hv, hs) =
      rw (IsNormal-walk host (element_path path i) v hv) (AreNormal-walk host path (i + 1) xs hs)

  HaveNormal-walk :
      (host : Host) (path : Text) (fs : Fields) → HaveNormal fs → p_members host path fs ≡ []
  HaveNormal-walk host path no_fields h = refl
  HaveNormal-walk host path (field k v fs) (present, hv, hs) =
      rw (fault-none v present, IsNormal-walk host (member_path host path k) v hv)
        (HaveNormal-walk host path fs hs)

-- The P rule finds no violation in a value exactly when normalization leaves the value as it is,
-- whatever the path that the walk starts from.
pub check_p-nil_iff :
    (host : Host) (path : Text) (v : Value) → (check_p host path v ≡ []) ↔ (normalize v ≡ v)
unfolding check_p
check_p-nil_iff host path v = (
  (λ h. (normalize-eq_self_iff v).1 (walk-IsNormal host path v h)),
  λ h. IsNormal-walk host path v ((normalize-eq_self_iff v).0 h),
)
