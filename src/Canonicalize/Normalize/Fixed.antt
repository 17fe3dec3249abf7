-- ===== src/Canonicalize/Normalize/Fixed.antt =====
-- Normalization reaches a fixed point at once.
use scitt_payload_binding.Common.{
  ◌≡◌, refl, ap, subst, ◌↔◌, true, false, Text, inl, inr, Bool-cases, arith,
}
use scitt_payload_binding.Value.{
  Value, Items, Fields, null, bool, int, float, str, bytes, arr, obj, no_items, item, no_fields,
  field,
}
use scitt_payload_binding.Canonicalize.Normalize.{
  is_absent, normalize, normalize_items, normalize_fields,
}

-- No object anywhere in the value, not even inside an array, has a member that is null, an empty
-- array or an empty object.
abbrev mutual
  pub IsNormal : Value → Type 0
  IsNormal null = Unit {0}
  IsNormal (bool b) = Unit {0}
  IsNormal (int n) = Unit {0}
  IsNormal (float tok) = Unit {0}
  IsNormal (str s) = Unit {0}
  IsNormal (bytes b) = Unit {0}
  IsNormal (arr xs) = AreNormal xs
  IsNormal (obj fs) = HaveNormal fs

  pub AreNormal : Items → Type 0
  AreNormal no_items = Unit {0}
  AreNormal (item v xs) = IsNormal v × AreNormal xs

  pub HaveNormal : Fields → Type 0
  HaveNormal no_fields = Unit {0}
  HaveNormal (field k v fs) = (is_absent v ≡ false) × IsNormal v × HaveNormal fs

keep_member :
    (k : Text) (v : Value) (fs : Fields)
    → IsNormal v
    → HaveNormal fs
    → HaveNormal (elim (is_absent v) [ true ↦ fs | false ↦ field k v fs ])
keep_member k v fs n ns = elim (Bool-cases (is_absent v)) [
  | inl absent ↦ rw absent ns
  | inr present ↦ rw present (present, n, ns)
]

mutual
  unfolding normalize

  normal-normalize : (v : Value) → IsNormal v → normalize v ≡ v
  normal-normalize null n = refl
  normal-normalize (bool b) n = refl
  normal-normalize (int k) n = refl
  normal-normalize (float tok) n = refl
  normal-normalize (str s) n = refl
  normal-normalize (bytes b) n = refl
  normal-normalize (arr xs) n = ap arr (normal-normalize_items xs n)
  normal-normalize (obj fs) n = ap obj (normal-normalize_fields fs n)

  normal-normalize_items : (xs : Items) → AreNormal xs → normalize_items xs ≡ xs
  normal-normalize_items no_items n = refl
  normal-normalize_items (item v xs) (nv, nxs) =
      cc (normal-normalize v nv, normal-normalize_items xs nxs)

  normal-normalize_fields : (fs : Fields) → HaveNormal fs → normalize_fields fs ≡ fs
  normal-normalize_fields no_fields n = refl
  normal-normalize_fields (field k v fs) (present, nv, nfs) =
      ground (arith, normal-normalize v nv, normal-normalize_fields fs nfs)

mutual
  unfolding normalize is_absent

  normalize-IsNormal : (v : Value) → IsNormal (normalize v)
  normalize-IsNormal null = tt
  normalize-IsNormal (bool b) = tt
  normalize-IsNormal (int k) = tt
  normalize-IsNormal (float tok) = tt
  normalize-IsNormal (str s) = tt
  normalize-IsNormal (bytes b) = tt
  normalize-IsNormal (arr xs) = normalize_items-AreNormal xs
  normalize-IsNormal (obj fs) = normalize_fields-HaveNormal fs

  normalize_items-AreNormal : (xs : Items) → AreNormal (normalize_items xs)
  normalize_items-AreNormal no_items = tt
  normalize_items-AreNormal (item v xs) = (normalize-IsNormal v, normalize_items-AreNormal xs)

  normalize_fields-HaveNormal : (fs : Fields) → HaveNormal (normalize_fields fs)
  normalize_fields-HaveNormal no_fields = tt
  normalize_fields-HaveNormal (field k v fs) =
      keep_member k (normalize v) (normalize_fields fs) (normalize-IsNormal v)
        (normalize_fields-HaveNormal fs)

-- A value is a fixed point of normalization exactly when it is in normal form.
pub normalize-eq_self_iff : (v : Value) → (normalize v ≡ v) ↔ IsNormal v
normalize-eq_self_iff v = ((λ e. subst IsNormal e (normalize-IsNormal v)), normal-normalize v)

-- Normalizing a second time changes nothing.
pub normalize_idem : (v : Value) → normalize (normalize v) ≡ normalize v
normalize_idem v = normal-normalize (normalize v) (normalize-IsNormal v)
