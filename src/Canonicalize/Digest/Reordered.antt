-- ===== src/Canonicalize/Digest/Reordered.antt =====
-- A jcs-n digest does not depend on the order of members.
use scitt_payload_binding.Common.{
  ◌≡◌, refl, ap, ◌∙◌, subst, Bool, true, false, Text, List, [], ◌∷◌, text_eq, text_in,
}
use scitt_payload_binding.Value.{Value, Items, Fields, obj, no_fields, field, without_keys}
use scitt_payload_binding.Value.Reorder.{
  Same, SameItems, SameFields, itself, arrays, objects, same_end, same_item, same_none, same_field,
  swapped, in_turn,
}
use scitt_payload_binding.Errors.{ok, ◌>>=◌}
use scitt_payload_binding.Platform.{Platform}
use scitt_payload_binding.Canonicalize.Normalize.{
  is_absent, normalize, normalize_items, normalize_fields,
}
use scitt_payload_binding.Canonicalize.Serialize.{encode_utf8, jcs_n}
use scitt_payload_binding.Canonicalize.Serialize.Reordered.{jcs_n_value-Same}
use scitt_payload_binding.Canonicalize.Digest.{
  jcs_n_name, exclude, pre_image, raw_digest, hex, canonical_digest,
}

SameFields-itself : (fs : Fields) → SameFields fs fs
SameFields-itself no_fields = same_none
SameFields-itself (field k v fs) = same_field itself (SameFields-itself fs)

absent_fields : {fs gs : Fields} → SameFields fs gs → is_absent (obj fs) ≡ is_absent (obj gs)
unfolding is_absent
absent_fields same_none = refl
absent_fields (same_field h hs) = refl
absent_fields (swapped differ) = refl
absent_fields (in_turn h k) = absent_fields h ∙ absent_fields k

is_absent-Same : {v w : Value} → Same v w → is_absent v ≡ is_absent w
unfolding is_absent
is_absent-Same itself = refl
is_absent-Same (arrays same_end) = refl
is_absent-Same (arrays (same_item h hs)) = refl
is_absent-Same (objects h) = absent_fields h

-- what normalization makes of a member
kept : Bool → Text → Value → Fields → Fields
kept drops k v fs = elim drops [ true ↦ fs | false ↦ field k v fs ]

kept-Same :
    (b : Bool) (k : Text) (v w : Value) (fs gs : Fields)
    → Same v w
    → SameFields fs gs
    → SameFields (kept b k v fs) (kept b k w gs)
unfolding kept
kept-Same true k v w fs gs h hs = hs
kept-Same false k v w fs gs h hs = same_field h hs

kept-swapped :
    (b c : Bool) (j k : Text) (v w : Value) (fs : Fields)
    → text_eq j k ≡ false
    → SameFields (kept b j v (kept c k w fs)) (kept c k w (kept b j v fs))
unfolding kept
kept-swapped true true j k v w fs differ = SameFields-itself fs
kept-swapped true false j k v w fs differ = SameFields-itself (field k w fs)
kept-swapped false true j k v w fs differ = SameFields-itself (field j v fs)
kept-swapped false false j k v w fs differ = swapped differ

mutual
  unfolding normalize kept

  normalize-Same : {v w : Value} → Same v w → Same (normalize v) (normalize w)
  normalize-Same itself = itself
  normalize-Same (arrays h) = arrays (normalize_items-Same h)
  normalize-Same (objects h) = objects (normalize_fields-Same h)

  normalize_items-Same :
      {xs ys : Items} → SameItems xs ys → SameItems (normalize_items xs) (normalize_items ys)
  normalize_items-Same same_end = same_end
  normalize_items-Same (same_item h hs) = same_item (normalize-Same h) (normalize_items-Same hs)

  normalize_fields-Same :
      {fs gs : Fields} → SameFields fs gs → SameFields (normalize_fields fs) (normalize_fields gs)
  normalize_fields-Same same_none = same_none
  normalize_fields-Same (same_field {k} {v} {w} {fs} {gs} h hs) =
      let nh = normalize-Same h in
      let step =
        kept-Same (is_absent (normalize v)) k (normalize v) (normalize w) (normalize_fields fs)
          (normalize_fields gs) nh (normalize_fields-Same hs) in
      subst
        (λ b.
          SameFields (kept (is_absent (normalize v)) k (normalize v) (normalize_fields fs))
            (kept b k (normalize w) (normalize_fields gs)))
        (is_absent-Same nh) step
  normalize_fields-Same (swapped {j} {k} {v} {w} {fs} differ) =
      kept-swapped (is_absent (normalize v)) (is_absent (normalize w)) j k (normalize v)
        (normalize w) (normalize_fields fs) differ
  normalize_fields-Same (in_turn h k) = in_turn (normalize_fields-Same h) (normalize_fields-Same k)

without_keys-Same :
    {fs gs : Fields} (excluded : List Text)
    → SameFields fs gs
    → SameFields (without_keys excluded fs) (without_keys excluded gs)
unfolding without_keys kept
without_keys-Same excluded same_none = same_none
without_keys-Same excluded (same_field {k} {v} {w} {fs} {gs} h hs) =
    kept-Same (text_in k excluded) k v w (without_keys excluded fs) (without_keys excluded gs) h
      (without_keys-Same excluded hs)
without_keys-Same excluded (swapped {j} {k} {v} {w} {fs} differ) =
    kept-swapped (text_in j excluded) (text_in k excluded) j k v w (without_keys excluded fs) differ
without_keys-Same excluded (in_turn h k) =
    in_turn (without_keys-Same excluded h) (without_keys-Same excluded k)

exclude-Same :
    (excluded : List Text) (v w : Value) → Same v w → Same (exclude excluded v) (exclude excluded w)
unfolding exclude
exclude-Same excluded v w itself = itself
exclude-Same excluded v w (arrays h) = arrays h
exclude-Same [] v w (objects h) = objects h
exclude-Same (t ∷ ts) v w (objects h) = objects (without_keys-Same (t ∷ ts) h)

-- Values that differ only in the order of the members of their objects, at any depth, have the same
-- jcs-n digest under any exclusion set, or are refused with the same error.
pub canonical_digest-Same :
    (platform : Platform) (excluded : List Text) (v w : Value)
    → Same v w
    → canonical_digest platform jcs_n_name excluded v
      ≡ canonical_digest platform jcs_n_name excluded w
unfolding canonical_digest raw_digest pre_image jcs_n
canonical_digest-Same platform excluded v w h =
    ap (λ r. ((r >>= encode_utf8) >>= λ b. ok (platform.sha256 b)) >>= λ d. ok (hex d))
      (jcs_n_value-Same (normalize (exclude excluded v)) (normalize (exclude excluded w))
        (normalize-Same (exclude-Same excluded v w h)))
