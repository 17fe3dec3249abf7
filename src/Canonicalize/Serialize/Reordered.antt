-- ===== src/Canonicalize/Serialize/Reordered.antt =====
-- The serialized form does not depend on the order of members.
use scitt_payload_binding.Common.{
  ◌≡◌, ◌≢◌, refl, sym, ap, ◌∙◌, Bool, true, false, Text, Bytes, List, [], ◌∷◌, ◌++◌, Option, none,
  some, text_eq, text_eq_complete, if◌then◌else◌,
}
use scitt_payload_binding.Value.{Value, Items, Fields, obj, field}
use scitt_payload_binding.Value.Reorder.{
  Same, SameItems, SameFields, itself, arrays, objects, same_end, same_item, same_none, same_field,
  swapped, in_turn,
}
use scitt_payload_binding.Errors.{Result, ok, err, out_of_fuel, ◌>>=◌, unicode_error}
use scitt_payload_binding.Unicode.{utf16_encode}
use scitt_payload_binding.Unicode.Utf16.{utf16_encode-injective}
use scitt_payload_binding.Canonicalize.Serialize.{
  Member, insert_member, sort_members, member, join_members, serialize_object, jcs_n_value,
  jcs_n_items, jcs_n_members,
}
use scitt_payload_binding.Canonicalize.Serialize.Sorted.{insert_member-swap}

sorted_of : Result (List Member) → Result (List Member)
sorted_of r = r >>= λ ms. ok (sort_members ms)

serialize_object-sorted_of :
    (r : Result (List Member))
    → serialize_object r
      ≡ (sorted_of r >>= λ ms. join_members true ms >>= λ t. ok (b'{' ∷ (t ++ (b'}' ∷ []))))
unfolding serialize_object sorted_of
serialize_object-sorted_of (ok ms) = refl
serialize_object-sorted_of (err e) = refl
serialize_object-sorted_of out_of_fuel = refl

-- what a member adds to the sorted ones
add_sorted : Text → Option Bytes → Result Text → Result (List Member) → Result (List Member)
add_sorted k none v r = err unicode_error
add_sorted k (some units) v r =
    r >>= λ ms. ok (insert_member (record { key = k; units = units; value = v }) ms)

sorted_of-member :
    (k : Text) (units : Option Bytes) (v : Result Text) (r : Result (List Member))
    → sorted_of (member k units v r) ≡ add_sorted k units v (sorted_of r)
unfolding sorted_of add_sorted member sort_members
sorted_of-member k none v r = refl
sorted_of-member k (some u) v (ok ms) = refl
sorted_of-member k (some u) v (err e) = refl
sorted_of-member k (some u) v out_of_fuel = refl

add_sorted-refused :
    (k : Text) (o : Option Bytes) (v : Result Text)
    → add_sorted k o v (err unicode_error) ≡ err unicode_error
unfolding add_sorted
add_sorted-refused k none v = refl
add_sorted-refused k (some u) v = refl

add_sorted-apart :
    (j k : Text) (o o' : Option Bytes) (v w : Result Text) (r : Result (List Member))
    → ((u u' : Bytes) → o ≡ some u → o' ≡ some u' → u ≢ u')
    → add_sorted j o v (add_sorted k o' w r) ≡ add_sorted k o' w (add_sorted j o v r)
unfolding add_sorted
add_sorted-apart j k none o' v w r apart = sym (add_sorted-refused k o' w)
add_sorted-apart j k (some u) none v w r apart = refl
add_sorted-apart j k (some u) (some u') v w (err e) apart = refl
add_sorted-apart j k (some u) (some u') v w out_of_fuel apart = refl
add_sorted-apart j k (some u) (some u') v w (ok ms) apart = ap ok (
    insert_member-swap (record { key = j; units = u; value = v })
      (record { key = k; units = u'; value = w }) ms (apart u u' refl refl))

units_apart :
    (j k : Text)
    → text_eq j k ≡ false
    → (u u' : Bytes) → utf16_encode j ≡ some u
    → utf16_encode k ≡ some u'
    → u ≢ u'
units_apart j k differ u u' hj hk same =
    let equal : j ≡ k = utf16_encode-injective j k u' (hj ∙ ap some same) hk in
    cc (text_eq_complete j k equal, differ)

sorted_members : Fields → Result (List Member)
sorted_members fs = sorted_of (jcs_n_members fs)

sorted_members-field :
    (k : Text) (v : Value) (fs : Fields)
    → sorted_members (field k v fs)
      ≡ add_sorted k (utf16_encode k) (jcs_n_value v) (sorted_members fs)
unfolding sorted_members jcs_n_value
sorted_members-field k v fs = sorted_of-member k (utf16_encode k) (jcs_n_value v) (jcs_n_members fs)

sorted_members-two :
    (j k : Text) (v w : Value) (fs : Fields)
    → sorted_members (field j v (field k w fs))
      ≡ add_sorted j
          (utf16_encode j)
          (jcs_n_value v)
          (add_sorted k (utf16_encode k) (jcs_n_value w) (sorted_members fs))
sorted_members-two j k v w fs =
    sorted_members-field j v (field k w fs)
    ∙ ap (add_sorted j (utf16_encode j) (jcs_n_value v)) (sorted_members-field k w fs)

object_value :
    (fs gs : Fields)
    → sorted_members fs ≡ sorted_members gs
    → jcs_n_value (obj fs) ≡ jcs_n_value (obj gs)
unfolding sorted_members jcs_n_value
object_value fs gs h =
    serialize_object-sorted_of (jcs_n_members fs)
    ∙ (ap (λ r. r >>= λ ms. join_members true ms >>= λ t. ok (b'{' ∷ (t ++ (b'}' ∷ [])))) h
        ∙ sym (serialize_object-sorted_of (jcs_n_members gs)))

mutual
  unfolding jcs_n_value

  value-Same : {v w : Value} → Same v w → jcs_n_value v ≡ jcs_n_value w
  value-Same itself = refl
  value-Same (arrays {xs} {ys} h) =
      ap (λ r. r >>= λ t. ok (b'[' ∷ (t ++ (b']' ∷ [])))) (items-Same true h)
  value-Same (objects {fs} {gs} h) = object_value fs gs (fields-Same h)

  items-Same :
      {xs ys : Items} (first : Bool) → SameItems xs ys → jcs_n_items first xs ≡ jcs_n_items first ys
  items-Same first same_end = refl
  items-Same first (same_item {v} {w} {xs} {ys} h hs) =
      ap
        (λ r. r >>= λ t.
          jcs_n_items false xs >>= λ rest. ok ((if first then [] else b',' ∷ []) ++ (t ++ rest)))
        (value-Same h)
      ∙ ap
          (λ r. jcs_n_value w >>= λ t.
            r >>= λ rest. ok ((if first then [] else b',' ∷ []) ++ (t ++ rest)))
          (items-Same false hs)

  fields-Same : {fs gs : Fields} → SameFields fs gs → sorted_members fs ≡ sorted_members gs
  fields-Same same_none = refl
  fields-Same (same_field {k} {v} {w} {fs} {gs} h hs) =
      sorted_members-field k v fs
      ∙ (ap (λ r. add_sorted k (utf16_encode k) r (sorted_members fs)) (value-Same h)
          ∙ (ap (add_sorted k (utf16_encode k) (jcs_n_value w)) (fields-Same hs)
              ∙ sym (sorted_members-field k w gs)))
  fields-Same (swapped {j} {k} {v} {w} {fs} differ) =
      sorted_members-two j k v w fs
      ∙ (add_sorted-apart j k (utf16_encode j) (utf16_encode k) (jcs_n_value v) (jcs_n_value w)
            (sorted_members fs) (units_apart j k differ)
          ∙ sym (sorted_members-two k j w v fs))
  fields-Same (in_turn h k) = fields-Same h ∙ fields-Same k

-- the same values are serialized to the same text
pub jcs_n_value-Same : (v w : Value) → Same v w → jcs_n_value v ≡ jcs_n_value w
jcs_n_value-Same v w h = value-Same h
