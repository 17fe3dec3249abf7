-- ===== src/Canonicalize/Serialize/Sorted.antt =====
-- Sorting members does not depend on their order, when their keys differ.
use scitt_payload_binding.Common.{
  ◌≡◌, ◌≢◌, refl, sym, ap, ◌∙◌, true, false, Text, List, [], ◌∷◌, text_ltb, Bool-cases, inl, inr,
  ◌⊎◌, arith,
}
use scitt_payload_binding.Canonicalize.Serialize.{Member, insert_member}

text_ltb-asymmetric : (s t : Text) → text_ltb s t ≡ true → text_ltb t s ≡ false
text_ltb-asymmetric [] [] h = refl
text_ltb-asymmetric [] (d ∷ t) h = refl
text_ltb-asymmetric (c ∷ s) [] h = ground arith
text_ltb-asymmetric (c ∷ s) (d ∷ t) h = ground (arith, text_ltb-asymmetric s t)

text_ltb-total : (s t : Text) → text_ltb s t ≡ false → text_ltb t s ≡ false → s ≡ t
text_ltb-total [] [] h k = refl
text_ltb-total [] (d ∷ t) h k = ground arith
text_ltb-total (c ∷ s) [] h k = ground arith
text_ltb-total (c ∷ s) (d ∷ t) h k = ground (arith, text_ltb-total s t)

-- not (r < t) and r < s give t < s
text_ltb-between : (r s t : Text) → text_ltb r s ≡ true → text_ltb r t ≡ false → text_ltb t s ≡ true
text_ltb-between [] [] t h k = ground arith
text_ltb-between [] (d ∷ s) [] h k = refl
text_ltb-between [] (d ∷ s) (e ∷ t) h k = ground arith
text_ltb-between (c ∷ r) [] t h k = ground arith
text_ltb-between (c ∷ r) (d ∷ s) [] h k = refl
text_ltb-between (c ∷ r) (d ∷ s) (e ∷ t) h k = ground (arith, text_ltb-between r s t)

-- where a member goes in front of another, and behind one
insert_member-in-front :
    (m x : Member) (ms : List Member)
    → text_ltb x.units m.units ≡ false
    → insert_member m (x ∷ ms) ≡ m ∷ x ∷ ms
unfolding insert_member
insert_member-in-front m x ms e = rw (insert_member, e)

insert_member-behind :
    (m x : Member) (ms : List Member)
    → text_ltb x.units m.units ≡ true
    → insert_member m (x ∷ ms) ≡ x ∷ insert_member m ms
unfolding insert_member
insert_member-behind m x ms e = rw (insert_member, e)

abbrev SortsBefore : Member → Member → Type 0
SortsBefore m n = (text_ltb m.units n.units ≡ true) × (text_ltb n.units m.units ≡ false)

one_before : (m n : Member) → m.units ≢ n.units → SortsBefore m n ⊎ SortsBefore n m
one_before m n apart = elim (Bool-cases (text_ltb m.units n.units)) [
  | inl e ↦ inl (e, text_ltb-asymmetric m.units n.units e)
  | inr e ↦ elim (Bool-cases (text_ltb n.units m.units)) [
    | inl e' ↦ inr (e', e)
    | inr e' ↦ absurd (apart (text_ltb-total m.units n.units e e'))
  ]
]

text_ltb-transitive :
    (r s t : Text) → text_ltb r s ≡ true → text_ltb s t ≡ true → text_ltb r t ≡ true
text_ltb-transitive r s t h k = elim (Bool-cases (text_ltb r t)) [
  | inl e ↦ e
  | inr e ↦ cc (text_ltb-between r s t h e, text_ltb-asymmetric s t k)
]

-- Both orders of insertion, of a member that sorts before the other one.
insert_member-ordered :
    (m n : Member) (ms : List Member)
    → SortsBefore m n
    → insert_member m (insert_member n ms) ≡ insert_member n (insert_member m ms)
unfolding insert_member
insert_member-ordered m n [] (mn, nm) = rw (insert_member, mn, nm)
insert_member-ordered m n (x ∷ ms) (mn, nm) = elim (Bool-cases (text_ltb x.units m.units)) [
  | inl xm ↦
      let xn : text_ltb x.units n.units ≡ true =
        text_ltb-transitive x.units m.units n.units xm mn in
      (ap (insert_member m) (insert_member-behind n x ms xn)
        ∙ (insert_member-behind m x (insert_member n ms) xm
            ∙ ap (λ r. x ∷ r) (insert_member-ordered m n ms (mn, nm))))
      ∙ sym (
          ap (insert_member n) (insert_member-behind m x ms xm)
          ∙ insert_member-behind n x (insert_member m ms) xn)
  | inr xm ↦ elim (Bool-cases (text_ltb x.units n.units)) [
    | inl xn ↦
        (ap (insert_member m) (insert_member-behind n x ms xn)
          ∙ insert_member-in-front m x (insert_member n ms) xm)
        ∙ sym (
            ap (insert_member n) (insert_member-in-front m x ms xm)
            ∙ (insert_member-behind n m (x ∷ ms) mn
                ∙ ap (λ r. m ∷ r) (insert_member-behind n x ms xn)))
    | inr xn ↦
        (ap (insert_member m) (insert_member-in-front n x ms xn)
          ∙ insert_member-in-front m n (x ∷ ms) nm)
        ∙ sym (
            ap (insert_member n) (insert_member-in-front m x ms xm)
            ∙ (insert_member-behind n m (x ∷ ms) mn
                ∙ ap (λ r. m ∷ r) (insert_member-in-front n x ms xn)))
  ]
]

-- Two members of different keys can be inserted in either order.
pub insert_member-swap :
    (m n : Member) (ms : List Member)
    → m.units ≢ n.units
    → insert_member m (insert_member n ms) ≡ insert_member n (insert_member m ms)
insert_member-swap m n ms apart = elim (one_before m n apart) [
  | inl h ↦ insert_member-ordered m n ms h
  | inr h ↦ sym (insert_member-ordered n m ms h)
]
