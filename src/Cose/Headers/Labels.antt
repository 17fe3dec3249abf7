-- ===== src/Cose/Headers/Labels.antt =====
-- Lists of header labels that are accepted.
use scitt_payload_binding.Common.{
  ◌≡◌, ◌≢◌, refl, ap, ◌∙◌, ◌↔◌, Bool, true, false, not, List, [], ◌∷◌, Option, none, some, All,
  Bool-cases, inl, inr, subst,
}
use scitt_payload_binding.Errors.{Error, ok, raise_if, >>=-eq-ok, raise_if-eq-ok}
use scitt_payload_binding.Python.{Host}
use scitt_payload_binding.Cbor.Item.{
  Scalar, Cbor, scalar, array, map, tag, Elements, no_elements, element, Pairs, no_pairs, pair,
  contains, keys, same_key, has_same_key,
}
use scitt_payload_binding.Cose.Headers.{is_label, validate_label_map, critical_entries, critical_of}

-- no element is the same key as an earlier one
abbrev pub Apart : Host → List Scalar → Type 0
Apart host [] = Unit
Apart host (k ∷ ks) = All (λ j. same_key host j k ≡ false) ks × Apart host ks

abbrev pub Unseen : Host → List Scalar → List Scalar → Type 0
Unseen host seen ks = All (λ k. has_same_key host k seen ≡ false) ks

-- the array of some scalars
abbrev pub elements_of : List Scalar → Elements
elements_of [] = no_elements
elements_of (k ∷ ks) = element (scalar k) (elements_of ks)

Unseen-cons :
    (host : Host) (k : Scalar) (seen ks : List Scalar)
    → Unseen host (k ∷ seen) ks
    → All (λ j. same_key host j k ≡ false) ks × Unseen host seen ks
unfolding has_same_key
Unseen-cons host k seen [] h = (tt, tt)
Unseen-cons host k seen (j ∷ ks) (hj, h) =
    let (apart, unseen) = Unseen-cons host k seen ks h in
    elim (Bool-cases (same_key host j k)) [
      | inl e ↦ cc (rw (e, has_same_key) at hj)
      | inr e ↦ ((e, apart), (rw (e, has_same_key) at hj, unseen))
    ]

cons-Unseen :
    (host : Host) (k : Scalar) (seen ks : List Scalar)
    → All (λ j. same_key host j k ≡ false) ks
    → Unseen host seen ks
    → Unseen host (k ∷ seen) ks
unfolding has_same_key
cons-Unseen host k seen [] a u = tt
cons-Unseen host k seen (j ∷ ks) (aj, a) (uj, u) =
    (rw (aj, has_same_key) uj, cons-Unseen host k seen ks a u)

pub nil-Unseen : (host : Host) (ks : List Scalar) → Unseen host [] ks
unfolding has_same_key
nil-Unseen host [] = tt
nil-Unseen host (k ∷ ks) = (refl, nil-Unseen host ks)

pub raised : (b : Bool) (e : Error) → raise_if (not b) e ≡ ok tt → b ≡ true
raised true e h = refl
raised false e h = cc

abbrev pub Labels : List Scalar → Type 0
Labels ks = All (λ k. is_label k ≡ true) ks

-- A bucket is accepted exactly when its keys are labels, apart from each other and from the seen ones.
pub validate_label_map_iff :
    (host : Host) (seen : List Scalar) (ps : Pairs)
    → (validate_label_map host seen ps ≡ ok tt)
      ↔ (Labels (keys ps) × Apart host (keys ps) × Unseen host seen (keys ps))
unfolding validate_label_map keys
validate_label_map_iff host seen no_pairs = ((λ h. (tt, tt, tt)), λ h. refl)
validate_label_map_iff host seen (pair k v ps) = (
  forward (λ h. (validate_label_map_iff host (k ∷ seen) ps).0 h),
  backward (λ h. (validate_label_map_iff host (k ∷ seen) ps).1 h),
)
  where
    Fits : List Scalar → List Scalar → Type 0
    Fits before ks = Labels ks × Apart host ks × Unseen host before ks

    forward :
        (validate_label_map host (k ∷ seen) ps ≡ ok tt → Fits (k ∷ seen) (keys ps))
        → validate_label_map host seen (pair k v ps) ≡ ok tt
        → Fits seen (k ∷ keys ps)
    forward rest h =
        let (_, is, h1) = >>=-eq-ok (raise_if (not (is_label k)) _) _ h in
        let (_, fresh, h2) = >>=-eq-ok (raise_if (has_same_key host k seen) _) _ h1 in
        let (ls, aps, us) = rest h2 in
        let (apart, unseen) = Unseen-cons host k seen (keys ps) us in
        ((raised (is_label k) _ is, ls), (apart, aps), (raise_if-eq-ok _ _ fresh, unseen))

    backward :
        (Fits (k ∷ seen) (keys ps) → validate_label_map host (k ∷ seen) ps ≡ ok tt)
        → Fits seen (k ∷ keys ps)
        → validate_label_map host seen (pair k v ps) ≡ ok tt
    backward rest ((l, ls), (a, aps), (u, us)) =
        rw (l, u) (rest (ls, aps, cons-Unseen host k seen (keys ps) a us))

abbrev pub Contained : Host → Pairs → List Scalar → Type 0
Contained host ps ks = All (λ k. contains host k ps ≡ true) ks

-- What the entries of `crit` are, when they are accepted.
critical_entries-eq-ok :
    (host : Host) (ps : Pairs) (seen : List Scalar) (xs : Elements) (ks : List Scalar)
    → critical_entries host ps seen xs ≡ ok ks
    → (xs ≡ elements_of ks) × Labels ks × Apart host ks × Contained host ps ks × Unseen host seen ks
unfolding critical_entries
critical_entries-eq-ok host ps seen no_elements [] h = (refl, tt, tt, tt, tt)
critical_entries-eq-ok host ps seen no_elements (k ∷ ks) h = cc
critical_entries-eq-ok host ps seen (element (array a) xs) ks h = cc
critical_entries-eq-ok host ps seen (element (map a) xs) ks h = cc
critical_entries-eq-ok host ps seen (element (tag n a) xs) ks h = cc
critical_entries-eq-ok host ps seen (element (scalar k) xs) ks h =
    let (_, is, h1) = >>=-eq-ok (raise_if (not (is_label k)) _) _ h in
    let (_, fresh, h2) = >>=-eq-ok (raise_if (has_same_key host k seen) _) _ h1 in
    let (_, has, h3) = >>=-eq-ok (raise_if (not (contains host k ps)) _) _ h2 in
    let (js, more, last) = >>=-eq-ok (critical_entries host ps (k ∷ seen) xs) _ h3 in
    let (same, ls, aps, cs, us) = critical_entries-eq-ok host ps (k ∷ seen) xs js more in
    let (apart, unseen) = Unseen-cons host k seen js us in
    let last_same : k ∷ js ≡ ks = cc last in
    subst
      (λ rs.
        (element (scalar k) xs ≡ elements_of rs)
        × Labels rs
        × Apart host rs
        × Contained host ps rs
        × Unseen host seen rs)
      last_same
      (
        ap (element (scalar k)) same,
        (raised (is_label k) _ is, ls),
        (apart, aps),
        (raised (contains host k ps) _ has, cs),
        (raise_if-eq-ok _ _ fresh, unseen),
      )

critical_entries-elements_of :
    (host : Host) (ps : Pairs) (seen ks : List Scalar)
    → Labels ks
    → Apart host ks
    → Contained host ps ks
    → Unseen host seen ks
    → critical_entries host ps seen (elements_of ks) ≡ ok ks
unfolding critical_entries
critical_entries-elements_of host ps seen [] ls aps cs us = refl
critical_entries-elements_of host ps seen (k ∷ ks) (l, ls) (a, aps) (c, cs) (u, us) =
    rw
      (
        l,
        u,
        c,
        critical_entries-elements_of host ps (k ∷ seen) ks ls aps cs
            (cons-Unseen host k seen ks a us),
      )
      refl

pub critical_of-eq-ok :
    (host : Host) (ps : Pairs) (o : Option Cbor) (ks : List Scalar)
    → critical_of host ps o ≡ ok ks
    → (ks ≢ [])
      × (o ≡ some (array (elements_of ks)))
      × Labels ks
      × Apart host ks
      × Contained host ps ks
unfolding critical_of
critical_of-eq-ok host ps none ks h = cc
critical_of-eq-ok host ps (some (scalar a)) ks h = cc
critical_of-eq-ok host ps (some (map a)) ks h = cc
critical_of-eq-ok host ps (some (tag n a)) ks h = cc
critical_of-eq-ok host ps (some (array no_elements)) ks h = cc
critical_of-eq-ok host ps (some (array (element v xs))) ks h =
    let (same, ls, aps, cs, us) = critical_entries-eq-ok host ps [] (element v xs) ks h in
    (
      (λ empty. not_empty (same ∙ ap elements_of empty)),
      ap (λ es. some (array es)) same,
      ls,
      aps,
      cs,
    )
  where
    not_empty : element v xs ≢ no_elements
    not_empty e = cc e

pub critical_of-elements_of :
    (host : Host) (ps : Pairs) (k : Scalar) (ks : List Scalar)
    → Labels (k ∷ ks)
    → Apart host (k ∷ ks)
    → Contained host ps (k ∷ ks)
    → critical_of host ps (some (array (elements_of (k ∷ ks)))) ≡ ok (k ∷ ks)
unfolding critical_of
critical_of-elements_of host ps k ks ls aps cs =
    critical_entries-elements_of host ps [] (k ∷ ks) ls aps cs (nil-Unseen host (k ∷ ks))
