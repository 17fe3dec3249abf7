-- ===== src/TypedRef/Select/Unique.antt =====
-- Which context a selection finds.
use scitt_payload_binding.Common.{
  ◌≡◌, refl, sym, subst, ◌↔◌, Bool, true, false, Text, List, [], ◌∷◌, Option, none, some, text_eq,
  text_eq_sound, text_eq_refl, is_empty, keep, All, inl, inr, Bool-cases,
}
use scitt_payload_binding.Errors.{Result, ok, err, raise_if, >>=-eq-ok, raise_if-eq-ok}
use scitt_payload_binding.TypedRef.Context.{ArtifactDigestContext}
use scitt_payload_binding.TypedRef.Select.{has_duplicate, purposes_of, only, choose, select_context}

abbrev of_type : Text → ArtifactDigestContext → Bool
of_type t entry = text_eq entry.name t

abbrev for_purpose : Text → ArtifactDigestContext → Bool
for_purpose p entry = text_eq entry.purpose p

only-eq-ok {ℓ} :
    {A : Type ℓ} (e : Result A) (xs : List A) (a : A)
    → ((b : A) → e ≡ ok b → ⊥)
    → only e xs ≡ ok a
    → xs ≡ a ∷ []
only-eq-ok e [] a raises h = absurd (raises a h)
only-eq-ok e (x ∷ []) a raises h = cc
only-eq-ok e (x ∷ y ∷ xs) a raises h = absurd (raises a h)

keep-All {ℓ} : {A : Type ℓ} (p : A → Bool) (xs : List A) → All (λ x. p x ≡ true) (keep p xs)
keep-All p [] = tt
keep-All p (x ∷ xs) = elim (Bool-cases (p x)) [
  | inl h ↦ rw (h, keep) (h, keep-All p xs)
  | inr h ↦ rw (h, keep) (keep-All p xs)
]

keep-keep-All {ℓ} :
    {A : Type ℓ} (p q : A → Bool) (xs : List A) → All (λ x. p x ≡ true) (keep q (keep p xs))
keep-keep-All p q [] = tt
keep-keep-All p q (x ∷ xs) = elim (Bool-cases (p x)) [
  | inl h ↦ elim (Bool-cases (q x)) [
    | inl k ↦ rw (h, keep, k) (h, keep-keep-All p q xs)
    | inr k ↦ rw (h, keep, k) (keep-keep-All p q xs)
  ]
  | inr h ↦ rw (h, keep) (keep-keep-All p q xs)
]

type_of_kept :
    (t : Text) (entries : List ArtifactDigestContext) (entry : ArtifactDigestContext)
    → keep (for_purpose entry.purpose) (keep (of_type t) entries) ≡ entry ∷ []
    → entry.name ≡ t
type_of_kept t entries entry h =
    let each =
      subst (All (λ x. of_type t x ≡ true)) h
        (keep-keep-All (of_type t) (for_purpose entry.purpose) entries) in
    text_eq_sound entry.name t each.0

-- The contexts of the type and of the purpose are just this one.
pub record Selected (ref_type : Text) (purpose : Option Text) (entries : List ArtifactDigestContext)
    (entry : ArtifactDigestContext) : Type 0 where
  pub same_type : entry.name ≡ ref_type
  pub sole : keep (for_purpose entry.purpose) (keep (of_type ref_type) entries) ≡ entry ∷ []
  pub distinct : has_duplicate (purposes_of (keep (of_type ref_type) entries)) ≡ false
  pub asked : (p : Text) → purpose ≡ some p → entry.purpose ≡ p
  pub unasked : purpose ≡ none → keep (of_type ref_type) entries ≡ entry ∷ []

choose-eq-ok :
    (purpose : Option Text) (candidates : List ArtifactDigestContext)
    (entry : ArtifactDigestContext)
    → choose purpose candidates ≡ ok entry
    → (keep (for_purpose entry.purpose) candidates ≡ entry ∷ [])
      × ((p : Text) → purpose ≡ some p → entry.purpose ≡ p)
      × (purpose ≡ none → candidates ≡ entry ∷ [])
unfolding choose
choose-eq-ok none candidates entry h =
    let single = only-eq-ok (err _) candidates entry (λ b e. cc) h in
    (rw (single, keep, text_eq_refl entry.purpose), (λ p e. cc), λ e. single)
choose-eq-ok (some p) candidates entry h =
    let single = only-eq-ok (err _) (keep (for_purpose p) candidates) entry (λ b e. cc) h in
    let found = rw single at (keep-All (for_purpose p) candidates) in
    let same = text_eq_sound entry.purpose p found.0 in
    (
      subst (λ q. keep (for_purpose q) candidates ≡ entry ∷ []) (sym same) single,
      (λ q e. cc),
      λ e. cc,
    )

not_empty {ℓ} :
    {A : Type ℓ} (p : A → Bool) (xs : List A) (a : A) → keep p xs ≡ a ∷ [] → is_empty xs ≡ false
not_empty p [] a h = cc
not_empty p (x ∷ xs) a h = refl

choose-Selected :
    (ref_type : Text) (purpose : Option Text) (entries : List ArtifactDigestContext)
    (entry : ArtifactDigestContext)
    → Selected ref_type purpose entries entry
    → choose purpose (keep (of_type ref_type) entries) ≡ ok entry
unfolding choose
choose-Selected ref_type none entries entry s = rw (s.unasked refl)
choose-Selected ref_type (some p) entries entry s =
    let found =
      subst (λ q. keep (for_purpose q) (keep (of_type ref_type) entries) ≡ entry ∷ [])
        (s.asked p refl) s.sole in
    rw found

-- A context is selected exactly when it is the type's only context for its purpose, no two contexts of
-- the type share a purpose, and it has the purpose asked for, or is the type's only context when no
-- purpose is asked for.
pub select_context_iff :
    (ref_type : Text) (purpose : Option Text) (entries : List ArtifactDigestContext)
    (entry : ArtifactDigestContext)
    → (select_context ref_type purpose entries ≡ ok entry) ↔ Selected ref_type purpose entries entry
unfolding select_context
select_context_iff ref_type purpose entries entry = (forward, backward)
  where
    candidates : List ArtifactDigestContext
    candidates = keep (of_type ref_type) entries

    forward :
        select_context ref_type purpose entries ≡ ok entry → Selected ref_type purpose entries entry
    forward h =
        let (_, _, h1) = >>=-eq-ok (raise_if (is_empty candidates) _) _ h in
        let (_, distinct, h2) =
          >>=-eq-ok (raise_if (has_duplicate (purposes_of candidates)) _) _ h1 in
        let (sole, asked, unasked) = choose-eq-ok purpose candidates entry h2 in
        record {
          same_type = type_of_kept ref_type entries entry sole;
          sole = sole;
          distinct = raise_if-eq-ok _ _ distinct;
          asked = asked;
          unasked = unasked;
        }

    backward :
        Selected ref_type purpose entries entry → select_context ref_type purpose entries ≡ ok entry
    backward s =
        rw (not_empty (for_purpose entry.purpose) candidates entry s.sole, s.distinct)
          (choose-Selected ref_type purpose entries entry s)

-- The selected context is found again under its own purpose.
pub select_context_again :
    (ref_type : Text) (purpose : Option Text) (entries : List ArtifactDigestContext)
    (entry : ArtifactDigestContext)
    → select_context ref_type purpose entries ≡ ok entry
    → select_context ref_type (some entry.purpose) entries ≡ ok entry
select_context_again ref_type purpose entries entry h =
    let s = (select_context_iff ref_type purpose entries entry).0 h in
    (select_context_iff ref_type (some entry.purpose) entries entry).1 (record {
      same_type = s.same_type;
      sole = s.sole;
      distinct = s.distinct;
      asked = λ p e. cc;
      unasked = λ e. cc;
    })
