-- ===== src/Registry/Lookup/Rows.antt =====
-- The contexts that the rows of an entry give, with the implementations that were supplied.
use scitt_payload_binding.Common.{
  not-false, ◌≡◌, ◌≢◌, refl, sym, ap, ◌∙◌, subst, ◌⊎◌, inl, inr, true, false, ◌||◌, not, Text, List,
  [], ◌∷◌, map, Option, none, some, codes, text_eq, text_eq_sound, text_eq_refl, text_in, is_empty,
  All, All-map, all, all-All, Among, Distinct, All-Among, Among-All, Bool-cases,
}
use scitt_payload_binding.Value.{Value, Items, Fields, str, obj, no_items, item, get}
use scitt_payload_binding.Errors.{
  Result, ok, err, out_of_fuel, raise_if, >>=-eq-ok, raise_if-eq-ok, value_error,
}
use scitt_payload_binding.TypedRef.Context.{
  ArtifactDigestContext, post_init, representations, has_empty_member,
}
use scitt_payload_binding.Registry.Snapshot.{purpose_key, nonempty_string}
use scitt_payload_binding.Registry.Snapshot.Live.{nonempty_string-eq-ok, text_in-later}
use scitt_payload_binding.Registry.Lookup.{
  by_purpose, implementation_for, as_integrity, context_for, row_context, row_contexts, has_purpose,
}

-- The context has the type's name and the row's purpose, algorithm and representation; it is a
-- supplied implementation, or metadata alone for a purpose without one.
pub record RowContext (type_name : Text) (implementations : List ArtifactDigestContext) (v : Value)
    (c : ArtifactDigestContext) : Type 0 where
  pub row : Fields
  pub is_object : v ≡ obj row
  pub same_name : c.name ≡ type_name
  pub same_purpose : get purpose_key row ≡ some (str c.purpose)
  pub same_algorithm : get (codes "algorithm") row ≡ some (str c.algorithm)
  pub same_representation : get (codes "representation") row ≡ some (str c.representation)
  pub origin :
      Among implementations c
      ⊎ (All (λ i. i.purpose ≢ c.purpose) implementations × (c.whole_object_exclusion_set ≡ none))

-- one context for each row, in their order
abbrev pub RowContexts :
    Text → List ArtifactDigestContext → Items → List ArtifactDigestContext → Type 0
RowContexts type_name implementations no_items [] = Unit
RowContexts type_name implementations no_items (c ∷ cs) = ⊥
RowContexts type_name implementations (item v xs) [] = ⊥
RowContexts type_name implementations (item v xs) (c ∷ cs) =
    RowContext type_name implementations v c × RowContexts type_name implementations xs cs

-- the implementations are of the type, and no two have one purpose
pub record Supplied (type_name : Text) (implementations : List ArtifactDigestContext) : Type 0 where
  pub named : All (λ i. i.name ≡ type_name) implementations
  pub distinct : Distinct (map (λ (i : ArtifactDigestContext). i.purpose) implementations)

by_purpose-Supplied :
    (type_name : Text) (seen : List Text) (cs : List ArtifactDigestContext)
    → by_purpose type_name seen cs ≡ ok tt
    → Supplied type_name cs
      × All (λ q. text_in q seen ≡ false) (map (λ (i : ArtifactDigestContext). i.purpose) cs)
unfolding by_purpose
by_purpose-Supplied type_name seen [] h = (record { named = tt; distinct = tt }, tt)
by_purpose-Supplied type_name seen (c ∷ cs) h =
    let (_, named, h1) = >>=-eq-ok (raise_if (not (text_eq c.name type_name)) _) _ h in
    let (_, fresh, h2) = >>=-eq-ok (raise_if (text_in c.purpose seen) _) _ h1 in
    let (rest, others) = by_purpose-Supplied type_name (c.purpose ∷ seen) cs h2 in
    (
      record {
        named =
            (text_eq_sound c.name type_name (not-false _ (raise_if-eq-ok _ _ named)), rest.named);
        distinct =
            (All-map _ _ _ (λ q e. (text_in-later q c.purpose seen e).0) others, rest.distinct);
      },
      (
        raise_if-eq-ok _ _ fresh,
        All-map _ _ _ (λ q e. (text_in-later q c.purpose seen e).1) others,
      ),
    )

pub by_purpose-eq-ok :
    (type_name : Text) (cs : List ArtifactDigestContext)
    → by_purpose type_name [] cs ≡ ok tt
    → Supplied type_name cs
by_purpose-eq-ok type_name cs h = (by_purpose-Supplied type_name [] cs h).0

implementation_for-some :
    (purpose : Text) (cs : List ArtifactDigestContext) (c : ArtifactDigestContext)
    → implementation_for purpose cs ≡ some c
    → Among cs c × (c.purpose ≡ purpose)
unfolding implementation_for
implementation_for-some purpose [] c h = cc
implementation_for-some purpose (d ∷ ds) c h = elim (Bool-cases (text_eq d.purpose purpose)) [
  | inl e ↦
      let same : d ≡ c = cc (rw (e, implementation_for) at h) in
      (
        inl same,
        ap (λ (x : ArtifactDigestContext). x.purpose) (sym same)
            ∙ text_eq_sound d.purpose purpose e,
      )
  | inr e ↦
      let (among, same) = implementation_for-some purpose ds c (rw (e, implementation_for) at h) in
      (inr among, same)
]

implementation_for-none :
    (purpose : Text) (cs : List ArtifactDigestContext)
    → implementation_for purpose cs ≡ none
    → All (λ i. i.purpose ≢ purpose) cs
unfolding implementation_for
implementation_for-none purpose [] h = tt
implementation_for-none purpose (d ∷ ds) h = elim (Bool-cases (text_eq d.purpose purpose)) [
  | inl e ↦ cc (rw (e, implementation_for) at h)
  | inr e ↦ (
    λ same. cc (e, subst (λ x. text_eq x purpose ≡ true) (sym same) (text_eq_refl purpose)),
    implementation_for-none purpose ds (rw (e, implementation_for) at h),
  )
]

as_integrity-eq-ok {ℓ} : {A : Type ℓ} (r : Result A) (a : A) → as_integrity r ≡ ok a → r ≡ ok a
unfolding as_integrity
as_integrity-eq-ok (ok b) a h = h
as_integrity-eq-ok (err e) a h = cc
as_integrity-eq-ok out_of_fuel a h = cc

post_init-eq-ok : (r c : ArtifactDigestContext) → as_integrity (post_init r) ≡ ok c → r ≡ c
unfolding post_init
post_init-eq-ok r c h =
    let (_, _, h1) =
      >>=-eq-ok
        (raise_if
          (is_empty r.name
            || is_empty r.algorithm
            || is_empty r.representation
            || is_empty r.purpose)
          value_error)
        _ (as_integrity-eq-ok (post_init r) c h) in
    let (_, _, h2) =
      >>=-eq-ok (raise_if (not (text_in r.representation representations)) value_error) _ h1 in
    let (_, _, last) =
      >>=-eq-ok (raise_if (has_empty_member r.whole_object_exclusion_set) value_error) (λ _. ok r)
        h2 in
    cc last

context_for-RowContext :
    (type_name purpose algorithm representation : Text) (row : Fields)
    (cs : List ArtifactDigestContext) (o : Option ArtifactDigestContext) (c : ArtifactDigestContext)
    → Supplied type_name cs
    → get purpose_key row ≡ some (str purpose)
    → get (codes "algorithm") row ≡ some (str algorithm)
    → get (codes "representation") row ≡ some (str representation)
    → implementation_for purpose cs ≡ o
    → context_for type_name purpose algorithm representation o ≡ ok c
    → RowContext type_name cs (obj row) c
unfolding context_for
context_for-RowContext t p a r row cs none c supplied hp ha hr found h =
    let same = post_init-eq-ok _ c h in
    subst (RowContext t cs (obj row)) same (record {
      row = row;
      is_object = refl;
      same_name = refl;
      same_purpose = hp;
      same_algorithm = ha;
      same_representation = hr;
      origin = inr (implementation_for-none p cs found, refl);
    })
context_for-RowContext t p a r row cs (some d) c supplied hp ha hr found h =
    let (_, algorithm, h1) = >>=-eq-ok (raise_if (not (text_eq d.algorithm a)) _) _ h in
    let (_, representation, last) =
      >>=-eq-ok (raise_if (not (text_eq d.representation r)) _) _ h1 in
    let same : d ≡ c = cc last in
    let (among, purpose) = implementation_for-some p cs d found in
    let one = text_eq_sound d.algorithm a (not-false _ (raise_if-eq-ok _ _ algorithm)) in
    let two = text_eq_sound d.representation r (not-false _ (raise_if-eq-ok _ _ representation)) in
    subst (RowContext t cs (obj row)) same (record {
      row = row;
      is_object = refl;
      same_name = All-Among _ cs d supplied.named among;
      same_purpose = hp ∙ ap (λ x. some (str x)) (sym purpose);
      same_algorithm = ha ∙ ap (λ x. some (str x)) (sym one);
      same_representation = hr ∙ ap (λ x. some (str x)) (sym two);
      origin = inl among;
    })

row_context-RowContext :
    (type_name : Text) (cs : List ArtifactDigestContext) (v : Value) (c : ArtifactDigestContext)
    → Supplied type_name cs
    → row_context type_name cs v ≡ ok c
    → RowContext type_name cs v c
unfolding row_context
row_context-RowContext t cs (obj row) c supplied h =
    let (p, hp, h1) = >>=-eq-ok (nonempty_string (get purpose_key row)) _ h in
    let (a, ha, h2) = >>=-eq-ok (nonempty_string (get (codes "algorithm") row)) _ h1 in
    let (r, hr, h3) = >>=-eq-ok (nonempty_string (get (codes "representation") row)) _ h2 in
    context_for-RowContext t p a r row cs (implementation_for p cs) c supplied
      (nonempty_string-eq-ok _ p hp).0 (nonempty_string-eq-ok _ a ha).0
      (nonempty_string-eq-ok _ r hr).0 refl h3
row_context-RowContext t cs _ c supplied h = cc

pub row_contexts-eq-ok :
    (type_name : Text) (implementations : List ArtifactDigestContext) (xs : Items)
    (cs : List ArtifactDigestContext)
    → Supplied type_name implementations
    → row_contexts type_name implementations xs ≡ ok cs
    → RowContexts type_name implementations xs cs
unfolding row_contexts
row_contexts-eq-ok t is no_items [] supplied h = tt
row_contexts-eq-ok t is no_items (c ∷ cs) supplied h = cc
row_contexts-eq-ok t is (item v xs) cs supplied h =
    let (d, one, h1) = >>=-eq-ok (row_context t is v) _ h in
    let (ds, more, last) = >>=-eq-ok (row_contexts t is xs) _ h1 in
    let same : d ∷ ds ≡ cs = cc last in
    subst (RowContexts t is (item v xs)) same
      (row_context-RowContext t is v d supplied one, row_contexts-eq-ok t is xs ds supplied more)

has_purpose-Among :
    (cs : List ArtifactDigestContext) (p : Text)
    → has_purpose cs p ≡ true
    → (c : ArtifactDigestContext) × Among cs c × (p ≡ c.purpose)
unfolding has_purpose
has_purpose-Among [] p h = cc
has_purpose-Among (c ∷ cs) p h = elim (Bool-cases (text_eq p c.purpose)) [
  | inl e ↦ (c, inl refl, text_eq_sound p c.purpose e)
  | inr e ↦
      let (d, among, same) = has_purpose-Among cs p (rw (e, has_purpose) at h) in
      (d, inr among, same)
]

RowContexts-Among :
    (type_name : Text) (implementations : List ArtifactDigestContext) (xs : Items)
    (cs : List ArtifactDigestContext) (c : ArtifactDigestContext)
    → RowContexts type_name implementations xs cs
    → Among cs c
    → (v : Value) × RowContext type_name implementations v c
RowContexts-Among t is no_items [] c h m = absurd m
RowContexts-Among t is no_items (d ∷ ds) c h m = absurd h
RowContexts-Among t is (item v xs) [] c h m = absurd h
RowContexts-Among t is (item v xs) (d ∷ ds) c h (inl e) = (v, subst (RowContext t is v) e h.0)
RowContexts-Among t is (item v xs) (d ∷ ds) c h (inr m) = RowContexts-Among t is xs ds c h.1 m

purpose-differs :
    (p : Text) (xs : List ArtifactDigestContext) (a : ArtifactDigestContext)
    → All (λ q. p ≢ q) (map (λ (i : ArtifactDigestContext). i.purpose) xs)
    → Among xs a
    → p ≢ a.purpose
purpose-differs p [] a h m = absurd m
purpose-differs p (x ∷ xs) a h (inl e) =
    λ k. h.0 (k ∙ ap (λ (i : ArtifactDigestContext). i.purpose) (sym e))
purpose-differs p (x ∷ xs) a h (inr m) = purpose-differs p xs a h.1 m

same_implementation :
    (xs : List ArtifactDigestContext) (a b : ArtifactDigestContext)
    → Distinct (map (λ (i : ArtifactDigestContext). i.purpose) xs)
    → Among xs a
    → Among xs b
    → a.purpose ≡ b.purpose
    → b ≡ a
same_implementation [] a b d m n e = absurd m
same_implementation (x ∷ xs) a b d (inl m) (inl n) e = sym n ∙ m
same_implementation (x ∷ xs) a b d (inl m) (inr n) e =
    absurd
      (purpose-differs x.purpose xs b d.0 n (ap (λ (i : ArtifactDigestContext). i.purpose) m ∙ e))
same_implementation (x ∷ xs) a b d (inr m) (inl n) e =
    absurd (
      purpose-differs x.purpose xs a d.0 m
        (ap (λ (i : ArtifactDigestContext). i.purpose) n ∙ sym e))
same_implementation (x ∷ xs) a b d (inr m) (inr n) e = same_implementation xs a b d.1 m n e

-- an implementation whose purpose some context has is itself a context
pub every-Among :
    (type_name : Text) (implementations : List ArtifactDigestContext) (xs : Items)
    (cs : List ArtifactDigestContext)
    → Supplied type_name implementations
    → RowContexts type_name implementations xs cs
    → all (λ i. has_purpose cs i.purpose) implementations ≡ true
    → All (Among cs) implementations
every-Among t is xs cs supplied rows h = Among-All (Among cs) is (λ i among.
    let (c, context, same) =
      has_purpose-Among cs i.purpose (All-Among _ is i (all-All _ is h) among) in
    let (v, row) = RowContexts-Among t is xs cs c rows context in
    elim row.origin [
      | inl supplied_too ↦
          subst (Among cs) (same_implementation is i c supplied.distinct among supplied_too same)
            context
      | inr (lacks, _) ↦ absurd (All-Among _ is i lacks among same)
    ])
