-- ===== src/Vectors/Contexts/Resolved.antt =====
-- Which digest context the vector checks resolve.
use scitt_payload_binding.Common.{
  ℕ, ◌≡◌, refl, sym, ap, ◌∙◌, subst, Bool, Text, List, [], ◌∷◌, Option, none, some, codes, text_eq,
  text_eq_refl, keep, All, inl, inr, Bool-cases,
}
use scitt_payload_binding.Value.{Value, null, str, arr, obj, Items, no_items, item, Fields, get}
use scitt_payload_binding.Errors.{ok, >>=-eq-ok}
use scitt_payload_binding.TypedRef.Context.{ArtifactDigestContext}
use scitt_payload_binding.TypedRef.Select.{select_context}
use scitt_payload_binding.TypedRef.Select.Unique.{select_context_iff}
use scitt_payload_binding.Vectors.Contexts.{
  nonempty_string, context_entry, context_entries, digest_context_entries, has_purpose,
  resolve_entries, resolve_digest_context,
}

-- A JSON entry declares the purpose and the algorithm of a context.
pub record Declares (fs : Fields) (c : ArtifactDigestContext) : Type 0 where
  pub purpose : get (codes "purpose") fs ≡ some (str c.purpose)
  pub algorithm : get (codes "algorithm") fs ≡ some (str c.algorithm)

-- The JSON entries declare the contexts, one each and in their order.
abbrev pub DeclareAll : List Fields → List ArtifactDigestContext → Type 0
DeclareAll [] [] = Unit
DeclareAll (fs ∷ fss) (c ∷ cs) = Declares fs c × DeclareAll fss cs
DeclareAll _ _ = ⊥

declared-single :
    (fss : List Fields) (c : ArtifactDigestContext)
    → DeclareAll fss (c ∷ [])
    → (fs : Fields) × (fss ≡ fs ∷ []) × Declares fs c
declared-single [] c d = absurd d
declared-single (fs ∷ []) c (d, _) = (fs, refl, d)
declared-single (fs ∷ gs ∷ fss) c (_, d) = absurd d

has_purpose-Declares :
    (p : Text) (fs : Fields) (c : ArtifactDigestContext)
    → Declares fs c
    → has_purpose p fs ≡ text_eq c.purpose p
unfolding has_purpose
has_purpose-Declares p fs c d = rw (has_purpose, d.purpose)

-- Selecting by purpose on both sides keeps the lists in step.
DeclareAll-keep :
    (p : Text) (fss : List Fields) (cs : List ArtifactDigestContext)
    → DeclareAll fss cs
    → DeclareAll
        (keep (has_purpose p) fss)
        (keep (λ (c : ArtifactDigestContext). text_eq c.purpose p) cs)
DeclareAll-keep p [] [] d = tt
DeclareAll-keep p (fs ∷ fss) (c ∷ cs) (d, ds) = elim (Bool-cases (text_eq c.purpose p)) [
  | inl e ↦ rw (keep, has_purpose-Declares p fs c d ∙ e, e) (d, DeclareAll-keep p fss cs ds)
  | inr e ↦ rw (keep, has_purpose-Declares p fs c d ∙ e, e) (DeclareAll-keep p fss cs ds)
]
DeclareAll-keep p [] (c ∷ cs) d = absurd d
DeclareAll-keep p (fs ∷ fss) [] d = absurd d

keep-of_type :
    (t : Text) (cs : List ArtifactDigestContext)
    → All (λ (c : ArtifactDigestContext). c.name ≡ t) cs
    → keep (λ (c : ArtifactDigestContext). text_eq c.name t) cs ≡ cs
keep-of_type t [] h = refl
keep-of_type t (c ∷ cs) (e, h) =
    rw (keep, ap (λ n. text_eq n t) e ∙ text_eq_refl t) (ap (λ r. c ∷ r) (keep-of_type t cs h))

-- no validated entry has an empty purpose
abbrev HasPurpose : Fields → Type 0
HasPurpose fs = (c : ℕ) × (s : Text) × (get (codes "purpose") fs ≡ some (str (c ∷ s)))

nonempty_string-eq-ok :
    (o : Option Value) (t : Text)
    → nonempty_string o ≡ ok t
    → (c : ℕ) × (s : Text) × (o ≡ some (str (c ∷ s)))
unfolding nonempty_string
nonempty_string-eq-ok (some (str (c ∷ s))) t h = (c, s, refl)
nonempty_string-eq-ok _ t h = cc

context_entry-HasPurpose : (v : Value) (fs : Fields) → context_entry v ≡ ok fs → HasPurpose fs
unfolding context_entry
context_entry-HasPurpose (obj gs) fs h =
    let (t, first, h1) = >>=-eq-ok (nonempty_string (get (codes "purpose") gs)) _ h in
    let (u, _, last) = >>=-eq-ok (nonempty_string (get (codes "algorithm") gs)) _ h1 in
    let same : gs ≡ fs = cc last in subst HasPurpose same (nonempty_string-eq-ok _ t first)
context_entry-HasPurpose _ fs h = cc

context_entries-HasPurpose :
    (vs : Items) (fss : List Fields) → context_entries vs ≡ ok fss → All HasPurpose fss
unfolding context_entries
context_entries-HasPurpose no_items fss h =
    let same : [] ≡ fss = cc h in subst (All HasPurpose) same tt
context_entries-HasPurpose (item v vs) fss h =
    let (fs, one, h1) = >>=-eq-ok (context_entry v) _ h in
    let (gss, others, last) = >>=-eq-ok (context_entries vs) _ h1 in
    let same : fs ∷ gss ≡ fss = cc last in
    subst (All HasPurpose) same
      (context_entry-HasPurpose v fs one, context_entries-HasPurpose vs gss others)

digest_context_entries-HasPurpose :
    (v : Value) (fss : List Fields) → digest_context_entries v ≡ ok fss → All HasPurpose fss
unfolding digest_context_entries
digest_context_entries-HasPurpose (arr (item v vs)) fss h =
    context_entries-HasPurpose (item v vs) fss h
digest_context_entries-HasPurpose _ fss h = cc

All-keep :
    (p : Fields → Bool) (fss : List Fields) → All HasPurpose fss → All HasPurpose (keep p fss)
All-keep p [] h = tt
All-keep p (fs ∷ fss) (e, h) = elim (Bool-cases (p fs)) [
  | inl b ↦ rw (keep, b) (e, All-keep p fss h)
  | inr b ↦ rw (keep, b) (All-keep p fss h)
]

-- The purpose of a reference, as the JSON value of its member.
abbrev pub purpose_value : Option Text → Value
purpose_value none = null
purpose_value (some p) = str p

resolve-unasked :
    (fss : List Fields) (fs : Fields) → fss ≡ fs ∷ [] → resolve_entries null fss ≡ ok fs
unfolding resolve_entries
resolve-unasked fss fs e = rw e

resolve-asked :
    (p : Text) (fss : List Fields) (fs : Fields) (c : ArtifactDigestContext)
    → All HasPurpose fss
    → Declares fs c
    → c.purpose ≡ p
    → keep (has_purpose p) fss ≡ fs ∷ []
    → resolve_entries (str p) fss ≡ ok fs
unfolding resolve_entries
resolve-asked (x ∷ p) fss fs c all_have d e kept = rw kept
resolve-asked [] fss fs c all_have d e kept =
    let kept_have = subst (All HasPurpose) kept (All-keep (has_purpose []) fss all_have) in
    let (x, s, found) = kept_have.0 in cc (found, d.purpose, e)

-- Of contexts that JSON entries declare, all of one type, whatever context the library selects for a
-- reference of that type, the vector checks resolve the entry that declares it.
pub resolve_digest_context-select_context :
    (contexts : Value) (fss : List Fields) (t : Text) (cs : List ArtifactDigestContext)
    (purpose : Option Text) (c : ArtifactDigestContext)
    → digest_context_entries contexts ≡ ok fss
    → DeclareAll fss cs
    → All (λ (d : ArtifactDigestContext). d.name ≡ t) cs
    → select_context t purpose cs ≡ ok c
    → (fs : Fields) × (resolve_digest_context (purpose_value purpose) contexts ≡ ok fs)
      × Declares fs c
unfolding resolve_digest_context
resolve_digest_context-select_context contexts fss t cs none c valid d names h =
    let s = (select_context_iff t none cs c).0 h in
    let alone : cs ≡ c ∷ [] = sym (keep-of_type t cs names) ∙ s.unasked refl in
    let (fs, e, declares) = declared-single fss c (subst (DeclareAll fss) alone d) in
    (fs, rw valid (resolve-unasked fss fs e), declares)
resolve_digest_context-select_context contexts fss t cs (some p) c valid d names h =
    let s = (select_context_iff t (some p) cs c).0 h in
    let same : c.purpose ≡ p = s.asked p refl in
    let sole : keep (λ (x : ArtifactDigestContext). text_eq x.purpose p) cs ≡ c ∷ [] =
      subst (λ q. keep (λ (x : ArtifactDigestContext). text_eq x.purpose q) cs ≡ c ∷ []) same
        (subst (λ xs. keep (λ (x : ArtifactDigestContext). text_eq x.purpose c.purpose) xs ≡ c ∷ [])
          (keep-of_type t cs names) s.sole) in
    let (fs, e, declares) =
      declared-single (keep (has_purpose p) fss) c
        (subst (DeclareAll (keep (has_purpose p) fss)) sole (DeclareAll-keep p fss cs d)) in
    let resolved =
      resolve-asked p fss fs c (digest_context_entries-HasPurpose contexts fss valid) declares same
        e in
    (fs, rw valid resolved, declares)
