-- ===== src/Registry/Snapshot/Live.antt =====
-- Live entries and their digest contexts, described without the checks.
use scitt_payload_binding.Common.{
  ◌≡◌, ◌≢◌, refl, sym, subst, ◌⊎◌, inl, inr, true, false, Text, List, [], ◌∷◌, Option, some, codes,
  text_eq, text_eq_sound, text_eq_complete, text_in, All, All-map, Distinct, Bool-cases,
}
use scitt_payload_binding.Value.{
  Value, Items, Fields, str, arr, obj, no_items, item, no_fields, field, get,
}
use scitt_payload_binding.Errors.{ok, raise_if, >>=-eq-ok, raise_if-eq-ok}
use scitt_payload_binding.Registry.Snapshot.{
  is_live_status, live_statuses, contexts_key, status_key, purpose_key, contexts_of,
  nonempty_string, check_live_contexts, check_type_entry, check_type_entries,
}

-- a status of a live registration
pub data IsLive (s : Text) : Type 0 where
  registered : s ≡ codes "Registered" → IsLive s
  owner_confirmed : s ≡ codes "owner-confirmed" → IsLive s
  third_party_documented : s ≡ codes "third-party-documented" → IsLive s
  standards_referenced : s ≡ codes "standards-referenced" → IsLive s

text_in-cases :
    (t u : Text) (us : List Text) → text_in t (u ∷ us) ≡ true → (t ≡ u) ⊎ (text_in t us ≡ true)
text_in-cases t u us h = elim (Bool-cases (text_eq t u)) [
  | inl e ↦ inl (text_eq_sound t u e)
  | inr e ↦ inr (rw (e, text_in) at h)
]

text_in-IsLive : (s : Text) → text_in s live_statuses ≡ true → IsLive s
text_in-IsLive s h =
    elim (text_in-cases s (codes "Registered")
      (codes "owner-confirmed" ∷ codes "third-party-documented" ∷ codes "standards-referenced" ∷ [])
      h) [
        | inl a ↦ registered a
        | inr h1 ↦
            elim (text_in-cases s (codes "owner-confirmed")
              (codes "third-party-documented" ∷ codes "standards-referenced" ∷ []) h1) [
                | inl b ↦ owner_confirmed b
                | inr h2 ↦
                    elim (text_in-cases s (codes "third-party-documented")
                      (codes "standards-referenced" ∷ []) h2) [
                        | inl c ↦ third_party_documented c
                        | inr h3 ↦ elim (text_in-cases s (codes "standards-referenced") [] h3) [
                          | inl d ↦ standards_referenced d
                          | inr h4 ↦ cc h4
                        ]
                      ]
              ]
      ]

IsLive-text_in : (s : Text) → IsLive s → text_in s live_statuses ≡ true
IsLive-text_in s (registered e) = rw e refl
IsLive-text_in s (owner_confirmed e) = rw e refl
IsLive-text_in s (third_party_documented e) = rw e refl
IsLive-text_in s (standards_referenced e) = rw e refl

pub is_live_status-true :
    (o : Option Value) → is_live_status o ≡ ok true → (s : Text) × (o ≡ some (str s)) × IsLive s
unfolding is_live_status
is_live_status-true (some (str s)) h =
    let live : text_in s live_statuses ≡ true = cc h in (s, refl, text_in-IsLive s live)
is_live_status-true (some (arr xs)) h = cc
is_live_status-true (some (obj fs)) h = cc
is_live_status-true _ h = cc

-- each row is an object with a purpose, a non-empty text; `ps` are the purposes in order
abbrev pub Purposes : Items → List Text → Type 0
Purposes no_items [] = Unit
Purposes no_items (p ∷ ps) = ⊥
Purposes (item v xs) [] = ⊥
Purposes (item v xs) (p ∷ ps) =
    ((row : Fields) × (v ≡ obj row) × (get purpose_key row ≡ some (str p)))
    × (p ≢ [])
    × Purposes xs ps

pub nonempty_string-eq-ok :
    (o : Option Value) (t : Text) → nonempty_string o ≡ ok t → (o ≡ some (str t)) × (t ≢ [])
unfolding nonempty_string
nonempty_string-eq-ok (some (str (c ∷ s))) t h =
    let same : c ∷ s ≡ t = cc h in
    subst (λ u. (some (str (c ∷ s)) ≡ some (str u)) × (u ≢ [])) same (refl, λ e. cc e)
nonempty_string-eq-ok _ t h = cc

pub contexts_of-eq-ok :
    (o : Option Value) (xs : Items) → contexts_of o ≡ ok xs → (o ≡ some (arr xs)) × (xs ≢ no_items)
unfolding contexts_of
contexts_of-eq-ok (some (arr (item v ys))) xs h =
    let same : item v ys ≡ xs = cc h in
    subst (λ u. (some (arr (item v ys)) ≡ some (arr u)) × (u ≢ no_items)) same (refl, λ e. cc e)
contexts_of-eq-ok _ xs h = cc

pub text_in-later :
    (q p : Text) (ps : List Text) → text_in q (p ∷ ps) ≡ false → (p ≢ q) × (text_in q ps ≡ false)
text_in-later q p ps h = elim (Bool-cases (text_eq q p)) [
  | inl e ↦ cc (rw (e, text_in) at h)
  | inr e ↦ (λ same. cc (e, text_eq_complete q p (sym same)), rw (e, text_in) at h)
]

check_live_contexts-Purposes :
    (seen : List Text) (xs : Items)
    → check_live_contexts seen xs ≡ ok tt
    → (ps : List Text) × Purposes xs ps × Distinct ps × All (λ q. text_in q seen ≡ false) ps
unfolding check_live_contexts
check_live_contexts-Purposes seen no_items h = ([], tt, tt, tt)
check_live_contexts-Purposes seen (item (obj row) xs) h =
    let (p, found, h1) = >>=-eq-ok (nonempty_string (get purpose_key row)) _ h in
    let (_, fresh, h2) = >>=-eq-ok (raise_if (text_in p seen) _) _ h1 in
    let (ps, rows, distinct, others) = check_live_contexts-Purposes (p ∷ seen) xs h2 in
    let (has, filled) = nonempty_string-eq-ok (get purpose_key row) p found in
    (
      p ∷ ps,
      ((row, refl, has), filled, rows),
      (All-map _ _ ps (λ q e. (text_in-later q p seen e).0) others, distinct),
      (raise_if-eq-ok _ _ fresh, All-map _ _ ps (λ q e. (text_in-later q p seen e).1) others),
    )
check_live_contexts-Purposes seen (item _ xs) h = cc

-- An entry of `artifact_types`: an object with a non-empty array of digest contexts, which have
-- distinct purposes when the entry is live.
pub record TypeEntry (v : Value) : Type 0 where
  pub entry : Fields
  pub rows : Items
  pub is_object : v ≡ obj entry
  pub has_rows : get contexts_key entry ≡ some (arr rows)
  pub not_empty : rows ≢ no_items
  pub when_live :
      (s : Text)
      → get status_key entry ≡ some (str s)
      → IsLive s
      → (ps : List Text) × Purposes rows ps × Distinct ps

-- every value of the members
abbrev pub EachValue : (Value → Type 0) → Fields → Type 0
EachValue P no_fields = Unit
EachValue P (field k v fs) = P v × EachValue P fs

check_type_entry-TypeEntry : (v : Value) → check_type_entry v ≡ ok tt → TypeEntry v
unfolding check_type_entry is_live_status
check_type_entry-TypeEntry (obj entry) h =
    let (rows, found, h1) = >>=-eq-ok (contexts_of (get contexts_key entry)) _ h in
    let (has, filled) = contexts_of-eq-ok (get contexts_key entry) rows found in
    record {
      entry = entry;
      rows = rows;
      is_object = refl;
      has_rows = has;
      not_empty = filled;
      when_live = λ s e live.
          let status : is_live_status (get status_key entry) ≡ ok true =
            rw (e, is_live_status, IsLive-text_in s live) in
          let (ps, purposes, distinct, _) =
            check_live_contexts-Purposes [] rows (rw status at h1) in
          (ps, purposes, distinct);
    }
check_type_entry-TypeEntry _ h = cc

pub check_type_entries-EachValue :
    (fs : Fields) → check_type_entries fs ≡ ok tt → EachValue TypeEntry fs
unfolding check_type_entries
check_type_entries-EachValue no_fields h = tt
check_type_entries-EachValue (field k v fs) h =
    let (_, first, h1) = >>=-eq-ok (check_type_entry v) _ h in
    (check_type_entry-TypeEntry v first, check_type_entries-EachValue fs h1)
