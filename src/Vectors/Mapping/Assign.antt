-- ===== src/Vectors/Mapping/Assign.antt =====
-- What one assignment of a member mapping changes, and what it leaves.
use scitt_payload_binding.Common.{
  ℕ, ◌≤◌, ◌≡◌, refl, sym, ap, ◌∙◌, subst, Bool, true, false, ◌&&◌, Text, List, [], ◌∷◌, some, leb,
  length, text_eq, text_eq_iff, Bool-cases, Option-cases, inl, inr, arith, &&_true,
}
use scitt_payload_binding.Value.{Value, Fields, obj, get, set}
use scitt_payload_binding.Value.Keys.{get-set}
use scitt_payload_binding.Errors.{ok, >>=-eq-ok}
use scitt_payload_binding.Vectors.Pointer.{resolve_tokens}
use scitt_payload_binding.Vectors.Mapping.{is_prefix, collide, inner_fields, assign}

-- Neither of the two pointers is the other one, or an ancestor of it.
abbrev pub Disjoint : List Text → List Text → Type 0
Disjoint a b = (is_prefix a b ≡ false) × (is_prefix b a ≡ false)

is_prefix-longer :
    (a b : List Text) → length a ≤ length b → is_prefix b a ≡ true → is_prefix a b ≡ true
unfolding is_prefix
is_prefix-longer [] b l h = refl
is_prefix-longer (t ∷ ts) [] l h = absurd (omega arith)
is_prefix-longer (t ∷ ts) (u ∷ us) l h =
    let (same, rest) = &&_true (text_eq u t) _ h in
    let e = (text_eq_iff u t).0 same in
    rw ((text_eq_iff t u).1 (sym e)) (is_prefix-longer ts us (omega arith) rest)

leb-eq-true : (m n : ℕ) → leb m n ≡ true → m ≤ n
leb-eq-true m n h = ground arith

leb-eq-false : (m n : ℕ) → leb m n ≡ false → n ≤ m
leb-eq-false m n h = ground arith

pub collide-Disjoint : (a b : List Text) → collide a b ≡ false → Disjoint a b
unfolding collide
collide-Disjoint a b h = elim (Bool-cases (leb (length a) (length b))) [
  | inl le ↦
      let h1 : is_prefix a b ≡ false = cc (rw le at h) in
      (
        h1,
        elim (Bool-cases (is_prefix b a)) [
          | inl back ↦ cc (is_prefix-longer a b (leb-eq-true (length a) (length b) le) back)
          | inr apart ↦ apart
        ],
      )
  | inr gt ↦
      let h1 : is_prefix b a ≡ false = cc (rw gt at h) in
      (
        elim (Bool-cases (is_prefix a b)) [
          | inl back ↦ cc (is_prefix-longer b a (leb-eq-false (length a) (length b) gt) back)
          | inr apart ↦ apart
        ],
        h1,
      )
]

inner_fields-some : (x : Value) (gs : Fields) → inner_fields (some x) ≡ ok gs → x ≡ obj gs
unfolding inner_fields
inner_fields-some (obj fs) gs h = cc
inner_fields-some _ gs h = cc

&&_false : (a b : Bool) → (a && b) ≡ false → a ≡ true → b ≡ false
&&_false a b h e = ground arith

resolve-set-same :
    (t u : Text) (us : List Text) (x w : Value) (fs : Fields)
    → text_eq u t ≡ true
    → resolve_tokens us x ≡ ok w
    → resolve_tokens (u ∷ us) (obj (set t x fs)) ≡ ok w
unfolding resolve_tokens
resolve-set-same t u us x w fs e h = rw (resolve_tokens, get-set u t x fs, e) h

resolve-set-other :
    (t u : Text) (us : List Text) (x w : Value) (fs : Fields)
    → text_eq u t ≡ false
    → resolve_tokens (u ∷ us) (obj fs) ≡ ok w
    → resolve_tokens (u ∷ us) (obj (set t x fs)) ≡ ok w
unfolding resolve_tokens
resolve-set-other t u us x w fs e h = rw (resolve_tokens, get-set u t x fs, e) h

resolve-member :
    (u : Text) (us : List Text) (w : Value) (fs : Fields)
    → resolve_tokens (u ∷ us) (obj fs) ≡ ok w
    → (x : Value) × (get u fs ≡ some x) × (resolve_tokens us x ≡ ok w)
unfolding resolve_tokens
resolve-member u us w fs h = elim (Option-cases (get u fs)) [
  | inl e ↦ cc (rw (resolve_tokens, e) at h)
  | inr (x, e) ↦ (x, e, (rw (resolve_tokens, e) at h))
]

-- Text_eq of two ways round.
text_eq-swap : (t u : Text) → text_eq t u ≡ text_eq u t
text_eq-swap t u = ground (arith, text_eq_iff t u, text_eq_iff u t)

-- The value that was assigned is found.
pub assign-resolve :
    (t : Text) (ts : List Text) (v : Value) (fs fs' : Fields)
    → assign (t ∷ ts) v fs ≡ ok fs'
    → resolve_tokens (t ∷ ts) (obj fs') ≡ ok v
unfolding assign resolve_tokens
assign-resolve t [] v fs fs' h =
    let same : set t v fs ≡ fs' = cc h in
    subst (λ gs. resolve_tokens (t ∷ []) (obj gs) ≡ ok v) same
      (resolve-set-same t t [] v v fs ((text_eq_iff t t).1 refl) refl)
assign-resolve t (u ∷ ts) v fs fs' h =
    let (gs, _, h1) = >>=-eq-ok (inner_fields (get t fs)) _ h in
    let (hs, assigned, last) = >>=-eq-ok (assign (u ∷ ts) v gs) _ h1 in
    let same : set t (obj hs) fs ≡ fs' = cc last in
    subst (λ gs. resolve_tokens (t ∷ u ∷ ts) (obj gs) ≡ ok v) same
      (resolve-set-same t t (u ∷ ts) (obj hs) v fs ((text_eq_iff t t).1 refl)
        (assign-resolve u ts v gs hs assigned))

-- An assignment elsewhere leaves a member as it is.
pub assign-elsewhere :
    (ts us : List Text) (v w : Value) (fs fs' : Fields)
    → Disjoint ts us
    → assign ts v fs ≡ ok fs'
    → resolve_tokens us (obj fs) ≡ ok w
    → resolve_tokens us (obj fs') ≡ ok w
unfolding assign resolve_tokens is_prefix
assign-elsewhere [] us v w fs fs' (apart, apart') h found = cc
assign-elsewhere (t ∷ ts) [] v w fs fs' (apart, apart') h found = cc
assign-elsewhere (t ∷ []) (u ∷ us) v w fs fs' (apart, apart') h found =
    let same : set t v fs ≡ fs' = cc h in
    subst (λ gs. resolve_tokens (u ∷ us) (obj gs) ≡ ok w) same
      (elim (Bool-cases (text_eq u t)) [
        | inl e ↦ cc (rw (text_eq-swap t u, e) at apart)
        | inr e ↦ resolve-set-other t u us v w fs e found
      ])
assign-elsewhere (t ∷ t' ∷ ts) (u ∷ us) v w fs fs' (apart, apart') h found =
    let (gs, inner, h1) = >>=-eq-ok (inner_fields (get t fs)) _ h in
    let (hs, assigned, last) = >>=-eq-ok (assign (t' ∷ ts) v gs) _ h1 in
    let same : set t (obj hs) fs ≡ fs' = cc last in
    let recur = λ (a : is_prefix (t' ∷ ts) us ≡ false) (b : is_prefix us (t' ∷ ts) ≡ false).
      assign-elsewhere (t' ∷ ts) us v w gs hs (a, b) assigned in
    subst (λ gs. resolve_tokens (u ∷ us) (obj gs) ≡ ok w) same
      (elim (Bool-cases (text_eq u t)) [
        | inl e ↦
            let (x, got, deeper) = resolve-member u us w fs found in
            let at_t : get t fs ≡ some x = ap (λ k. get k fs) (sym ((text_eq_iff u t).0 e)) ∙ got in
            let object : x ≡ obj gs = inner_fields-some x gs (sym (ap inner_fields at_t) ∙ inner) in
            resolve-set-same t u us (obj hs) w fs e (
              recur (&&_false (text_eq t u) _ apart (text_eq-swap t u ∙ e))
                (&&_false (text_eq u t) _ apart' e) (sym (ap (resolve_tokens us) object) ∙ deeper))
        | inr e ↦ resolve-set-other t u us (obj hs) w fs e found
      ])
