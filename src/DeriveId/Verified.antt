-- ===== src/DeriveId/Verified.antt =====
-- What a derived identifier that was constructed or verified stands for.
use scitt_payload_binding.Common.{
  ℕ, ◌<◌, ◌≡◌, ◌≢◌, refl, ◌↔◌, ◌⊎◌, inl, inr, Bool, true, false, Text, List, Option, none, some,
  text_eq, text_eq_iff, text_eq_sound, text_eq_refl, Bool-cases, arith, not, sym, ap, ◌∙◌,
}
use mathlib.Core.Bool.{false≢true}
use scitt_payload_binding.Value.{Value, Fields, str, obj, get}
use scitt_payload_binding.Errors.{Error, ok, raise_if, >>=-eq-ok, raise_if-eq-ok}
use scitt_payload_binding.Platform.{Platform}
use scitt_payload_binding.Lex.Scanner.{Raw}
use scitt_payload_binding.Canonicalize.Digest.{
  as_raw, parse_json_object, canonical_digest, canonical_digest_json, jcs_n_name,
}
use scitt_payload_binding.Vintage.{
  Vintage, require_pre_cutoff_jcs_n_vintage, jcs_n_withdrawal_cutoff,
}
use scitt_payload_binding.Vintage.Cutoff.{Authenticates, require_vintage_iff}
use scitt_payload_binding.DeriveId.{
  derive_id, is_str, carried_differs, require_vintage_for, verify_carried_id,
}

-- The withdrawn algorithm has authenticated evidence from before the cutoff.
abbrev pub HasVintage : Text → Vintage → Text → Type 0
HasVintage algorithm vintage digest =
    algorithm ≡ jcs_n_name
    → (t : ℕ) × Authenticates vintage digest t × (t < jcs_n_withdrawal_cutoff)

is_str-eq : (v : Value) (t : Text) → is_str v t ≡ true → v ≡ str t
unfolding is_str
is_str-eq (str s) t h = ground (arith, text_eq_sound s t)
is_str-eq _ t h = cc

pub carried_differs-false :
    (o : Option Value) (t : Text) → carried_differs o t ≡ false → (o ≡ none) ⊎ (o ≡ some (str t))
unfolding carried_differs
carried_differs-false none t h = inl refl
carried_differs-false (some v) t h = elim (Bool-cases (is_str v t)) [
  | inl same ↦ inr (ap some (is_str-eq v t same))
  | inr other ↦ absurd (false≢true (sym h ∙ ap not other))
]

pub require_vintage_for-eq-ok :
    (algorithm : Text) (vintage : Vintage) (digest r : Text)
    → require_vintage_for algorithm vintage digest ≡ ok r
    → (r ≡ digest) × HasVintage algorithm vintage digest
unfolding require_vintage_for
require_vintage_for-eq-ok algorithm vintage digest r h =
    elim (Bool-cases (text_eq algorithm jcs_n_name)) [
      | inl old ↦
          let (t, he, hr) =
            >>=-eq-ok (require_pre_cutoff_jcs_n_vintage vintage digest) (λ _. ok digest)
              (rw old at h) in
          let proof = (require_vintage_iff vintage digest t).0 he in
          (cc, λ _. (t, proof.0, proof.1))
      | inr live ↦ (
        cc (rw live at h),
        λ e. absurd (false≢true (sym live ∙ (text_eq_iff algorithm jcs_n_name).1 e)),
      )
    ]

-- The wire gate accepts the raw JSON as `payload`, `digest` is its recomputed digest, the carried
-- field is absent or holds just that digest, and a withdrawn algorithm has its vintage proved.
pub record CarriedIdHolds (platform : Platform) (algorithm : Text) (excluded : List Text)
    (carried_field : Text) (vintage : Vintage) (raw : Value) (digest : Text) : Type 0 where
  pub payload : Fields
  pub accepted : parse_json_object platform algorithm raw ≡ ok payload
  pub recomputed : canonical_digest platform algorithm excluded (obj payload) ≡ ok digest
  pub agrees : (get carried_field payload ≡ none) ⊎ (get carried_field payload ≡ some (str digest))
  pub vouched : HasVintage algorithm vintage digest

raise_if-false : (b : Bool) (e : Error) → b ≡ false → raise_if b e ≡ ok tt
raise_if-false b e h = rw h

carried-agrees :
    (o : Option Value) (t : Text) → (o ≡ none) ⊎ (o ≡ some (str t)) → carried_differs o t ≡ false
unfolding carried_differs is_str
carried-agrees o t (inl e) = rw e
carried-agrees o t (inr e) = rw (e, carried_differs, text_eq_refl t)

pub vintage-require :
    (algorithm : Text) (vintage : Vintage) (digest : Text)
    → HasVintage algorithm vintage digest
    → require_vintage_for algorithm vintage digest ≡ ok digest
unfolding require_vintage_for
vintage-require algorithm vintage digest h = elim (Bool-cases (text_eq algorithm jcs_n_name)) [
  | inl old ↦
      let (t, a, before) = h (text_eq_sound algorithm jcs_n_name old) in
      rw (old, (require_vintage_iff vintage digest t).1 (a, before))
  | inr live ↦ rw live
]

as_raw-parse :
    (platform : Platform) (algorithm : Text) (raw : Value) (fs : Fields)
    → parse_json_object platform algorithm raw ≡ ok fs
    → (input : Raw) × (as_raw raw ≡ ok input)
unfolding parse_json_object
as_raw-parse platform algorithm raw fs h =
    let (input, e, _) = >>=-eq-ok (as_raw raw) _ h in (input, e)

-- Verification of a carried identifier returns a digest exactly when the raw input passes the wire
-- gate as a JSON object, the digest is the one recomputed from it, the carried field is absent or
-- equal to it, and, for the withdrawn algorithm, a verified pre-cutoff vintage binds it.
pub verify_carried_id_iff :
    (platform : Platform) (algorithm : Text) (excluded : List Text) (carried_field : Text)
    (vintage : Vintage) (raw : Value) (digest : Text)
    → (verify_carried_id platform algorithm excluded carried_field vintage raw ≡ ok digest)
      ↔ CarriedIdHolds platform algorithm excluded carried_field vintage raw digest
unfolding verify_carried_id
verify_carried_id_iff platform algorithm excluded carried_field vintage raw digest =
    (forward, backward)
  where
    forward :
        verify_carried_id platform algorithm excluded carried_field vintage raw ≡ ok digest
        → CarriedIdHolds platform algorithm excluded carried_field vintage raw digest
    forward h =
        let (input, _, h1) = >>=-eq-ok (as_raw raw) _ h in
        let (payload, accepted, h2) = >>=-eq-ok (parse_json_object platform algorithm raw) _ h1 in
        let (found, recomputed, h3) =
          >>=-eq-ok (canonical_digest platform algorithm excluded (obj payload)) _ h2 in
        let (_, same, h4) =
          >>=-eq-ok (raise_if (carried_differs (get carried_field payload) found) _) _ h3 in
        let (e, vouched) = require_vintage_for-eq-ok algorithm vintage found digest h4 in
        record {
          payload = payload;
          accepted = accepted;
          recomputed = rw e recomputed;
          agrees =
              rw e
                (carried_differs-false (get carried_field payload) found (raise_if-eq-ok _ _ same));
          vouched = rw e vouched;
        }

    backward :
        CarriedIdHolds platform algorithm excluded carried_field vintage raw digest
        → verify_carried_id platform algorithm excluded carried_field vintage raw ≡ ok digest
    backward c =
        let (input, e) = as_raw-parse platform algorithm raw c.payload c.accepted in
        rw (e, c.accepted, c.recomputed, carried-agrees _ digest c.agrees)
          (vintage-require algorithm vintage digest c.vouched)

-- No digest is ever constructed under the withdrawn algorithm, whatever the input.
pub derive_id-ne-jcs_n :
    (platform : Platform) (excluded : List Text) (raw : Value) (digest : Text)
    → derive_id platform jcs_n_name excluded raw ≢ ok digest
unfolding derive_id
derive_id-ne-jcs_n platform excluded raw digest h =
    let (_, _, h1) = >>=-eq-ok (as_raw raw) _ h in
    let (_, _, h2) = >>=-eq-ok (canonical_digest_json platform jcs_n_name excluded raw) _ h1 in
    cc h2
