-- ===== src/Check/Conforming.antt =====
-- When the checker's verdict is `conforming`.
use scitt_payload_binding.Common.{◌≡◌, refl, ap, ◌∙◌, ◌↔◌, List, [], ◌∷◌, ◌++◌, map, codes, true}
use scitt_payload_binding.Value.{Value}
use scitt_payload_binding.Errors.{ok, >>=-eq-ok, RawViolation}
use scitt_payload_binding.Python.{Host}
use scitt_payload_binding.Lex.Scanner.{Raw, lex_raw}
use scitt_payload_binding.Canonicalize.Normalize.{normalize}
use scitt_payload_binding.Check.Walk.{Violation, check_p}
use scitt_payload_binding.Check.NormalForm.{check_p-nil_iff}
use scitt_payload_binding.Check.{conforming, CheckResult, as_r_violation, judge, check}

-- the checker returns with the verdict `conforming`
abbrev pub Passes : Host → Raw → Type 0
Passes host raw = (r : CheckResult) × (check host raw ≡ ok r) × (r.verdict ≡ conforming)

-- the scanner reads a value in normal form, without a violation
abbrev pub Conforms : Host → Raw → Type 0
Conforms host raw = (v : Value) × (lex_raw host raw ≡ ok (v, [])) × (normalize v ≡ v)

judge-conforming : (vs : List Violation) → (judge vs).verdict ≡ conforming → vs ≡ []
unfolding judge
judge-conforming [] h = refl
judge-conforming (v ∷ vs) h = cc

both_empty :
    (found : List RawViolation) (vs : List Violation)
    → map as_r_violation found ++ vs ≡ []
    → (found ≡ []) × (vs ≡ [])
both_empty [] vs h = (refl, h)
both_empty (rv ∷ found) vs h = cc

-- The verdict on a raw input is `conforming` exactly when the scanner reads a value from it without
-- recording a violation and normalization leaves that value as it is.
pub check-conforming_iff : (host : Host) (raw : Raw) → Passes host raw ↔ Conforms host raw
unfolding check
check-conforming_iff host raw = (forward, backward)
  where
    forward : Passes host raw → Conforms host raw
    forward (r, returned, verdict) =
        let ((v, found), scanned, last) = >>=-eq-ok (lex_raw host raw) _ returned in
        let judged : judge (map as_r_violation found ++ check_p host (codes "$") v) ≡ r = cc last in
        let (clean, normal) =
          both_empty found (check_p host (codes "$") v)
            (judge-conforming _ (ap (λ (c : CheckResult). c.verdict) judged ∙ verdict)) in
        (v, scanned ∙ ap (λ vs. ok (v, vs)) clean, (check_p-nil_iff host (codes "$") v).0 normal)

    backward : Conforms host raw → Passes host raw
    backward (v, scanned, normal) = (
      record { verdict = conforming; violations = []; note = true },
      rw (scanned, (check_p-nil_iff host (codes "$") v).1 normal) (unfold judge in refl),
      refl,
    )
