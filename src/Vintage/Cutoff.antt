-- ===== src/Vintage/Cutoff.antt =====
-- When authenticated evidence is accepted.
use scitt_payload_binding.Common.{ℕ, ◌<◌, ◌≡◌, ◌≢◌, refl, ◌↔◌, Text, Option, none, some, arith}
use scitt_payload_binding.Value.{Value, null}
use scitt_payload_binding.Errors.{ok}
use scitt_payload_binding.Vintage.{
  Committed, aware, not_datetime, naive, Vintage, VintageEvidenceVerifier, require_committed,
  require_evidence, require_pre_cutoff_jcs_n_vintage, jcs_n_withdrawal_cutoff,
}

-- Evidence that is not None and a callback are there, and the callback authenticates `digest` at the instant `t`.
pub record Authenticates (vintage : Vintage) (digest : Text) (t : ℕ) : Type 0 where
  pub evidence : Value
  pub verifier : VintageEvidenceVerifier
  pub has_evidence : vintage.evidence ≡ some evidence
  pub is_evidence : evidence ≢ null
  pub has_verifier : vintage.verifier ≡ some verifier
  pub authenticated : verifier evidence digest ≡ some (aware t)

require_committed-eq-ok :
    (c : Option Committed) (t : ℕ)
    → require_committed c ≡ ok t
    → (c ≡ some (aware t)) × (t < jcs_n_withdrawal_cutoff)
unfolding require_committed
require_committed-eq-ok none t h = cc
require_committed-eq-ok (some not_datetime) t h = cc
require_committed-eq-ok (some naive) t h = cc
require_committed-eq-ok (some (aware u)) t h = ground arith

require_evidence-eq-ok :
    (e : Option Value) (v : Option VintageEvidenceVerifier) (digest : Text) (t : ℕ)
    → require_evidence e v digest ≡ ok t
    → (evidence : Value) × (verifier : VintageEvidenceVerifier) × (e ≡ some evidence)
      × (evidence ≢ null)
      × (v ≡ some verifier)
      × (require_committed (verifier evidence digest) ≡ ok t)
unfolding require_evidence
require_evidence-eq-ok (some null) v digest t h = cc
require_evidence-eq-ok (some e) (some v) digest t h = (e, v, refl, (λ n. cc n), refl, h)
require_evidence-eq-ok none v digest t h = cc
require_evidence-eq-ok (some e) none digest t h = cc

evidence-committed :
    (e : Value) (v : VintageEvidenceVerifier) (digest : Text)
    → e ≢ null
    → require_evidence (some e) (some v) digest ≡ require_committed (v e digest)
unfolding require_evidence
evidence-committed null v digest h = absurd (h refl)
evidence-committed _ v digest h = refl

-- The cutoff check returns an instant exactly when evidence other than None and a callback are there, the callback
-- authenticates the digest at that instant, and the instant lies before the withdrawal cutoff.
pub require_vintage_iff :
    (vintage : Vintage) (digest : Text) (t : ℕ)
    → (require_pre_cutoff_jcs_n_vintage vintage digest ≡ ok t)
      ↔ (Authenticates vintage digest t × (t < jcs_n_withdrawal_cutoff))
unfolding require_pre_cutoff_jcs_n_vintage require_evidence
require_vintage_iff vintage digest t = (forward, backward)
  where
    forward :
        require_evidence vintage.evidence vintage.verifier digest ≡ ok t
        → Authenticates vintage digest t × (t < jcs_n_withdrawal_cutoff)
    forward h =
        let (e, v, he, hn, hv, hc) =
          require_evidence-eq-ok vintage.evidence vintage.verifier digest t h in
        let (ha, before) = require_committed-eq-ok (v e digest) t hc in
        (
          record {
            evidence = e;
            verifier = v;
            has_evidence = he;
            is_evidence = hn;
            has_verifier = hv;
            authenticated = ha;
          },
          before,
        )

    backward :
        Authenticates vintage digest t × (t < jcs_n_withdrawal_cutoff)
        → require_evidence vintage.evidence vintage.verifier digest ≡ ok t
    backward (a, before) =
        let committed = evidence-committed a.evidence a.verifier digest a.is_evidence in
        rw (a.has_evidence, a.has_verifier, committed, a.authenticated)
          (unfold require_committed in ground arith)
