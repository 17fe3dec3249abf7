-- ===== src/Vintage.antt =====
-- lib/cpb/vintage.py: the cutoff of the withdrawn jcs-n algorithm.
pub mod Cutoff
use scitt_payload_binding.Common.{
  ℕ, Bool, true, false, not, Text, Option, none, some, ltb, if◌then◌else◌,
}
use scitt_payload_binding.Value.{Value, null}
use scitt_payload_binding.Errors.{Result, ok, err, vintage_evidence}

-- What the callback returned: another type, a `datetime` with no UTC offset, or one with an offset,
-- as the microseconds from 0001-01-01T00:00Z, the least `datetime`, to its instant.
pub data Committed : Type 0 where
  not_datetime naive : Committed
  aware : ℕ → Committed

-- datetime(2026, 8, 18, tzinfo=timezone.utc)
abbrev pub jcs_n_withdrawal_cutoff : ℕ
jcs_n_withdrawal_cutoff = 63922608000000000

-- The callback on the evidence and the artifact digest; `none` is an exception that it raises.
abbrev pub VintageEvidenceVerifier : Type 0
VintageEvidenceVerifier = Value → Text → Option Committed

-- The two arguments `vintage_evidence` and `verify_vintage_evidence`. Python's None is `none` or `some null`.
pub record Vintage : Type 0 where
  pub evidence : Option Value
  pub verifier : Option VintageEvidenceVerifier

-- the checks on what the callback returned
unfoldable pub require_committed : Option Committed → Result ℕ
require_committed none = err vintage_evidence
require_committed (some not_datetime) = err vintage_evidence
require_committed (some naive) = err vintage_evidence
require_committed (some (aware t)) =
    if ltb t jcs_n_withdrawal_cutoff then ok t else err vintage_evidence

unfoldable pub require_evidence : Option Value → Option VintageEvidenceVerifier → Text → Result ℕ
require_evidence (some null) verify digest = err vintage_evidence
require_evidence (some evidence) (some verify) digest = require_committed (verify evidence digest)
require_evidence none verify digest = err vintage_evidence
require_evidence (some evidence) none digest = err vintage_evidence

unfoldable pub require_pre_cutoff_jcs_n_vintage : Vintage → Text → Result ℕ
require_pre_cutoff_jcs_n_vintage vintage digest =
    require_evidence vintage.evidence vintage.verifier digest
