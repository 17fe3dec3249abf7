-- ===== src/Check.antt =====
-- lib/cpb/check.py: the P (normal-form) and R (wire) rules of the grammar checker.
pub mod Walk
pub mod NormalForm
pub mod Conforming
use scitt_payload_binding.Common.{
  ℕ, ◌+◌, Bool, true, false, Text, List, [], ◌∷◌, ◌++◌, map, if◌then◌else◌, is_empty, codes,
}
use scitt_payload_binding.Value.{Value}
use scitt_payload_binding.Errors.{Result, ok, err, out_of_fuel, ◌>>=◌, RawViolation, Detail}
use scitt_payload_binding.Python.{Host}
use scitt_payload_binding.Lex.Scanner.{Raw, lex_raw}
use scitt_payload_binding.Check.Walk.{Violation, Rule, r_rule, check_p}

-- The verdicts `digest-mismatch` and `unknown-id` are declared and never produced.
pub data Verdict : Type 0 where
  conforming non_conforming digest_mismatch unknown_id : Verdict

-- `note` says whether the explanatory note of a passed check is there.
pub record CheckResult : Type 0 where
  pub verdict : Verdict
  pub violations : List Violation
  pub note : Bool

abbrev pub as_r_violation : RawViolation → Violation
as_r_violation rv = record { path = rv.path; rule = r_rule; detail = rv.detail }

unfoldable pub check_r : Host → Raw → Result (List Violation)
check_r host raw = lex_raw host raw >>= λ (v, found). ok (map as_r_violation found)

-- the verdict on a list of violations
unfoldable pub judge : List Violation → CheckResult
judge all_violations =
    if is_empty all_violations
    then record { verdict = conforming; violations = []; note = true }
    else record { verdict = non_conforming; violations = all_violations; note = false }

unfoldable pub check : Host → Raw → Result CheckResult
check host raw = lex_raw host raw >>= λ (v, found).
    ok (judge (map as_r_violation found ++ check_p host (codes "$") v))
