-- ===== src/Command.antt =====
-- lib/cpb/_cli.py: the exit codes of `cpb-check` and of its self test. What is printed is left out.
pub mod Verdicts
pub mod Judged
pub mod Vouched
use scitt_payload_binding.Common.{
  ℕ, ◌+◌, Bool, true, false, ◌&&◌, ◌||◌, not, Text, Bytes, List, [], ◌∷◌, Option, none, some, ◌==◌,
  if◌then◌else◌, codes, text_eq, text_in, keep,
}
use scitt_payload_binding.Value.{Value, null, str, arr, obj, Fields, get}
use scitt_payload_binding.Errors.{
  Result, ok, err, out_of_fuel, ◌>>=◌, type_error, value_error, unicode_error,
}
use scitt_payload_binding.Python.{Host}
use scitt_payload_binding.Lex.Scanner.{Raw, text, octets}
use scitt_payload_binding.Check.{
  Verdict, conforming, non_conforming, digest_mismatch, unknown_id, CheckResult, check,
}

abbrev pub exit_conforming : ℕ
exit_conforming = 0

abbrev pub exit_non_conforming : ℕ
exit_non_conforming = 1

abbrev pub exit_error : ℕ
exit_error = 2

-- What the command reads: a record by its path argument (none is OSError), the packaged vectors (none
-- is a missing directory) as the objects that `json.loads` gives, in order (none is a file that does
-- not load), `json.dumps` of a record, and `str` of a value that is no string.
pub record Environment : Type 0 where
  pub host : Host
  pub read : Text → Option Bytes
  pub vectors : Option (List (Option Fields))
  pub dumps : Value → Text
  pub show : Value → Text

abbrev pub verdict_name : Verdict → Text
verdict_name conforming = codes "conforming"
verdict_name non_conforming = codes "non-conforming"
verdict_name digest_mismatch = codes "digest-mismatch"
verdict_name unknown_id = codes "unknown-id"

abbrev pub verdict_exit : Verdict → ℕ
verdict_exit conforming = exit_conforming
verdict_exit _ = exit_non_conforming

-- What the self test finds out about a packaged file, with its expected verdict.
pub data Outcome : Type 0 where
  load_error skipped : Outcome
  passed failed : Value → Outcome

-- the raw input of a vector
unfoldable pub vector_raw : Environment → Fields → Option Value
vector_raw env vec = elim (get (codes "record_raw") vec) [
  | some raw ↦ some raw
  | none ↦ elim (get (codes "record") vec) [
    | some record_value ↦ some (str (env.dumps record_value))
    | none ↦ none
  ]
]

-- `str(raw)`
unfoldable pub raw_text : Environment → Value → Text
raw_text env (str t) = t
raw_text env v = env.show v

-- `check(raw)`: the scanner takes `str(raw)` of what is not bytes
unfoldable pub check_value : Environment → Value → Result CheckResult
check_value env raw = check env.host (text (raw_text env raw))

unfoldable pub expects : Value → Verdict → Bool
expects (str t) verdict = text_eq (verdict_name verdict) t
expects _ verdict = false

-- every exception that `check` raises is caught
unfoldable pub compare_verdict : Value → Result CheckResult → Result Outcome
compare_verdict expected (ok result) =
    if expects expected result.verdict then ok (passed expected) else ok (failed expected)
compare_verdict expected (err e) = ok (failed expected)
compare_verdict expected out_of_fuel = out_of_fuel

-- `expected` is a key of `checked_by_verdict`, so it must be hashable
unfoldable pub hashable : Value → Bool
hashable (arr xs) = false
hashable (obj fs) = false
hashable _ = true

unfoldable pub outcome_of_expected : Environment → Fields → Value → Result Outcome
outcome_of_expected env vec expected = elim (vector_raw env vec) [
  | none ↦ ok skipped
  | some raw ↦
      if hashable expected then compare_verdict expected (check_value env raw) else err type_error
]

-- the body of the loop over the files
unfoldable pub outcome : Environment → Option Fields → Result Outcome
outcome env none = ok load_error
outcome env (some vec) = elim (get (codes "expected_verdict") vec) [
  | none ↦ ok skipped
  | some null ↦ ok skipped
  | some expected ↦ outcome_of_expected env vec expected
]

-- The counters that decide the exit code.
pub record Counts : Type 0 where
  pub failures : ℕ
  pub checked : ℕ
  pub expected_conforming : ℕ
  pub expected_non_conforming : ℕ

abbrev pub no_counts : Counts
no_counts = record {
  failures = 0;
  checked = 0;
  expected_conforming = 0;
  expected_non_conforming = 0;
}

abbrev pub one_if : Bool → ℕ
one_if b = if b then 1 else 0

-- `checked_by_verdict[expected] += 1`
unfoldable pub count_expected : Value → Counts → Counts
count_expected expected c = record c {
  checked = c.checked + 1;
  expected_conforming = c.expected_conforming + one_if (expects expected conforming);
  expected_non_conforming = c.expected_non_conforming + one_if (expects expected non_conforming);
}

unfoldable pub tally : Outcome → Counts → Counts
tally load_error c = record c { failures = c.failures + 1 }
tally skipped c = c
tally (passed expected) c = count_expected expected c
tally (failed expected) c =
    let counted = count_expected expected c in record counted { failures = counted.failures + 1 }

unfoldable pub run_vectors : Environment → List (Option Fields) → Counts → Result Counts
run_vectors env [] c = ok c
run_vectors env (f ∷ fs) c = outcome env f >>= λ o. run_vectors env fs (tally o c)

-- the exit code of a run
unfoldable pub counts_exit : Counts → ℕ
counts_exit c =
    if c.checked == 0
    then exit_non_conforming
    else if c.expected_conforming == 0 || c.expected_non_conforming == 0
    then exit_non_conforming
    else if c.failures == 0
    then exit_conforming
    else exit_non_conforming

-- _self_test
unfoldable pub self_test : Environment → Result ℕ
self_test env = elim env.vectors [
  | none ↦ ok exit_error
  | some files ↦ run_vectors env files no_counts >>= λ c. ok (counts_exit c)
]

-- `except (ValueError, UnicodeDecodeError)`
unfoldable pub check_exit : Result CheckResult → Result ℕ
check_exit (ok result) = ok (verdict_exit result.verdict)
check_exit (err value_error) = ok exit_error
check_exit (err unicode_error) = ok exit_error
check_exit (err e) = err e
check_exit out_of_fuel = out_of_fuel

abbrev pub is_help : Text → Bool
is_help arg = text_eq arg (codes "-h") || text_eq arg (codes "--help")

-- the record of a path argument
unfoldable pub check_path : Environment → Text → Result ℕ
check_path env path = elim (env.read path) [
  | none ↦ ok exit_error
  | some raw ↦ check_exit (check env.host (octets raw))
]

-- the arguments without --json and --self-test
unfoldable pub run_arguments : Environment → List Text → Result ℕ
run_arguments env [] = ok exit_error
run_arguments env (arg ∷ args) = if is_help arg then ok exit_conforming else check_path env arg

-- main
unfoldable pub main : Environment → List Text → Result ℕ
main env argv =
    let args = keep (λ arg. not (text_eq arg (codes "--json"))) argv in
    if text_in (codes "--self-test") args then self_test env else run_arguments env args
