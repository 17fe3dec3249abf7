-- ===== src/Command/Judged.antt =====
-- What the self test finds out about one file.
use scitt_payload_binding.Common.{
  ◌≡◌, refl, sym, ap, ◌∙◌, true, List, [], ◌∷◌, Option, none, some, codes, text_eq_sound,
  Bool-cases, Option-cases, inl, inr, ◌⊎◌,
}
use scitt_payload_binding.Value.{Value, null, str, Fields, get}
use scitt_payload_binding.Errors.{Result, ok, err, out_of_fuel}
use scitt_payload_binding.Lex.Scanner.{text}
use scitt_payload_binding.Check.{Verdict, CheckResult, check}
use scitt_payload_binding.Command.{
  Environment, Outcome, skipped, passed, expects, verdict_name, raw_text, vector_raw, check_value,
  hashable, compare_verdict, outcome_of_expected, outcome,
}

-- the raw input of a vector: its `record_raw`, or the JSON text of its `record`
abbrev pub RawOf : Environment → Fields → Value → Type 0
RawOf env vec raw =
    (get (codes "record_raw") vec ≡ some raw)
    ⊎ ((get (codes "record_raw") vec ≡ none)
        × (v : Value) × (get (codes "record") vec ≡ some v)
        × (raw ≡ str (env.dumps v)))

-- the file loads, expects a verdict of a record, and the checker gives just this verdict for it
pub record Gets (env : Environment) (file : Option Fields) (expected : Value) : Type 0 where
  pub vec : Fields
  pub raw : Value
  pub result : CheckResult
  pub loads : file ≡ some vec
  pub expects_it : get (codes "expected_verdict") vec ≡ some expected
  pub has_raw : RawOf env vec raw
  pub checked : check env.host (text (raw_text env raw)) ≡ ok result
  pub agrees : expected ≡ str (verdict_name result.verdict)

-- the file loads, and expects no verdict or has no record
abbrev pub Skips : Option Fields → Type 0
Skips file =
    (vec : Fields) × (file ≡ some vec)
    × ((get (codes "expected_verdict") vec ≡ none)
        ⊎ ((get (codes "expected_verdict") vec ≡ some null)
            ⊎ ((get (codes "record_raw") vec ≡ none) × (get (codes "record") vec ≡ none))))

-- The file loads, and its record has the verdict that the file expects, if it expects one of a record.
abbrev pub Good : Environment → Option Fields → Type 0
Good env file = Skips file ⊎ ((expected : Value) × Gets env file expected)

-- some file expects this verdict of a record, and gets it
abbrev pub Shown : Environment → Verdict → List (Option Fields) → Type 0
Shown env verdict [] = ⊥
Shown env verdict (f ∷ fs) = Gets env f (str (verdict_name verdict)) ⊎ Shown env verdict fs

pub expects-name :
    (v : Value) (verdict : Verdict) → expects v verdict ≡ true → v ≡ str (verdict_name verdict)
unfolding expects
expects-name (str t) verdict h = ap str (sym (text_eq_sound (verdict_name verdict) t h))
expects-name _ verdict h = cc

compare_verdict-passed :
    (expected e : Value) (r : Result CheckResult)
    → compare_verdict expected r ≡ ok (passed e)
    → (result : CheckResult) × (r ≡ ok result)
      × (expected ≡ e)
      × (expected ≡ str (verdict_name result.verdict))
unfolding compare_verdict
compare_verdict-passed expected e (ok result) h =
    elim (Bool-cases (expects expected result.verdict)) [
      | inl same ↦ (result, refl, cc (rw same at h), expects-name expected result.verdict same)
      | inr other ↦ cc (rw other at h)
    ]
compare_verdict-passed expected e (err x) h = cc
compare_verdict-passed expected e out_of_fuel h = cc

compare_verdict-ran :
    (expected : Value) (r : Result CheckResult) → compare_verdict expected r ≡ ok skipped → ⊥
unfolding compare_verdict
compare_verdict-ran expected (ok result) h = elim (Bool-cases (expects expected result.verdict)) [
  | inl same ↦ cc (rw same at h)
  | inr other ↦ cc (rw other at h)
]
compare_verdict-ran expected (err x) h = cc
compare_verdict-ran expected out_of_fuel h = cc

vector_raw-some :
    (env : Environment) (vec : Fields) (raw : Value)
    → vector_raw env vec ≡ some raw
    → RawOf env vec raw
unfolding vector_raw
vector_raw-some env vec raw h = elim (Option-cases (get (codes "record_raw") vec)) [
  | inr (r, e) ↦ let same : r ≡ raw = cc (rw (e, vector_raw) at h) in inl (e ∙ ap some same)
  | inl lacks ↦ elim (Option-cases (get (codes "record") vec)) [
    | inr (r, e) ↦
        let same : str (env.dumps r) ≡ raw = cc (rw (lacks, e, vector_raw) at h) in
        inr (lacks, r, e, sym same)
    | inl none_too ↦ cc (rw (lacks, none_too, vector_raw) at h)
  ]
]

vector_raw-none :
    (env : Environment) (vec : Fields)
    → vector_raw env vec ≡ none
    → (get (codes "record_raw") vec ≡ none) × (get (codes "record") vec ≡ none)
unfolding vector_raw
vector_raw-none env vec h = elim (Option-cases (get (codes "record_raw") vec)) [
  | inr (r, e) ↦ cc (rw (e, vector_raw) at h)
  | inl lacks ↦ elim (Option-cases (get (codes "record") vec)) [
    | inr (r, e) ↦ cc (rw (lacks, e, vector_raw) at h)
    | inl none_too ↦ (lacks, none_too)
  ]
]

outcome_of_expected-passed :
    (env : Environment) (vec : Fields) (expected e : Value)
    → get (codes "expected_verdict") vec ≡ some expected
    → outcome_of_expected env vec expected ≡ ok (passed e)
    → Gets env (some vec) e
unfolding outcome_of_expected check_value
outcome_of_expected-passed env vec expected e asked h = elim (Option-cases (vector_raw env vec)) [
  | inl lacks ↦ cc (rw (lacks, outcome_of_expected) at h)
  | inr (raw, found) ↦ elim (Bool-cases (hashable expected)) [
    | inr bad ↦ cc (rw (found, bad, outcome_of_expected) at h)
    | inl good ↦
        let (result, ran, same, named) =
          compare_verdict-passed expected e (check_value env raw)
            (rw (found, good, outcome_of_expected) at h) in
        record {
          vec = vec;
          raw = raw;
          result = result;
          loads = refl;
          expects_it = asked ∙ ap some same;
          has_raw = vector_raw-some env vec raw found;
          checked = ran;
          agrees = sym same ∙ named;
        }
  ]
]

outcome_of_expected-skipped :
    (env : Environment) (vec : Fields) (expected : Value)
    → outcome_of_expected env vec expected ≡ ok skipped
    → Skips (some vec)
unfolding outcome_of_expected
outcome_of_expected-skipped env vec expected h = elim (Option-cases (vector_raw env vec)) [
  | inl lacks ↦ (vec, refl, inr (inr (vector_raw-none env vec lacks)))
  | inr (raw, found) ↦ elim (Bool-cases (hashable expected)) [
    | inr bad ↦ cc (rw (found, bad, outcome_of_expected) at h)
    | inl good ↦ absurd (
        compare_verdict-ran expected (check_value env raw)
          (rw (found, good, outcome_of_expected) at h))
  ]
]

pub outcome-passed :
    (env : Environment) (file : Option Fields) (e : Value)
    → outcome env file ≡ ok (passed e)
    → Gets env file e
unfolding outcome
outcome-passed env none e h = cc
outcome-passed env (some vec) e h = by_expected (get (codes "expected_verdict") vec) refl h
  where
    by_expected :
        (o : Option Value)
        → get (codes "expected_verdict") vec ≡ o
        → (elim o as (λ x. Result Outcome) [
          | none ↦ ok skipped
          | some null ↦ ok skipped
          | some expected ↦ outcome_of_expected env vec expected
        ])
          ≡ ok (passed e)
        → Gets env (some vec) e
    by_expected none k h = cc
    by_expected (some null) k h = cc
    by_expected (some expected) k h = outcome_of_expected-passed env vec expected e k h

pub outcome-skipped :
    (env : Environment) (file : Option Fields) → outcome env file ≡ ok skipped → Skips file
unfolding outcome
outcome-skipped env none h = cc
outcome-skipped env (some vec) h = by_expected (get (codes "expected_verdict") vec) refl h
  where
    by_expected :
        (o : Option Value)
        → get (codes "expected_verdict") vec ≡ o
        → (elim o as (λ x. Result Outcome) [
          | none ↦ ok skipped
          | some null ↦ ok skipped
          | some expected ↦ outcome_of_expected env vec expected
        ])
          ≡ ok skipped
        → Skips (some vec)
    by_expected none k h = (vec, refl, inl k)
    by_expected (some null) k h = (vec, refl, inr (inl k))
    by_expected (some expected) k h = outcome_of_expected-skipped env vec expected h
