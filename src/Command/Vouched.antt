-- ===== src/Command/Vouched.antt =====
-- What a self test that exits with 0 vouches for.
use scitt_payload_binding.Common.{
  ℕ, ◌+◌, ◌≡◌, ◌≢◌, refl, sym, ap, ◌∙◌, subst, Bool, true, false, List, [], ◌∷◌, Option, none, some,
  All, Bool-cases, inl, inr, ◌⊎◌, arith,
}
use scitt_payload_binding.Value.{Value, Fields}
use scitt_payload_binding.Errors.{Result, ok, ◌>>=◌, >>=-eq-ok}
use scitt_payload_binding.Check.{Verdict, conforming, non_conforming}
use scitt_payload_binding.Command.Judged.{
  Gets, Good, Shown, expects-name, outcome-passed, outcome-skipped,
}
use scitt_payload_binding.Command.{
  Environment, Outcome, load_error, skipped, passed, failed, expects, outcome, Counts, no_counts,
  one_if, count_expected, tally, run_vectors, counts_exit, self_test,
}

-- the failures are those of the files behind, and of this one
tally-failures :
    (o : Outcome) (c : Counts)
    → (tally o c).failures ≡ 0
    → (c.failures ≡ 0) × ((o ≡ skipped) ⊎ ((expected : Value) × (o ≡ passed expected)))
unfolding tally count_expected
tally-failures load_error c h = ground arith
tally-failures skipped c h = (h, inl refl)
tally-failures (passed expected) c h = (h, inr (expected, refl))
tally-failures (failed expected) c h = ground arith

run_vectors-failures :
    (env : Environment) (fs : List (Option Fields)) (c d : Counts)
    → run_vectors env fs c ≡ ok d
    → d.failures ≡ 0
    → (c.failures ≡ 0) × All (Good env) fs
unfolding run_vectors
run_vectors-failures env [] c d h clean =
    let same : c ≡ d = cc h in (ap (λ (x : Counts). x.failures) same ∙ clean, tt)
run_vectors-failures env (f ∷ fs) c d h clean =
    let (o, found, h1) = >>=-eq-ok (outcome env f) _ h in
    let (before, others) = run_vectors-failures env fs (tally o c) d h1 clean in
    let (c_clean, kind) = tally-failures o c before in (c_clean, (good o found kind, others))
  where
    good :
        (o : Outcome)
        → outcome env f ≡ ok o
        → (o ≡ skipped) ⊎ ((expected : Value) × (o ≡ passed expected))
        → Good env f
    good o e (inl k) = inl (outcome-skipped env f (e ∙ ap ok k))
    good o e (inr (expected, k)) = inr (expected, outcome-passed env f expected (e ∙ ap ok k))

-- the counter of a verdict
abbrev counter : Bool → Counts → ℕ
counter true c = c.expected_conforming
counter false c = c.expected_non_conforming

abbrev verdict_of : Bool → Verdict
verdict_of true = conforming
verdict_of false = non_conforming

counted :
    (b : Bool) (expected : Value) (c : Counts)
    → counter b (count_expected expected c) ≡ counter b c + one_if (expects expected (verdict_of b))
unfolding count_expected
counted true expected c = refl
counted false expected c = refl

-- A counter that does not stay at 0 was raised by a file, which got its verdict if nothing failed.
run_vectors-Shown :
    (env : Environment) (b : Bool) (fs : List (Option Fields)) (c d : Counts)
    → run_vectors env fs c ≡ ok d
    → d.failures ≡ 0
    → counter b c ≡ 0
    → counter b d ≢ 0
    → Shown env (verdict_of b) fs
unfolding run_vectors tally
run_vectors-Shown env b [] c d h clean none_yet some_counted =
    let same : c ≡ d = cc h in absurd (some_counted (ap (counter b) (sym same) ∙ none_yet))
run_vectors-Shown env b (f ∷ fs) c d h clean none_yet some_counted =
    let (o, found, h1) = >>=-eq-ok (outcome env f) _ h in
    let (before, _) = run_vectors-failures env fs (tally o c) d h1 clean in
    by_outcome o found h1 (tally-failures o c before).1
      (λ stays. run_vectors-Shown env b fs (tally o c) d h1 clean stays some_counted)
  where
    by_outcome :
        (o : Outcome)
        → outcome env f ≡ ok o
        → run_vectors env fs (tally o c) ≡ ok d
        → (o ≡ skipped) ⊎ ((expected : Value) × (o ≡ passed expected))
        → (counter b (tally o c) ≡ 0 → Shown env (verdict_of b) fs)
        → Shown env (verdict_of b) (f ∷ fs)
    by_outcome o found h1 (inl k) later =
        inr (later (subst (λ x. counter b (tally x c) ≡ 0) (sym k) none_yet))
    by_outcome o found h1 (inr (expected, k)) later =
        elim (Bool-cases (expects expected (verdict_of b))) [
          | inl e ↦ inl (
              subst (Gets env f) (expects-name expected (verdict_of b) e)
                (outcome-passed env f expected (found ∙ ap ok k)))
          | inr e ↦ inr (
              later (
                subst (λ x. counter b (tally x c) ≡ 0) (sym k)
                  (counted b expected c ∙ rw (none_yet, e))))
        ]

counts_exit-zero :
    (c : Counts)
    → counts_exit c ≡ 0
    → (c.failures ≡ 0) × (c.expected_conforming ≢ 0) × (c.expected_non_conforming ≢ 0)
unfolding counts_exit
counts_exit-zero c h = (ground arith, (λ e. ground arith), λ e. ground arith)

-- When the self test exits with 0, the packaged vectors are there, every file loads, every file that
-- expects a verdict and has a record gets just that verdict from the checker on its raw input, and some
-- file expects and gets the verdict `conforming`, and some file `non-conforming`.
pub self_test-zero :
    (env : Environment)
    → self_test env ≡ ok 0
    → (files : List (Option Fields)) × (env.vectors ≡ some files)
      × All (Good env) files
      × Shown env conforming files
      × Shown env non_conforming files
unfolding self_test
self_test-zero env h = by_vectors env.vectors h
  where
    by_vectors :
        (o : Option (List (Option Fields)))
        → (elim o as (λ x. Result ℕ) [
          | none ↦ ok 2
          | some files ↦ run_vectors env files no_counts >>= λ c. ok (counts_exit c)
        ])
          ≡ ok 0
        → (files : List (Option Fields)) × (o ≡ some files)
          × All (Good env) files
          × Shown env conforming files
          × Shown env non_conforming files
    by_vectors none e = ground arith
    by_vectors (some files) e =
        let (c, ran, last) = >>=-eq-ok (run_vectors env files no_counts) _ e in
        let zero_exit : counts_exit c ≡ 0 = cc last in
        let (clean, some_conforming, some_not) = counts_exit-zero c zero_exit in
        (
          files,
          refl,
          (run_vectors-failures env files no_counts c ran clean).1,
          run_vectors-Shown env true files no_counts c ran clean refl some_conforming,
          run_vectors-Shown env false files no_counts c ran clean refl some_not,
        )
