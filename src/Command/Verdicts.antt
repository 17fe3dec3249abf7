-- ===== src/Command/Verdicts.antt =====
-- What the exit code 0 says.
use scitt_payload_binding.Common.{
  ℕ, ◌≡◌, refl, sym, ◌∙◌, ◌↔◌, false, not, Text, Bytes, List, ◌∷◌, Option, none, some, codes,
  text_eq, text_in, keep, arith,
}
use scitt_payload_binding.Errors.{Result, ok, err, out_of_fuel, value_error, unicode_error}
use scitt_payload_binding.Lex.Scanner.{octets}
use scitt_payload_binding.Check.{
  Verdict, conforming, non_conforming, digest_mismatch, unknown_id, CheckResult, check,
}
use scitt_payload_binding.Check.Conforming.{Conforms, check-conforming_iff}
use scitt_payload_binding.Command.{
  Environment, verdict_exit, check_exit, is_help, check_path, run_arguments, main,
}

check_exit-zero :
    (r : Result CheckResult)
    → check_exit r ≡ ok 0
    → (c : CheckResult) × (r ≡ ok c) × (c.verdict ≡ conforming)
unfolding check_exit
check_exit-zero (ok c) h = (c, refl, by_verdict c.verdict h)
  where
    by_verdict : (v : Verdict) → ok (verdict_exit v) ≡ ok 0 → v ≡ conforming
    by_verdict conforming e = refl
    by_verdict non_conforming e = ground arith
    by_verdict digest_mismatch e = ground arith
    by_verdict unknown_id e = ground arith
check_exit-zero (err value_error) h = ground arith
check_exit-zero (err unicode_error) h = ground arith
check_exit-zero (err _) h = ground arith
check_exit-zero out_of_fuel h = ground arith

zero-check_exit :
    (r : Result CheckResult) (c : CheckResult)
    → r ≡ ok c
    → c.verdict ≡ conforming
    → check_exit r ≡ ok 0
unfolding check_exit
zero-check_exit r c e v = rw (e, v)

-- the command is given this path, and neither --self-test nor a call for help
pub record GivenPath (argv : List Text) (path : Text) : Type 0 where
  pub rest : List Text
  pub arguments : keep (λ arg. not (text_eq arg (codes "--json"))) argv ≡ path ∷ rest
  pub no_self_test : text_in (codes "--self-test") (path ∷ rest) ≡ false
  pub no_help : is_help path ≡ false

main-check_path :
    (env : Environment) (argv : List Text) (path : Text)
    → GivenPath argv path
    → main env argv ≡ check_path env path
unfolding main run_arguments
main-check_path env argv path g = rw (g.arguments, g.no_self_test, g.no_help)

-- Given a path, the command exits with 0 exactly when the path can be read, the scanner reads a value
-- from its bytes without recording a violation, and normalization leaves that value as it is.
pub main-zero_iff :
    (env : Environment) (argv : List Text) (path : Text)
    → GivenPath argv path
    → (main env argv ≡ ok 0)
      ↔ ((raw : Bytes) × (env.read path ≡ some raw) × Conforms env.host (octets raw))
unfolding check_path
main-zero_iff env argv path g = (forward, backward)
  where
    by_read :
        (o : Option Bytes)
        → (elim o as (λ x. Result ℕ) [
          | none ↦ ok 2
          | some raw ↦ check_exit (check env.host (octets raw))
        ])
          ≡ ok 0
        → (raw : Bytes) × (o ≡ some raw) × Conforms env.host (octets raw)
    by_read none e = ground arith
    by_read (some raw) e = (
      raw,
      refl,
      (check-conforming_iff env.host (octets raw)).0
          (check_exit-zero (check env.host (octets raw)) e),
    )

    forward :
        main env argv ≡ ok 0
        → (raw : Bytes) × (env.read path ≡ some raw) × Conforms env.host (octets raw)
    forward h = by_read (env.read path) (sym (main-check_path env argv path g) ∙ h)

    backward :
        (raw : Bytes) × (env.read path ≡ some raw) × Conforms env.host (octets raw)
        → main env argv ≡ ok 0
    backward (raw, found, conforms) =
        let (c, returned, verdict) = (check-conforming_iff env.host (octets raw)).1 conforms in
        main-check_path env argv path g
        ∙ (rw (check_path, found)
            (zero-check_exit (check env.host (octets raw)) c returned verdict))
