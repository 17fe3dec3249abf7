-- ===== src/Tests/Commands.antt =====
-- Runs of the command line, and the results on its exit codes at inputs.
use scitt_payload_binding.Common.{
  ◌≡◌, refl, ◌↔◌, Text, Bytes, List, [], ◌∷◌, Option, none, some, codes, text_eq, if◌then◌else◌,
  All,
}
use scitt_payload_binding.Value.{str, Fields, no_fields, field}
use scitt_payload_binding.Errors.{ok}
use scitt_payload_binding.Lex.Scanner.{octets}
use scitt_payload_binding.Check.{conforming, non_conforming}
use scitt_payload_binding.Check.Conforming.{Conforms}
use scitt_payload_binding.Command.{Environment, self_test, main}
use scitt_payload_binding.Command.Verdicts.{GivenPath, main-zero_iff}
use scitt_payload_binding.Command.Judged.{Good, Shown}
use scitt_payload_binding.Command.Vouched.{self_test-zero}
use scitt_payload_binding.Tests.Sample.{sample_host}
use scitt_payload_binding.Runs.{lex_runs, digest_runs, command_runs}

abbrev vector : Text → Text → Fields
vector expected raw =
    field (codes "expected_verdict") (str expected) (field (codes "record_raw") (str raw) no_fields)

abbrev files : List (Option Fields)
files =
    some (vector (codes "conforming") (codes "{\"n\":1}"))
    ∷ some (vector (codes "non-conforming") (codes "{\"n\":null}"))
    ∷ some no_fields
    ∷ []

abbrev command : Environment
command = record {
  host = sample_host;
  read = λ path. if text_eq path (codes "r.json") then some (codes "{\"n\":1}") else none;
  vectors = some files;
  dumps = λ v. codes "{}";
  show = λ v. codes "None";
}

abbrev arguments : List Text
arguments = codes "--json" ∷ codes "r.json" ∷ []

given : GivenPath arguments (codes "r.json")
given = record { rest = []; arguments = refl; no_self_test = refl; no_help = refl }

main-zero_iff_example : (main command arguments ≡ ok 0) ↔ (
    (raw : Bytes) × (command.read (codes "r.json") ≡ some raw) × Conforms command.host (octets raw))
main-zero_iff_example = main-zero_iff command arguments (codes "r.json") given

self_test_run : self_test command ≡ ok 0
unfolding lex_runs digest_runs command_runs
self_test_run = refl

self_test-zero_example :
    (fs : List (Option Fields)) × (command.vectors ≡ some fs)
    × All (Good command) fs
    × Shown command conforming fs
    × Shown command non_conforming fs
self_test-zero_example = self_test-zero command self_test_run
