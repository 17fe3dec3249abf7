-- ===== src/Tests/Lex.antt =====
-- Runs of the scanner.
use scitt_payload_binding.Common.{◌≡◌, refl, [], ◌∷◌, codes}
use scitt_payload_binding.Common.Int.{pos, negsuc}
use scitt_payload_binding.Value.{null, int, str, arr, obj, no_items, item, no_fields, field}
use scitt_payload_binding.Errors.{
  ok, err, value_error, duplicate_key, repeated, number_token_form, not_integer_form,
}
use scitt_payload_binding.Runs.{lex_runs}
use scitt_payload_binding.Tests.Sample.{sample_host}
use scitt_payload_binding.Lex.Scanner.{lex}

lex_plain :
    lex sample_host (codes " {\"a\" : [1, -20, null], \"b\":{}} ")
    ≡ ok (
      obj (
          field
            (codes "a")
            (arr (item (int (pos 1)) (item (int (negsuc 19)) (item null no_items))))
            (field (codes "b") (obj no_fields) no_fields)),
      [],
    )
unfolding lex_runs
lex_plain = refl

-- The last value wins, and the repeated key is reported at its path.
lex_duplicate :
    lex sample_host (codes "{\"a\":1,\"a\":2}")
    ≡ ok (
      obj (field (codes "a") (int (pos 2)) no_fields),
      record {
        path = codes "$[\"a\"]";
        code = duplicate_key;
        detail = repeated (codes "a") (codes "$") 5;
      }
          ∷ [],
    )
unfolding lex_runs
lex_duplicate = refl

lex_surrogates : lex sample_host (codes "\"\\ud83d\\ude00\"") ≡ ok (str (0x1f600 ∷ []), [])
unfolding lex_runs
lex_surrogates = refl

lex_trailing : lex sample_host (codes "[1,]") ≡ err value_error
unfolding lex_runs
lex_trailing = refl

-- `\d` matches U+0662, so the token is read as 12.
lex_arabic_digit :
    lex sample_host (b'1' ∷ 0x662 ∷ [])
    ≡ ok (
      int (pos 12),
      record {
        path = codes "$";
        code = number_token_form;
        detail = not_integer_form (b'1' ∷ 0x662 ∷ []);
      }
          ∷ [],
    )
unfolding lex_runs
lex_arabic_digit = refl

-- `int(hex4, 16)` takes a sign, an underscore and blanks: "\u+041" is read as "A".
lex_loose_escape : lex sample_host (codes "\"\\u+041\\u4_1 \"") ≡ ok (str (codes "AA"), [])
unfolding lex_runs
lex_loose_escape = refl
