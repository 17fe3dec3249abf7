-- ===== src/Cose/Mode.antt =====
-- `_effective_payload` and `validate_cpb_statement_mode` of lib/cpb/cose_refs.py.
use scitt_payload_binding.Common.{
  Bool, true, false, ◌&&◌, ◌||◌, not, Bytes, List, [], ◌∷◌, Option, none, some, ◌==◌, length, any,
}
use scitt_payload_binding.Common.Int.{ℤ, pos, negsuc, int_eq}
use scitt_payload_binding.Errors.{
  Result, ok, err, ◌>>=◌, ◌>>◌, raise_if, value_error, signed_statement,
}
use scitt_payload_binding.Python.{Host}
use scitt_payload_binding.Cbor.Item.{Scalar, int, text, Cbor, scalar, get, contains}
use scitt_payload_binding.Cose.Sign1.{CoseSign1}
use scitt_payload_binding.Cose.Headers.{
  cose_content_type, cose_payload_hash_alg, cose_preimage_content_type, cose_payload_location,
}
use scitt_payload_binding.Cose.Uri.{is_media_type}

-- `unknown_mode` is any other string.
pub data StatementMode : Type 0 where
  full_content hash_envelope unknown_mode : StatementMode

-- The keyword arguments of the validation.
pub record Expected : Type 0 where
  pub detached_payload : Option Bytes
  pub payload_hash_alg : Option ℤ
  pub hash_size : Option ℤ

-- an attached payload excludes a detached one
unfoldable pub effective_payload : Option Bytes → Option Bytes → Result (Option Bytes)
effective_payload (some attached) (some detached) = err signed_statement
effective_payload (some attached) none = ok (some attached)
effective_payload none detached = ok detached

-- _require_content_type
unfoldable pub is_content_type : Option Cbor → Bool
is_content_type (some (scalar (text t))) = is_media_type t
is_content_type (some (scalar (int (pos n)))) = true
is_content_type _ = false

-- `expected_hash_size <= 0`
unfoldable pub bad_size : Option ℤ → Bool
bad_size none = false
bad_size (some (pos n)) = n == 0
bad_size (some (negsuc n)) = true

abbrev pub envelope_labels : List Scalar
envelope_labels = cose_payload_hash_alg ∷ cose_preimage_content_type ∷ cose_payload_location ∷ []

unfoldable pub validate_full_content : Host → CoseSign1 → Result (Unit {0})
validate_full_content host cose =
    raise_if
      (any (λ k. contains host k cose.protected || contains host k cose.unprotected)
        envelope_labels)
      signed_statement
    >> (raise_if (not (contains host cose_content_type cose.protected)) signed_statement
        >> (raise_if (contains host cose_content_type cose.unprotected) signed_statement
            >> raise_if (not (is_content_type (get host cose_content_type cose.protected)))
                signed_statement))

-- the payload-hash-alg header: an integer, and the expected one
unfoldable pub require_hash_alg : Option ℤ → Option Cbor → Result (Unit {0})
require_hash_alg none (some (scalar (int n))) = ok tt
require_hash_alg (some expected) (some (scalar (int n))) =
    raise_if (not (int_eq n expected)) signed_statement
require_hash_alg expected _ = err signed_statement

unfoldable pub is_text : Option Cbor → Bool
is_text (some (scalar (text t))) = true
is_text _ = false

-- the digest that is the payload of a Hash Envelope
unfoldable pub require_payload_size : Option ℤ → Option Bytes → Result (Unit {0})
require_payload_size size none = ok tt
require_payload_size size (some []) = err signed_statement
require_payload_size none (some (b ∷ bs)) = ok tt
require_payload_size (some n) (some (b ∷ bs)) =
    raise_if (not (int_eq (pos (length (b ∷ bs))) n)) signed_statement

unfoldable pub validate_hash_envelope :
    Host → CoseSign1 → Expected → Option Bytes → Result (Unit {0})
validate_hash_envelope host cose expected payload =
    raise_if
      (contains host cose_content_type cose.protected
        || contains host cose_content_type cose.unprotected)
      signed_statement
    >> (raise_if (any (λ k. contains host k cose.unprotected) envelope_labels) signed_statement
        >> (raise_if (not (contains host cose_payload_hash_alg cose.protected)) signed_statement
            >> (require_hash_alg expected.payload_hash_alg
                  (get host cose_payload_hash_alg cose.protected)
                >> (raise_if (not (contains host cose_preimage_content_type cose.protected))
                      signed_statement
                    >> (raise_if
                          (not
                            (is_content_type (get host cose_preimage_content_type cose.protected)))
                          signed_statement
                        >> (raise_if
                              (contains host cose_payload_location cose.protected
                                && not (is_text (get host cose_payload_location cose.protected)))
                              signed_statement
                            >> require_payload_size expected.hash_size payload))))))

unfoldable pub validate_cpb_statement_mode :
    Host → CoseSign1 → StatementMode → Expected → Result (Unit {0})
validate_cpb_statement_mode host cose mode expected =
    effective_payload cose.payload expected.detached_payload >>= λ payload.
    raise_if (bad_size expected.hash_size) value_error >> elim mode [
      | full_content ↦ validate_full_content host cose
      | hash_envelope ↦ validate_hash_envelope host cose expected payload
      | unknown_mode ↦ err value_error
    ]
