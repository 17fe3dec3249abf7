-- ===== src/Errors.antt =====
-- Raised exceptions as values: one constructor for each exception class of lib/cpb, and the
-- builtin ones that its functions raise. The human-readable messages are not modelled.
pub mod Refines
pub mod Agree
pub mod Termination
use scitt_payload_binding.Common.{ℕ, ◌≡◌, refl, Bool, true, false, Text, List}

-- The fact that a `RawViolation.detail` sentence of lib/cpb/_lex.py states.
pub data Detail : Type 0 where
  -- the key, the enclosing object's path, the character position of the first occurrence
  repeated : Text → Text → ℕ → Detail
  not_integer_form : Text → Detail
  outside_safe_range : Text → Detail
  null_member empty_array_member empty_object_member : Detail

pub data Code : Type 0 where
  duplicate_key number_token_form unsafe_integer : Code

pub record RawViolation : Type 0 where
  pub path : Text
  pub code : Code
  pub detail : Detail

pub data Error : Type 0 where
  value_error type_error key_error unicode_error : Error
  float_in_digest unsafe_integer_error : Error
  json_wire_format : List RawViolation → Error
  carried_id_mismatch withdrawn_algorithm vintage_evidence : Error
  typed_ref_error context_mismatch context_resolution unsupported_context : Error
  unsupported_representation representation_mismatch digest_algorithm_mismatch : Error
  purpose_mismatch purpose_required : Error
  cpb_refs_error malformed_cbor duplicate_cbor_key cpb_refs_location : Error
  cose_header critical_header signed_statement : Error
  snapshot_integrity : Error

-- `out_of_fuel` has no counterpart in the program: a model function met its bound on recursion.
pub data Result {ℓ} (A : Type ℓ) : Type ℓ where
  ok : A → Result A
  err : Error → Result A
  out_of_fuel : Result A

infixl 5 ◌>>=◌ ◌>>◌
abbrev pub ◌>>=◌ {ℓ ρ} : {X : Type ℓ} {Y : Type ρ} → Result X → (X → Result Y) → Result Y
out_of_fuel >>= rest = out_of_fuel
err raised >>= rest = err raised
ok x >>= rest = rest x

abbrev pub ◌>>◌ {ℓ} : {B : Type ℓ} → Result (Unit {0}) → Result B → Result B
m >> k = m >>= λ _. k

-- `if test: raise e`
abbrev pub raise_if : Bool → Error → Result (Unit {0})
raise_if true e = err e
raise_if false e = ok tt

-- A result that is produced: a value or an exception.
abbrev pub Terminates {ℓ} : {A : Type ℓ} → Result A → Type 0
Terminates (ok a) = Unit
Terminates (err e) = Unit
Terminates out_of_fuel = ⊥

-- a chain that returns has a first part that returns
pub >>=-eq-ok {ℓ ρ} :
    {X : Type ℓ} {Y : Type ρ} (first : Result X) (rest : X → Result Y) {y : Y}
    → (first >>= rest) ≡ ok y
    → (x : X) × (first ≡ ok x) × (rest x ≡ ok y)
>>=-eq-ok out_of_fuel rest returned = cc
>>=-eq-ok (err raised) rest returned = cc
>>=-eq-ok (ok x) rest returned = (x, refl, returned)

pub raise_if-eq-ok : (b : Bool) (e : Error) → raise_if b e ≡ ok tt → b ≡ false
raise_if-eq-ok true e h = cc
raise_if-eq-ok false e h = refl
