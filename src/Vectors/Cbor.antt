-- ===== src/Vectors/Cbor.antt =====
-- The strict CBOR codec of .github/check_vectors.py: `_cbor_argument`, `decode_strict_cbor`,
-- `_cbor_head` and `_encode_cbor_deterministic`. `_CborMap` and `_CborTag` are `Pairs` and `tag`.
pub mod Refines
pub mod Termination
use scitt_payload_binding.Common.{
  ℕ, zero, suc, ◌+◌, ◌-◌, ◌*◌, ◌/◌, ◌%◌, ◌^◌, Bool, true, false, ◌&&◌, ◌||◌, not, Bytes, List, [],
  ◌∷◌, ◌++◌, Option, none, some, ltb, ◌==◌, if◌then◌else◌, length, take, drop,
}
use scitt_payload_binding.Common.Int.{pos, negsuc}
use scitt_payload_binding.Errors.{Result, ok, err, out_of_fuel, ◌>>=◌, ◌>>◌, raise_if, value_error}
use scitt_payload_binding.Python.{Host}
use scitt_payload_binding.Unicode.{utf8_decode}
use scitt_payload_binding.Cbor.Item.{
  Scalar, null, bool, int, octets, text, Cbor, scalar, array, map, tag, Elements, no_elements,
  Pairs, no_pairs, has_same_key, append_element, append_pair, keys,
}
use scitt_payload_binding.Cbor.Head.{from_bytes}
use scitt_payload_binding.Cbor.Encode.{key_ltb}
use scitt_payload_binding.Cbor.Decode.{Read, taken}

abbrev pub max_strict_bytes : ℕ
max_strict_bytes = 2 ^ 20

abbrev pub max_strict_items : ℕ
max_strict_items = 4096

abbrev pub max_strict_depth : ℕ
max_strict_depth = 16

-- `widths.get(additional)`, with the entry of `minimum` for that width
unfoldable pub preferred_width : ℕ → Option (ℕ × ℕ)
preferred_width additional =
    if additional == 24
    then some (1, 24)
    else if additional == 25
    then some (2, 0x100)
    else if additional == 26
    then some (4, 0x10000)
    else if additional == 27
    then some (8, 0x100000000)
    else none

-- the bytes of an argument, which must need them
unfoldable pub preferred_argument : Bytes → ℕ × ℕ → Result (ℕ × Bytes)
preferred_argument rest (width, minimum) =
    if ltb (length rest) width
    then err value_error
    else let value = from_bytes 0 (take width rest) in
      if ltb value minimum then err value_error else ok (value, drop width rest)

-- _cbor_argument
unfoldable pub cbor_argument : ℕ → Bytes → Result (ℕ × Bytes)
cbor_argument additional rest =
    if ltb additional 24 then ok (additional, rest) else elim (preferred_width additional) [
      | none ↦ err value_error
      | some w ↦ preferred_argument rest w
    ]

abbrev pub strict_read : Cbor → Bytes → ℕ → Result (Read Cbor)
strict_read v rest budget = ok (record { value = v; rest = rest; budget = budget })

-- major type 7
unfoldable pub strict_simple : ℕ → Bytes → ℕ → Result (Read Cbor)
strict_simple additional rest budget =
    if additional == 20
    then strict_read (scalar (bool false)) rest budget
    else if additional == 21
    then strict_read (scalar (bool true)) rest budget
    else if additional == 22
    then strict_read (scalar null) rest budget
    else err value_error

-- the content of a string of major type 2 or 3
unfoldable pub strict_content : ℕ → Bytes → Result Scalar
strict_content major raw =
    if major == 2
    then ok (octets raw)
    else elim (utf8_decode raw) [ none ↦ err value_error | some t ↦ ok (text t) ]

unfoldable pub strict_string : ℕ → ℕ → Bytes → ℕ → Result (Read Cbor)
strict_string major size rest budget =
    if ltb (length rest) size
    then err value_error
    else strict_content major (take size rest) >>= λ s.
        strict_read (scalar s) (drop size rest) budget

-- the checks on a decoded key, behind the entries read so far and the previous key's encoding
unfoldable pub strict_key : Host → Pairs → Option Bytes → Bytes → Cbor → Result Scalar
strict_key host ps previous encoding (scalar k) =
    raise_if (has_same_key host k (keys ps)) value_error
    >> (raise_if (elim previous [ none ↦ false | some p ↦ not (key_ltb p encoding) ]) value_error
        >> ok k)
strict_key host ps previous encoding _ = err value_error

-- the choice by major type, behind the argument
unfoldable pub strict_major :
    ℕ
    → ℕ
    → Bytes
    → ℕ
    → Result (Read Cbor)
    → Result (Read Cbor)
    → Result (Read Cbor)
    → Result (Read Cbor)
strict_major major argument rest budget items pairs tagged =
    if major == 0
    then strict_read (scalar (int (pos argument))) rest budget
    else if major == 1
    then strict_read (scalar (int (negsuc argument))) rest budget
    else if major == 2 || major == 3
    then strict_string major argument rest budget
    else if major == 4
    then items
    else if major == 5
    then pairs
    else tagged

unfoldable mutual
  -- _decode
  pub strict_item : Host → ℕ → ℕ → Bytes → ℕ → Result (Read Cbor)
  strict_item host zero depth input budget = out_of_fuel
  strict_item host (suc f) depth [] budget = err value_error
  strict_item host (suc f) depth (initial ∷ input) budget =
      let left = budget - 1 in
      let major = initial / 32 in
      let additional = initial % 32 in
      let with_argument = cbor_argument additional input >>= λ (argument, rest).
      let items = strict_items host f depth argument no_elements rest left in
      let pairs = strict_pairs host f depth argument none no_pairs rest left in
      let tagged = strict_item host f (depth + 1) rest left >>= λ v.
      strict_read (tag argument v.value) v.rest v.budget in
      strict_major major argument rest left items pairs tagged in
      if ltb max_strict_depth depth || budget == 0
      then err value_error
      else if major == 7
      then strict_simple additional input left
      else with_argument

  -- `for _ in range(argument)` over an array
  pub strict_items : Host → ℕ → ℕ → ℕ → Elements → Bytes → ℕ → Result (Read Cbor)
  strict_items host zero depth remaining acc input budget = out_of_fuel
  strict_items host (suc f) depth remaining acc input budget =
      let more = strict_item host f (depth + 1) input budget >>= λ r.
      strict_items host f depth (remaining - 1) (append_element acc r.value) r.rest r.budget in
      if ltb 0 remaining then more else strict_read (array acc) input budget

  -- `for _ in range(argument)` over a map
  pub strict_pairs : Host → ℕ → ℕ → ℕ → Option Bytes → Pairs → Bytes → ℕ → Result (Read Cbor)
  strict_pairs host zero depth remaining previous acc input budget = out_of_fuel
  strict_pairs host (suc f) depth remaining previous acc input budget =
      let more = strict_item host f (depth + 1) input budget >>= λ r.
      strict_key host acc previous (taken input r.rest) r.value >>= λ key.
      strict_item host f (depth + 1) r.rest r.budget >>= λ v.
      strict_pairs host f depth (remaining - 1) (some (taken input r.rest))
        (append_pair acc key v.value) v.rest v.budget in
      if ltb 0 remaining then more else strict_read (map acc) input budget

-- An item uses one of the budget and, with the round of the loop that reads it, two units of fuel.
abbrev pub strict_fuel : ℕ
strict_fuel = 2 * max_strict_items + 4

-- no trailing bytes
unfoldable pub strict_end : Read Cbor → Result Cbor
strict_end r = elim r.rest [ [] ↦ ok r.value | _ ∷ _ ↦ err value_error ]

-- decode_strict_cbor
unfoldable pub decode_strict_cbor : Host → Bytes → Result Cbor
decode_strict_cbor host encoded =
    raise_if (ltb max_strict_bytes (length encoded)) value_error
    >> (strict_item host strict_fuel 0 encoded max_strict_items >>= strict_end)
