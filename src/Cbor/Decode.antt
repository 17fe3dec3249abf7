-- ===== src/Cbor/Decode.antt =====
-- `_decode_item` and `_decode_exact` of lib/cpb/cose_refs.py.
-- `data[pos:]` is the bytes that are left; `budget` is the item count that is left.
pub mod Termination
use scitt_payload_binding.Common.{
  ℕ, zero, suc, ◌+◌, ◌-◌, ◌*◌, ◌/◌, ◌%◌, Bool, true, false, ◌&&◌, ◌||◌, not, Bytes, List, [], ◌∷◌,
  ◌++◌, Option, none, some, ltb, ◌==◌, if◌then◌else◌, length, take, drop,
}
use scitt_payload_binding.Common.Int.{pos, negsuc}
use scitt_payload_binding.Errors.{
  Result, ok, err, out_of_fuel, ◌>>=◌, ◌>>◌, raise_if, malformed_cbor, duplicate_cbor_key,
}
use scitt_payload_binding.Python.{Host}
use scitt_payload_binding.Unicode.{utf8_decode}
use scitt_payload_binding.Cbor.Item.{
  Scalar, null, bool, int, float, octets, text, simple, Cbor, scalar, array, map, tag, Elements,
  no_elements, Pairs, no_pairs, has_same_key, append_element, append_pair, keys,
}
use scitt_payload_binding.Cbor.Head.{read_argument}
use scitt_payload_binding.Cbor.Encode.{key_ltb}

abbrev pub max_cbor_items : ℕ
max_cbor_items = 4096

abbrev pub max_cbor_depth : ℕ
max_cbor_depth = 16

-- What a read returns: a value, the bytes behind it and the budget that is left.
pub record Read (A : Type 0) : Type 0 where
  pub value : A
  pub rest : Bytes
  pub budget : ℕ

-- An item, or (none) the break code.
abbrev pub Item : Type 0
Item = Option Cbor

abbrev pub read_scalar : Scalar → Bytes → ℕ → Result (Read Item)
read_scalar s rest budget = ok (record { value = some (scalar s); rest = rest; budget = budget })

unfoldable pub read_float : Bool → ℕ → Bytes → ℕ → Result (Read Item)
read_float deterministic width rest budget =
    raise_if deterministic malformed_cbor
    >> (raise_if (ltb (length rest) width) malformed_cbor
        >> read_scalar (float (take width rest)) (drop width rest) budget)

unfoldable pub read_simple_byte : Bool → Bytes → ℕ → Result (Read Item)
read_simple_byte deterministic [] budget = err malformed_cbor
read_simple_byte deterministic (value ∷ rest) budget =
    raise_if (deterministic && ltb value 32) malformed_cbor
    >> read_scalar (simple value) rest budget

-- major type 7
unfoldable pub read_simple : Bool → Bool → ℕ → Bytes → ℕ → Result (Read Item)
read_simple deterministic allow_break additional rest budget =
    if ltb additional 20
    then read_scalar (simple additional) rest budget
    else if additional == 20
    then read_scalar (bool false) rest budget
    else if additional == 21
    then read_scalar (bool true) rest budget
    else if additional == 22
    then read_scalar null rest budget
    else if additional == 23
    then read_scalar (simple 23) rest budget
    else if additional == 24
    then read_simple_byte deterministic rest budget
    else if additional == 25
    then read_float deterministic 2 rest budget
    else if additional == 26
    then read_float deterministic 4 rest budget
    else if additional == 27
    then read_float deterministic 8 rest budget
    else if additional == 31 && allow_break
    then ok (record { value = none; rest = rest; budget = budget })
    else err malformed_cbor

-- a definite-length string of major type 2 or 3
unfoldable pub string_scalar : ℕ → Bytes → Result Scalar
string_scalar major raw =
    if major == 2
    then ok (octets raw)
    else elim (utf8_decode raw) [ none ↦ err malformed_cbor | some t ↦ ok (text t) ]

unfoldable pub read_string : ℕ → ℕ → Bytes → ℕ → Result (Read Item)
read_string major size rest budget =
    raise_if (ltb (length rest) size) malformed_cbor
    >> (string_scalar major (take size rest) >>= λ s. read_scalar s (drop size rest) budget)

-- the joined chunks of an indefinite-length string
abbrev pub joined : ℕ → List ℕ → Scalar
joined major buf = if major == 2 then octets buf else text buf

-- what a chunk adds to the buffer
unfoldable pub chunk_content : Item → List ℕ
chunk_content (some (scalar (octets b))) = b
chunk_content (some (scalar (text t))) = t
chunk_content _ = []

-- `data[pos] == 0xFF`, and the test on a chunk's initial byte
abbrev pub is_break : Bytes → Bool
is_break [] = false
is_break (b ∷ bs) = b == 0xff

abbrev pub is_chunk : ℕ → Bytes → Bool
is_chunk major [] = false
is_chunk major (b ∷ bs) = b / 32 == major && not (b % 32 == 31)

-- the bytes that an item took
abbrev pub taken : Bytes → Bytes → Bytes
taken before after = take (length before - length after) before

-- the checks on a decoded key
unfoldable pub require_key : Host → Bool → Pairs → Option Bytes → Bytes → Cbor → Result Scalar
require_key host deterministic ps prior encoding (scalar k) =
    raise_if (has_same_key host k (keys ps)) duplicate_cbor_key
    >> (raise_if (deterministic && elim prior [ none ↦ false | some p ↦ not (key_ltb p encoding) ])
          malformed_cbor
        >> ok k)
require_key host deterministic ps prior encoding _ = err malformed_cbor

-- an item that is not the break code
unfoldable pub require_item : Read Item → Result (Read Cbor)
require_item r = elim r.value [
  | none ↦ err malformed_cbor
  | some v ↦ ok (record { value = v; rest = r.rest; budget = r.budget })
]

-- `remaining is None or remaining > 0`
abbrev pub goes_on : Option ℕ → Bool
goes_on none = true
goes_on (some n) = ltb 0 n

abbrev pub one_less : Option ℕ → Option ℕ
one_less none = none
one_less (some n) = some (n - 1)

abbrev pub is_indefinite : Option ℕ → Bool
is_indefinite none = true
is_indefinite (some n) = false

abbrev pub read_container : Cbor → Bytes → ℕ → Result (Read Item)
read_container v rest budget = ok (record { value = some v; rest = rest; budget = budget })

-- The choice by major type, behind the argument, among the results for each of them.
unfoldable pub by_major :
    ℕ
    → Option ℕ
    → Bytes
    → ℕ
    → Result (Read Item)
    → Result (Read Item)
    → Result (Read Item)
    → Result (Read Item)
    → Result (Read Item)
by_major major argument rest budget chunks elements pairs tagged =
    if major == 0
    then elim argument [
      | none ↦ err malformed_cbor
      | some n ↦ read_scalar (int (pos n)) rest budget
    ]
    else if major == 1
    then elim argument [
      | none ↦ err malformed_cbor
      | some n ↦ read_scalar (int (negsuc n)) rest budget
    ]
    else if major == 2 || major == 3
    then elim argument [ none ↦ chunks | some n ↦ read_string major n rest budget ]
    else if major == 4
    then elements
    else if major == 5
    then pairs
    else tagged

abbrev pub argument_or_zero : Option ℕ → ℕ
argument_or_zero none = 0
argument_or_zero (some n) = n

unfoldable mutual
  -- _decode_item
  pub decode_item : Host → Bool → ℕ → ℕ → Bool → Bytes → ℕ → Result (Read Item)
  decode_item host deterministic zero depth allow_break input budget = out_of_fuel
  decode_item host deterministic (suc f) depth allow_break [] budget = err malformed_cbor
  decode_item host deterministic (suc f) depth allow_break (initial ∷ input) budget =
      let left = budget - 1 in
      let major = initial / 32 in
      let additional = initial % 32 in
      let with_argument = read_argument deterministic additional input >>= λ (argument, rest).
      let chunks = read_chunks host deterministic f depth major [] rest left in
      let elements = read_elements host deterministic f depth argument no_elements rest left in
      let pairs = read_pairs host deterministic f depth argument none no_pairs rest left in
      let tagged =
        raise_if (is_indefinite argument) malformed_cbor
        >> (decode_item host deterministic f (depth + 1) false rest left >>= λ r.
            require_item r >>= λ v.
            read_container (tag (argument_or_zero argument) v.value) v.rest v.budget) in
      by_major major argument rest left chunks elements pairs tagged in
      if ltb max_cbor_depth depth || budget == 0
      then err malformed_cbor
      else if major == 7
      then read_simple deterministic allow_break additional input left
      else with_argument

  -- the loop over the chunks of an indefinite-length string
  pub read_chunks : Host → Bool → ℕ → ℕ → ℕ → List ℕ → Bytes → ℕ → Result (Read Item)
  read_chunks host deterministic zero depth major buf input budget = out_of_fuel
  read_chunks host deterministic (suc f) depth major buf input budget =
      let more = decode_item host deterministic f (depth + 1) false input budget >>= λ r.
      read_chunks host deterministic f depth major (buf ++ chunk_content r.value) r.rest r.budget in
      if is_break input
      then read_scalar (joined major buf) (drop 1 input) budget
      else if is_chunk major input
      then more
      else err malformed_cbor

  -- the loop over an array's elements
  pub read_elements : Host → Bool → ℕ → ℕ → Option ℕ → Elements → Bytes → ℕ → Result (Read Item)
  read_elements host deterministic zero depth remaining acc input budget = out_of_fuel
  read_elements host deterministic (suc f) depth remaining acc input budget =
      let more =
        decode_item host deterministic f (depth + 1) (is_indefinite remaining) input budget >>= λ r.
        elim r.value [
          | none ↦ read_container (array acc) r.rest r.budget
          | some v ↦
              read_elements host deterministic f depth (one_less remaining) (append_element acc v)
                r.rest r.budget
        ] in
      if goes_on remaining then more else read_container (array acc) input budget

  -- the loop over a map's entries
  pub read_pairs :
      Host → Bool → ℕ → ℕ → Option ℕ → Option Bytes → Pairs → Bytes → ℕ → Result (Read Item)
  read_pairs host deterministic zero depth remaining prior acc input budget = out_of_fuel
  read_pairs host deterministic (suc f) depth remaining prior acc input budget =
      let more =
        decode_item host deterministic f (depth + 1) (is_indefinite remaining) input budget >>= λ r.
        elim r.value [
          | none ↦ read_container (map acc) r.rest r.budget
          | some k ↦
              let encoding = taken input r.rest in
              require_key host deterministic acc prior encoding k >>= λ key.
              decode_item host deterministic f (depth + 1) false r.rest r.budget >>= λ r'.
              require_item r' >>= λ v.
              read_pairs host deterministic f depth (one_less remaining) (some encoding)
                (append_pair acc key v.value) v.rest v.budget
        ] in
      if goes_on remaining then more else read_container (map acc) input budget

-- Each call of `_decode_item` uses one of the budget, and a loop makes one call of it a round.
abbrev pub decode_fuel : ℕ
decode_fuel = 2 * max_cbor_items + 4

-- the value of an input that is used up
unfoldable pub require_end : Read Cbor → Result Cbor
require_end r = elim r.rest [ [] ↦ ok r.value | _ ∷ _ ↦ err malformed_cbor ]

-- _decode_exact
unfoldable pub decode_exact : Host → Bool → Bytes → Result Cbor
decode_exact host deterministic input =
    decode_item host deterministic decode_fuel 0 false input max_cbor_items >>= λ r.
    require_item r >>= require_end
