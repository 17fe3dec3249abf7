-- ===== src/Cbor/Item.antt =====
-- Decoded CBOR values. The decoder refuses a map key that is an array, a map or a tag, so keys are
-- scalars here; a hand-built `CborMap` with another key is not modelled.
use scitt_payload_binding.Common.{
  ℕ, zero, suc, Bool, true, false, Text, Bytes, List, [], ◌∷◌, Option, none, some, text_eq, ◌==◌,
}
use scitt_payload_binding.Common.Int.{ℤ, int_eq}
use scitt_payload_binding.Python.{Host}

-- A float is the bytes that `struct.unpack` was given.
pub data Scalar : Type 0 where
  null : Scalar
  bool : Bool → Scalar
  int : ℤ → Scalar
  float : Bytes → Scalar
  octets : Bytes → Scalar
  text : Text → Scalar
  simple : ℕ → Scalar

mutual
  pub data Cbor : Type 0 where
    scalar : Scalar → Cbor
    array : Elements → Cbor
    map : Pairs → Cbor
    tag : ℕ → Cbor → Cbor

  pub data Elements : Type 0 where
    no_elements : Elements
    element : Cbor → Elements → Elements

  pub data Pairs : Type 0 where
    no_pairs : Pairs
    pair : Scalar → Cbor → Pairs → Pairs

abbrev pub same_bool : Bool → Bool → Bool
same_bool true b = b
same_bool false true = false
same_bool false false = true

-- _same_key: the same Python type, and equal. Floats compare by `==` of their values.
unfoldable pub same_key : Host → Scalar → Scalar → Bool
same_key host null null = true
same_key host (bool a) (bool b) = same_bool a b
same_key host (int a) (int b) = int_eq a b
same_key host (float a) (float b) = host.float_eq a b
same_key host (octets a) (octets b) = text_eq a b
same_key host (text a) (text b) = text_eq a b
same_key host (simple a) (simple b) = a == b
same_key host _ _ = false

-- CborMap.get
unfoldable pub get : Host → Scalar → Pairs → Option Cbor
get host key no_pairs = none
get host key (pair k v ps) = elim (same_key host k key) [ true ↦ some v | false ↦ get host key ps ]

-- CborMap.__contains__
unfoldable pub contains : Host → Scalar → Pairs → Bool
contains host key no_pairs = false
contains host key (pair k v ps) = elim (same_key host k key) [
  | true ↦ true
  | false ↦ contains host key ps
]

-- CborMap.keys
unfoldable pub keys : Pairs → List Scalar
keys no_pairs = []
keys (pair k v ps) = k ∷ keys ps

-- any(_same_key(key, prior) for prior in seen)
unfoldable pub has_same_key : Host → Scalar → List Scalar → Bool
has_same_key host key [] = false
has_same_key host key (k ∷ ks) = elim (same_key host key k) [
  | true ↦ true
  | false ↦ has_same_key host key ks
]

unfoldable pub append_element : Elements → Cbor → Elements
append_element no_elements v = element v no_elements
append_element (element w xs) v = element w (append_element xs v)

unfoldable pub append_pair : Pairs → Scalar → Cbor → Pairs
append_pair no_pairs k v = pair k v no_pairs
append_pair (pair j w ps) k v = pair j w (append_pair ps k v)

unfoldable pub count_elements : Elements → ℕ
count_elements no_elements = zero
count_elements (element v xs) = suc (count_elements xs)

unfoldable pub count_pairs : Pairs → ℕ
count_pairs no_pairs = zero
count_pairs (pair k v ps) = suc (count_pairs ps)
