-- ===== src/Vectors/Cbor/Termination.antt =====
-- Strict decoding returns on every input: the fuel suffices for the item budget.
use scitt_payload_binding.Common.{
  ℕ, zero, suc, ◌+◌, ◌-◌, ◌*◌, ◌/◌, ◌%◌, ◌≤◌, ◌<◌, Bool, true, false, ◌||◌, not, Bytes, [], ◌∷◌,
  Option, none, some, ltb, ◌==◌, length, take, Bool-cases, inl, inr, arith, Text,
}
use scitt_payload_binding.Errors.{Result, ok, err, ◌>>◌, raise_if, value_error, Terminates}
use scitt_payload_binding.Errors.Termination.{>>=-Terminates, if-Terminates, raise_if-Terminates}
use scitt_payload_binding.Python.{Host}
use scitt_payload_binding.Unicode.{utf8_decode}
use scitt_payload_binding.Cbor.Item.{
  Scalar, text, Cbor, scalar, array, map, tag, Elements, no_elements, Pairs, no_pairs,
  append_element, append_pair, has_same_key, keys,
}
use scitt_payload_binding.Cbor.Encode.{key_ltb}
use scitt_payload_binding.Cbor.Decode.{Read, taken}
use scitt_payload_binding.Cbor.Decode.Termination.{
  Spends, Spends->>=, Spends-then, Spends-if, Spends-weaker, Spends-Terminates, one_spent,
  fuel_left, item_fuel_left, still_less,
}
use scitt_payload_binding.Vectors.Cbor.{
  preferred_width, preferred_argument, cbor_argument, strict_simple, strict_content, strict_string,
  strict_key, strict_major, strict_item, strict_items, strict_pairs, strict_end, decode_strict_cbor,
}

argument-Terminates : (additional : ℕ) (rest : Bytes) → Terminates (cbor_argument additional rest)
unfolding cbor_argument preferred_argument
argument-Terminates additional rest =
    if-Terminates (ltb additional 24) _ _ tt (by_width (preferred_width additional))
  where
    by_width :
        (o : Option (ℕ × ℕ))
        → Terminates (elim o as (λ x. Result (ℕ × Bytes)) [
          | none ↦ err value_error
          | some w ↦ preferred_argument rest w
        ])
    by_width none = tt
    by_width (some (width, minimum)) =
        if-Terminates (ltb (length rest) width) _ _ tt (if-Terminates (ltb _ minimum) _ _ tt tt)

content-Terminates : (major : ℕ) (raw : Bytes) → Terminates (strict_content major raw)
unfolding strict_content
content-Terminates major raw = if-Terminates (major == 2) _ _ tt (decoded (utf8_decode raw))
  where
    decoded :
        (o : Option Text)
        → Terminates
            (elim o as (λ x. Result Scalar) [ none ↦ err value_error | some t ↦ ok (text t) ])
    decoded none = tt
    decoded (some t) = tt

string-Spends :
    (major size m : ℕ) (rest : Bytes) (budget : ℕ)
    → budget < m
    → Spends m (strict_string major size rest budget)
unfolding strict_string
string-Spends major size m rest budget h =
    Spends-if m (ltb (length rest) size) _ _ tt
      (Spends-then m _ _ (content-Terminates major (take size rest)) λ s. h)

simple-Spends :
    (additional m : ℕ) (rest : Bytes) (budget : ℕ)
    → budget < m
    → Spends m (strict_simple additional rest budget)
unfolding strict_simple
simple-Spends additional m rest budget h =
    Spends-if m (additional == 20) _ _ h
      (Spends-if m (additional == 21) _ _ h (Spends-if m (additional == 22) _ _ h tt))

key-Terminates :
    (host : Host) (ps : Pairs) (previous : Option Bytes) (encoding : Bytes) (v : Cbor)
    → Terminates (strict_key host ps previous encoding v)
unfolding strict_key
key-Terminates host ps previous encoding (scalar k) =
    >>=-Terminates _ _ (raise_if-Terminates (has_same_key host k (keys ps)) _)
      λ _. ordered (elim previous [ none ↦ false | some p ↦ not (key_ltb p encoding) ])
  where
    ordered : (b : Bool) → Terminates (raise_if b value_error >> ok k)
    ordered true = tt
    ordered false = tt
key-Terminates host ps previous encoding (array xs) = tt
key-Terminates host ps previous encoding (map qs) = tt
key-Terminates host ps previous encoding (tag n v) = tt

mutual
  unfolding strict_item strict_items strict_pairs strict_major

  item-Spends :
      (host : Host) (f depth : ℕ) (input : Bytes) (budget : ℕ)
      → 2 * budget + 2 ≤ f
      → Spends budget (strict_item host f depth input budget)
  item-Spends host zero depth input budget le = absurd (omega arith)
  item-Spends host (suc f) depth [] budget le = tt
  item-Spends host (suc f) depth (initial ∷ input) budget le =
      elim (Bool-cases (ltb 16 depth || budget == 0)) [
        | inl e ↦ rw (strict_item, e) tt
        | inr e ↦
            let spent = one_spent budget _ e in
            rw (strict_item, e)
              (Spends-if budget (initial / 32 == 7) _ _
                (simple-Spends (initial % 32) budget input (budget - 1) spent)
                (Spends-then budget (cbor_argument (initial % 32) input) _
                  (argument-Terminates (initial % 32) input)
                  λ (argument, rest). Spends-if budget (initial / 32 == 0) _ _ spent (
                    Spends-if budget (initial / 32 == 1) _ _ spent (
                      Spends-if budget (initial / 32 == 2 || initial / 32 == 3) _ _
                        (string-Spends (initial / 32) argument budget rest (budget - 1) spent)
                        (Spends-if budget (initial / 32 == 4) _ _
                          (Spends-weaker (suc (budget - 1)) budget _ spent (
                            items-Spends host f depth argument no_elements rest (budget - 1)
                              (fuel_left f budget spent le)))
                          (Spends-if budget (initial / 32 == 5) _ _
                            (Spends-weaker (suc (budget - 1)) budget _ spent (
                              pairs-Spends host f depth argument none no_pairs rest (budget - 1)
                                (fuel_left f budget spent le)))
                            (Spends->>= (budget - 1) budget
                              (strict_item host f (depth + 1) rest (budget - 1)) _
                              (item-Spends host f (depth + 1) rest (budget - 1)
                                (item_fuel_left f budget spent le))
                              λ v less. still_less v.budget budget spent less)))))))
      ]

  items-Spends :
      (host : Host) (f depth remaining : ℕ) (acc : Elements) (input : Bytes) (budget : ℕ)
      → 2 * budget + 3 ≤ f
      → Spends (suc budget) (strict_items host f depth remaining acc input budget)
  items-Spends host zero depth remaining acc input budget le = absurd (omega arith)
  items-Spends host (suc f) depth remaining acc input budget le =
      Spends-if (suc budget) (ltb 0 remaining) _ _
        (Spends->>= budget (suc budget) (strict_item host f (depth + 1) input budget) _
          (item-Spends host f (depth + 1) input budget (omega arith))
          λ r less. Spends-weaker (suc r.budget) (suc budget) _ (omega arith) (
            items-Spends host f depth (remaining - 1) (append_element acc r.value) r.rest r.budget
              (omega arith)))
        (omega arith)

  pairs-Spends :
      (host : Host) (f depth remaining : ℕ) (previous : Option Bytes) (acc : Pairs) (input : Bytes)
      (budget : ℕ)
      → 2 * budget + 3 ≤ f
      → Spends (suc budget) (strict_pairs host f depth remaining previous acc input budget)
  pairs-Spends host zero depth remaining previous acc input budget le = absurd (omega arith)
  pairs-Spends host (suc f) depth remaining previous acc input budget le =
      Spends-if (suc budget) (ltb 0 remaining) _ _
        (Spends->>= budget (suc budget) (strict_item host f (depth + 1) input budget) _
          (item-Spends host f (depth + 1) input budget (omega arith))
          λ r less.
            Spends-then (suc budget) (strict_key host acc previous (taken input r.rest) r.value) _
              (key-Terminates host acc previous (taken input r.rest) r.value)
              λ key.
                Spends->>= r.budget (suc budget) (strict_item host f (depth + 1) r.rest r.budget) _
                  (item-Spends host f (depth + 1) r.rest r.budget (omega arith))
                  λ v less'. Spends-weaker (suc v.budget) (suc budget) _ (omega arith) (
                    pairs-Spends host f depth (remaining - 1) (some (taken input r.rest))
                      (append_pair acc key v.value) v.rest v.budget (omega arith)))
        (omega arith)

end-Terminates : (r : Read Cbor) → Terminates (strict_end r)
unfolding strict_end
end-Terminates r = at_end r.rest
  where
    at_end :
        (rest : Bytes)
        → Terminates (elim rest as (λ x. Result Cbor) [ [] ↦ ok r.value | _ ∷ _ ↦ err value_error ])
    at_end [] = tt
    at_end (b ∷ bs) = tt

-- Strict decoding of any input returns a value or raises an exception: the fuel of the model suffices
-- for the budget of 4096 items.
pub decode_strict_cbor-Terminates :
    (host : Host) (encoded : Bytes) → Terminates (decode_strict_cbor host encoded)
unfolding decode_strict_cbor
decode_strict_cbor-Terminates host encoded =
    >>=-Terminates _ _ (raise_if-Terminates (ltb 0x100000 (length encoded)) value_error) λ _.
      Spends-Terminates 4096 (strict_item host 8196 0 encoded 4096) strict_end
        (item-Spends host 8196 0 encoded 4096 (omega arith)) λ r less. end-Terminates r
