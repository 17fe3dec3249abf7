-- ===== src/Vectors/Cbor/Refines.antt =====
-- The library's deterministic decoder agrees with the strict one wherever that one returns.
use scitt_payload_binding.Common.{
  ℕ, zero, suc, ◌+◌, ◌-◌, ◌/◌, ◌%◌, ◌≡◌, true, false, ◌||◌, Bytes, [], ◌∷◌, Option, none, some, ltb,
  ◌==◌, length, take, Bool-cases, inl, inr, arith, ==_iff, Text,
}
use scitt_payload_binding.Errors.{Result, ok, err, raise_if, >>=-eq-ok, value_error, malformed_cbor}
use scitt_payload_binding.Errors.Refines.{
  Refines-raise, Refines-guard, Refines, Refines-ok, Refines-err, Refines-if, Refines->>=,
}
use scitt_payload_binding.Python.{Host}
use scitt_payload_binding.Unicode.{utf8_decode}
use scitt_payload_binding.Cbor.Item.{
  Scalar, octets, text, Cbor, scalar, Elements, no_elements, Pairs, no_pairs, has_same_key,
  append_element, append_pair, keys,
}
use scitt_payload_binding.Cbor.Head.{from_bytes, argument_width, read_wide, read_argument}
use scitt_payload_binding.Cbor.Decode.{
  Read, Item, taken, read_simple, string_scalar, read_string, require_key, require_item, by_major,
  decode_item, read_elements, read_pairs, require_end, decode_exact,
}
use scitt_payload_binding.Vectors.Cbor.{
  preferred_width, preferred_argument, cbor_argument, strict_simple, strict_content, strict_string,
  strict_key, strict_major, strict_item, strict_items, strict_pairs, strict_end, decode_strict_cbor,
}

-- The library's reads may end at a break code; these do not.
abbrev as_item : Read Cbor → Read Item
as_item r = record { value = some r.value; rest = r.rest; budget = r.budget }

abbrev as_argument : ℕ × Bytes → Option ℕ × Bytes
as_argument (n, rest) = (some n, rest)

preferred-wide :
    (rest : Bytes) (w : ℕ × ℕ)
    → Refines as_argument (preferred_argument rest w) (read_wide true rest w)
unfolding preferred_argument read_wide
preferred-wide rest (width, least) =
    Refines-if as_argument (ltb (length rest) width) (Refines-err as_argument _ _) (
      Refines-if as_argument (ltb (from_bytes 0 (take width rest)) least)
        (Refines-err as_argument _ _) (Refines-ok as_argument _))

wide-Refines :
    (rest : Bytes) (o : Option (ℕ × ℕ))
    → Refines as_argument
        (elim o as (λ x. Result (ℕ × Bytes)) [
          | none ↦ err value_error
          | some w ↦ preferred_argument rest w
        ])
        (elim o as (λ x. Result (Option ℕ × Bytes)) [
          | none ↦ err malformed_cbor
          | some w ↦ read_wide true rest w
        ])
wide-Refines rest none = Refines-err as_argument _ _
wide-Refines rest (some w) = preferred-wide rest w

argument-Refines :
    (additional : ℕ) (rest : Bytes)
    → Refines as_argument (cbor_argument additional rest) (read_argument true additional rest)
unfolding cbor_argument read_argument preferred_width argument_width
argument-Refines additional rest =
    Refines-if as_argument (ltb additional 24) (Refines-ok as_argument (additional, rest))
      (elim (Bool-cases (additional == 31)) [
        | inl e ↦ λ x h. cc (rw ((==_iff additional 31).0 e) at h)
        | inr e ↦ rw e (wide-Refines rest (argument_width additional))
      ])

simple-Refines :
    (additional : ℕ) (rest : Bytes) (budget : ℕ)
    → Refines as_item
        (strict_simple additional rest budget)
        (read_simple true false additional rest budget)
unfolding strict_simple read_simple
simple-Refines additional rest budget = λ x h. ground arith

content-Refines :
    (major : ℕ) (raw : Bytes)
    → Refines (λ (s : Scalar). s) (strict_content major raw) (string_scalar major raw)
unfolding strict_content string_scalar
content-Refines major raw =
    Refines-if (λ s. s) (major == 2) (Refines-ok (λ s. s) (octets raw)) (decoded (utf8_decode raw))
  where
    decoded :
        (o : Option Text)
        → Refines
            (λ (s : Scalar). s)
            (elim o as (λ x. Result Scalar) [ none ↦ err value_error | some t ↦ ok (text t) ])
            (elim o as (λ x. Result Scalar) [ none ↦ err malformed_cbor | some t ↦ ok (text t) ])
    decoded none = Refines-err (λ s. s) _ _
    decoded (some t) = Refines-ok (λ s. s) (text t)

string-Refines :
    (major size : ℕ) (rest : Bytes) (budget : ℕ)
    → Refines as_item (strict_string major size rest budget) (read_string major size rest budget)
unfolding strict_string read_string
string-Refines major size rest budget = Refines-raise as_item (ltb (length rest) size) _ _ (
    Refines->>= (λ (s : Scalar). s) as_item (strict_content major (take size rest)) _ _
      (content-Refines major (take size rest)) λ s. Refines-ok as_item _)

key-Refines :
    (host : Host) (ps : Pairs) (previous : Option Bytes) (encoding : Bytes) (v : Cbor)
    → Refines
        (λ (s : Scalar). s)
        (strict_key host ps previous encoding v)
        (require_key host true ps previous encoding v)
unfolding strict_key require_key
key-Refines host ps previous encoding (scalar k) =
    Refines-guard (λ s. s) (has_same_key host k (keys ps)) _ _
      (Refines-guard (λ s. s) _ _ _ (Refines-ok (λ s. s) k))
key-Refines host ps previous encoding _ = Refines-err (λ s. s) _ _

module _ (major n : ℕ) (rest : Bytes) (budget : ℕ) (items pairs tagged : Result (Read Cbor))
    (chunks elements pairs' tagged' : Result (Read Item)) where
  major-Refines :
      Refines as_item items elements
      → Refines as_item pairs pairs'
      → Refines as_item tagged tagged'
      → Refines as_item
          (strict_major major n rest budget items pairs tagged)
          (by_major major (some n) rest budget chunks elements pairs' tagged')
  unfolding strict_major by_major
  major-Refines ri rp rt = Refines-if as_item (major == 0) (Refines-ok as_item _) (
      Refines-if as_item (major == 1) (Refines-ok as_item _) (
        Refines-if as_item (major == 2 || major == 3) (string-Refines major n rest budget)
          (Refines-if as_item (major == 4) ri (Refines-if as_item (major == 5) rp rt))))

mutual
  unfolding strict_item decode_item require_item

  item-Refines :
      (host : Host) (f depth : ℕ) (input : Bytes) (budget : ℕ)
      → Refines as_item
          (strict_item host f depth input budget)
          (decode_item host true f depth false input budget)
  item-Refines host zero depth input budget x h = cc
  item-Refines host (suc f) depth [] budget x h = cc
  item-Refines host (suc f) depth (initial ∷ input) budget x h =
      Refines-if as_item (ltb 16 depth || budget == 0) (Refines-err as_item _ _)
        (Refines-if as_item (initial / 32 == 7) (simple-Refines (initial % 32) input (budget - 1)) (
          Refines->>= as_argument as_item (cbor_argument (initial % 32) input) _ _
            (argument-Refines (initial % 32) input)
            λ (n, rest).
              major-Refines (initial / 32) n rest (budget - 1) _ _ _ _ _ _ _
                (items-Refines host f depth n no_elements rest (budget - 1))
                (pairs-Refines host f depth n none no_pairs rest (budget - 1))
                (Refines->>= as_item as_item (strict_item host f (depth + 1) rest (budget - 1)) _ _
                  (item-Refines host f (depth + 1) rest (budget - 1)) λ v. Refines-ok as_item _)))
        x h

  items-Refines :
      (host : Host) (f depth remaining : ℕ) (acc : Elements) (input : Bytes) (budget : ℕ)
      → Refines as_item
          (strict_items host f depth remaining acc input budget)
          (read_elements host true f depth (some remaining) acc input budget)
  items-Refines host zero depth remaining acc input budget x h = cc
  items-Refines host (suc f) depth remaining acc input budget x h =
      Refines-if as_item (ltb 0 remaining)
        (Refines->>= as_item as_item (strict_item host f (depth + 1) input budget) _ _
          (item-Refines host f (depth + 1) input budget)
          λ r.
            items-Refines host f depth (remaining - 1) (append_element acc r.value) r.rest r.budget)
        (Refines-ok as_item _) x h

  pairs-Refines :
      (host : Host) (f depth remaining : ℕ) (previous : Option Bytes) (acc : Pairs) (input : Bytes)
      (budget : ℕ)
      → Refines as_item
          (strict_pairs host f depth remaining previous acc input budget)
          (read_pairs host true f depth (some remaining) previous acc input budget)
  pairs-Refines host zero depth remaining previous acc input budget x h = cc
  pairs-Refines host (suc f) depth remaining previous acc input budget x h =
      Refines-if as_item (ltb 0 remaining)
        (Refines->>= as_item as_item (strict_item host f (depth + 1) input budget) _ _
          (item-Refines host f (depth + 1) input budget)
          λ r.
            Refines->>= (λ (s : Scalar). s) as_item
              (strict_key host acc previous (taken input r.rest) r.value) _ _
              (key-Refines host acc previous (taken input r.rest) r.value)
              λ key.
                Refines->>= as_item as_item (strict_item host f (depth + 1) r.rest r.budget) _ _
                  (item-Refines host f (depth + 1) r.rest r.budget)
                  λ v.
                    pairs-Refines host f depth (remaining - 1) (some (taken input r.rest))
                      (append_pair acc key v.value) v.rest v.budget)
        (Refines-ok as_item _) x h

end-Refines :
    (c : Cbor) (rest : Bytes) (budget : ℕ)
    → Refines
        (λ (u : Cbor). u)
        (strict_end (record { value = c; rest = rest; budget = budget }))
        (require_end (record { value = c; rest = rest; budget = budget }))
unfolding strict_end require_end
end-Refines c [] budget = Refines-ok (λ u. u) c
end-Refines c (b ∷ bs) budget = Refines-err (λ u. u) _ _

-- Whatever the strict decoder of the vector checks accepts, the library's decoder accepts in
-- deterministic mode, with the same value.
pub decode_strict_cbor-decode_exact :
    (host : Host) (encoded : Bytes) (v : Cbor)
    → decode_strict_cbor host encoded ≡ ok v
    → decode_exact host true encoded ≡ ok v
unfolding decode_strict_cbor decode_exact require_item
decode_strict_cbor-decode_exact host encoded v h =
    let (_, _, h1) = >>=-eq-ok (raise_if (ltb 0x100000 (length encoded)) value_error) _ h in
    Refines->>= as_item (λ (c : Cbor). c) (strict_item host _ 0 encoded 4096) strict_end _
      (item-Refines host _ 0 encoded 4096) (λ r. end-Refines r.value r.rest r.budget) v h1
