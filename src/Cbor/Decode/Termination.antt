-- ===== src/Cbor/Decode/Termination.antt =====
-- Decoding returns on every input: the fuel suffices for the item budget.
use scitt_payload_binding.Common.{
  ℕ, zero, suc, ◌+◌, ◌-◌, ◌*◌, ◌/◌, ◌%◌, ◌≤◌, ◌<◌, ◌≡◌, Bool, true, false, ◌&&◌, ◌||◌, not, Bytes,
  List, [], ◌∷◌, ◌++◌, Option, none, some, ltb, ◌==◌, if◌then◌else◌, length, take, Bool-cases, inl,
  inr, arith,
}
use scitt_payload_binding.Errors.{
  Result, ok, err, ◌>>=◌, ◌>>◌, raise_if, malformed_cbor, Terminates,
}
use scitt_payload_binding.Errors.Termination.{
  Within, Within->>=, Within-then, Within-if, Within-weaker, Within-Terminates, >>=-Terminates,
  if-Terminates, raise_if-Terminates,
}
use scitt_payload_binding.Python.{Host}
use scitt_payload_binding.Unicode.{utf8_decode}
use scitt_payload_binding.Cbor.Item.{
  Scalar, int, text, Cbor, scalar, array, map, tag, Elements, no_elements, Pairs, no_pairs,
  append_element, append_pair, has_same_key, keys,
}
use scitt_payload_binding.Cbor.Encode.{key_ltb}
use scitt_payload_binding.Common.Int.{pos, negsuc}
use scitt_payload_binding.Cbor.Head.{argument_width, read_wide, read_argument}
use scitt_payload_binding.Cbor.Decode.{
  Read, Item, read_scalar, read_float, read_simple_byte, read_simple, string_scalar, read_string,
  chunk_content, is_break, is_chunk, taken, require_key, require_item, goes_on, one_less,
  is_indefinite, by_major, decode_item, read_chunks, read_elements, read_pairs, require_end,
  decode_exact,
}

-- It returns, and leaves less than this budget.
abbrev pub Spends : {A : Type 0} → ℕ → Result (Read A) → Type 0
Spends n r = Within (λ x. x.budget) n r

pub Spends->>= :
    {A B : Type 0} (n m : ℕ) (r : Result (Read A)) (k : Read A → Result (Read B))
    → Spends n r
    → ((x : Read A) → x.budget < n → Spends m (k x))
    → Spends m (r >>= k)
Spends->>= n m r k h hk = Within->>= (λ x. x.budget) (λ x. x.budget) n m r k h hk

pub Spends-then :
    {A B : Type 0} (m : ℕ) (r : Result A) (k : A → Result (Read B))
    → Terminates r
    → ((x : A) → Spends m (k x))
    → Spends m (r >>= k)
Spends-then m r k h hk = Within-then (λ x. x.budget) m r k h hk

pub Spends-if :
    {A : Type 0} (m : ℕ) (b : Bool) (r s : Result (Read A))
    → Spends m r
    → Spends m s
    → Spends m (if b then r else s)
Spends-if m b r s h k = Within-if (λ x. x.budget) m b r s h k

float-Spends :
    (d : Bool) (width m : ℕ) (rest : Bytes) (budget : ℕ)
    → budget < m
    → Spends m (read_float d width rest budget)
unfolding read_float
float-Spends d width m rest budget h =
    Spends-then m _ _ (raise_if-Terminates d _)
      λ _. Spends-then m _ _ (raise_if-Terminates (ltb (length rest) width) _) λ _. h

simple_byte-Spends :
    (d : Bool) (m : ℕ) (rest : Bytes) (budget : ℕ)
    → budget < m
    → Spends m (read_simple_byte d rest budget)
unfolding read_simple_byte
simple_byte-Spends d m [] budget h = tt
simple_byte-Spends d m (value ∷ rest) budget h =
    Spends-then m _ _ (raise_if-Terminates (d && ltb value 32) _) λ _. h

simple-Spends :
    (d allow : Bool) (additional m : ℕ) (rest : Bytes) (budget : ℕ)
    → budget < m
    → Spends m (read_simple d allow additional rest budget)
unfolding read_simple
simple-Spends d allow additional m rest budget h = Spends-if m (ltb additional 20) _ _ h (
    Spends-if m (additional == 20) _ _ h (
      Spends-if m (additional == 21) _ _ h (
        Spends-if m (additional == 22) _ _ h (
          Spends-if m (additional == 23) _ _ h (
            Spends-if m (additional == 24) _ _ (simple_byte-Spends d m rest budget h) (
              Spends-if m (additional == 25) _ _ (float-Spends d 2 m rest budget h) (
                Spends-if m (additional == 26) _ _ (float-Spends d 4 m rest budget h) (
                  Spends-if m (additional == 27) _ _ (float-Spends d 8 m rest budget h)
                    (Spends-if m (additional == 31 && allow) _ _ h tt)))))))))

string_scalar-Terminates : (major : ℕ) (raw : Bytes) → Terminates (string_scalar major raw)
unfolding string_scalar
string_scalar-Terminates major raw = elim (Bool-cases (major == 2)) [
  | inl e ↦ rw e tt
  | inr e ↦ rw e (decoded (utf8_decode raw))
]
  where
    decoded :
        (o : Option (List ℕ))
        → Terminates
            (elim o as (λ x. Result Scalar) [ none ↦ err malformed_cbor | some t ↦ ok (text t) ])
    decoded none = tt
    decoded (some t) = tt

string-Spends :
    (major size m : ℕ) (rest : Bytes) (budget : ℕ)
    → budget < m
    → Spends m (read_string major size rest budget)
unfolding read_string
string-Spends major size m rest budget h =
    Spends-then m _ _ (raise_if-Terminates (ltb (length rest) size) _)
      λ _. Spends-then m _ _ (string_scalar-Terminates major (take size rest)) λ s. h

wide-Terminates : (d : Bool) (rest : Bytes) (w : ℕ × ℕ) → Terminates (read_wide d rest w)
unfolding read_wide
wide-Terminates d rest (width, least) = ground arith

argument-Terminates :
    (d : Bool) (additional : ℕ) (rest : Bytes) → Terminates (read_argument d additional rest)
unfolding read_argument
argument-Terminates d additional rest = if-Terminates (ltb additional 24) _ _ tt (
    if-Terminates (additional == 31) _ _ (if-Terminates d _ _ tt tt)
      (by_width (argument_width additional)))
  where
    by_width :
        (o : Option (ℕ × ℕ))
        → Terminates (elim o as (λ x. Result (Option ℕ × Bytes)) [
          | none ↦ err malformed_cbor
          | some w ↦ read_wide d rest w
        ])
    by_width none = tt
    by_width (some w) = wide-Terminates d rest w

require_key-Terminates :
    (host : Host) (d : Bool) (ps : Pairs) (prior : Option Bytes) (encoding : Bytes) (v : Cbor)
    → Terminates (require_key host d ps prior encoding v)
unfolding require_key
require_key-Terminates host d ps prior encoding (scalar k) =
    >>=-Terminates _ _ (raise_if-Terminates (has_same_key host k (keys ps)) _)
      λ _. ordered (d && elim prior [ none ↦ false | some p ↦ not (key_ltb p encoding) ])
  where
    ordered : (b : Bool) → Terminates (raise_if b malformed_cbor >> ok k)
    ordered true = tt
    ordered false = tt
require_key-Terminates host d ps prior encoding (array xs) = tt
require_key-Terminates host d ps prior encoding (map qs) = tt
require_key-Terminates host d ps prior encoding (tag n v) = tt

require_item-Spends : (n : ℕ) (r : Read Item) → r.budget < n → Spends n (require_item r)
unfolding require_item
require_item-Spends n r h = by_value r.value
  where
    by_value :
        (o : Item)
        → Spends n (elim o as (λ x. Result (Read Cbor)) [
          | none ↦ err malformed_cbor
          | some v ↦ ok (record { value = v; rest = r.rest; budget = r.budget })
        ])
    by_value none = tt
    by_value (some v) = h

module _ (m major : ℕ) (argument : Option ℕ) (rest : Bytes) (budget : ℕ)
    (chunks elements pairs tagged : Result (Read Item)) where
  by_major-Spends :
      budget < m
      → Spends m chunks
      → Spends m elements
      → Spends m pairs
      → Spends m tagged
      → Spends m (by_major major argument rest budget chunks elements pairs tagged)
  unfolding by_major
  by_major-Spends h hc he hp ht = Spends-if m (major == 0) _ _ (with_int argument) (
      Spends-if m (major == 1) _ _ (with_negative argument) (
        Spends-if m (major == 2 || major == 3) _ _ (with_string argument)
          (Spends-if m (major == 4) _ _ he (Spends-if m (major == 5) _ _ hp ht))))
    where
      with_int :
          (o : Option ℕ)
          → Spends m (elim o as (λ x. Result (Read Item)) [
            | none ↦ err malformed_cbor
            | some n ↦ read_scalar (int (pos n)) rest budget
          ])
      with_int none = tt
      with_int (some n) = h

      with_negative :
          (o : Option ℕ)
          → Spends m (elim o as (λ x. Result (Read Item)) [
            | none ↦ err malformed_cbor
            | some n ↦ read_scalar (int (negsuc n)) rest budget
          ])
      with_negative none = tt
      with_negative (some n) = h

      with_string :
          (o : Option ℕ)
          → Spends m (elim o as (λ x. Result (Read Item)) [
            | none ↦ chunks
            | some n ↦ read_string major n rest budget
          ])
      with_string none = hc
      with_string (some n) = string-Spends major n m rest budget h

pub Spends-weaker : {A : Type 0} (n m : ℕ) (r : Result (Read A)) → n ≤ m → Spends n r → Spends m r
Spends-weaker n m r le h = Within-weaker (λ x. x.budget) n m r le h

pub one_spent : (budget : ℕ) (b : Bool) → (b || budget == 0) ≡ false → budget - 1 < budget
one_spent budget b e = ground arith

pub fuel_left :
    (f budget : ℕ) → budget - 1 < budget → 2 * budget + 2 ≤ suc f → 2 * (budget - 1) + 3 ≤ f
fuel_left f budget spent le = omega arith

pub item_fuel_left :
    (f budget : ℕ) → budget - 1 < budget → 2 * budget + 2 ≤ suc f → 2 * (budget - 1) + 2 ≤ f
item_fuel_left f budget spent le = omega arith

pub still_less : (b budget : ℕ) → budget - 1 < budget → b < budget - 1 → b < budget
still_less b budget spent less = omega arith

at_break :
    (m : ℕ) (o : Item) (n : Result (Read Item)) (k : Cbor → Result (Read Item))
    → Spends m n
    → ((v : Cbor) → Spends m (k v))
    → Spends m (elim o as (λ x. Result (Read Item)) [ none ↦ n | some v ↦ k v ])
at_break m none n k h hk = h
at_break m (some v) n k h hk = hk v

mutual
  unfolding decode_item read_chunks read_elements read_pairs

  item-Spends :
      (host : Host) (d : Bool) (f depth : ℕ) (allow : Bool) (input : Bytes) (budget : ℕ)
      → 2 * budget + 2 ≤ f
      → Spends budget (decode_item host d f depth allow input budget)
  item-Spends host d zero depth allow input budget le = absurd (omega arith)
  item-Spends host d (suc f) depth allow [] budget le = tt
  item-Spends host d (suc f) depth allow (initial ∷ input) budget le =
      elim (Bool-cases (ltb 16 depth || budget == 0)) [
        | inl e ↦ rw (decode_item, e) tt
        | inr e ↦
            rw (decode_item, e)
              (Spends-if budget (initial / 32 == 7) _ _
                (simple-Spends d allow (initial % 32) budget input (budget - 1)
                  (one_spent budget _ e))
                (Spends-then budget (read_argument d (initial % 32) input) _
                  (argument-Terminates d (initial % 32) input)
                  λ (argument, rest).
                    by_major-Spends budget (initial / 32) argument rest (budget - 1) _ _ _ _
                      (one_spent budget _ e)
                      (Spends-weaker (suc (budget - 1)) budget _ (one_spent budget _ e) (
                        chunks-Spends host d f depth (initial / 32) [] rest (budget - 1)
                          (fuel_left f budget (one_spent budget _ e) le)))
                      (Spends-weaker (suc (budget - 1)) budget _ (one_spent budget _ e) (
                        elements-Spends host d f depth argument no_elements rest (budget - 1)
                          (fuel_left f budget (one_spent budget _ e) le)))
                      (Spends-weaker (suc (budget - 1)) budget _ (one_spent budget _ e) (
                        pairs-Spends host d f depth argument none no_pairs rest (budget - 1)
                          (fuel_left f budget (one_spent budget _ e) le)))
                      (Spends-then budget (raise_if (is_indefinite argument) malformed_cbor) _
                        (raise_if-Terminates (is_indefinite argument) malformed_cbor)
                        λ _.
                          Spends->>= (budget - 1) budget
                            (decode_item host d f (depth + 1) false rest (budget - 1)) _
                            (item-Spends host d f (depth + 1) false rest (budget - 1)
                              (item_fuel_left f budget (one_spent budget _ e) le))
                            λ r less.
                              Spends->>= budget budget (require_item r) _
                                (require_item-Spends budget r
                                  (still_less r.budget budget (one_spent budget _ e) less))
                                λ v less'. less')))
      ]

  chunks-Spends :
      (host : Host) (d : Bool) (f depth major : ℕ) (buf : List ℕ) (input : Bytes) (budget : ℕ)
      → 2 * budget + 3 ≤ f
      → Spends (suc budget) (read_chunks host d f depth major buf input budget)
  chunks-Spends host d zero depth major buf input budget le = absurd (omega arith)
  chunks-Spends host d (suc f) depth major buf input budget le =
      Spends-if (suc budget) (is_break input) _ _ (omega arith) (
        Spends-if (suc budget) (is_chunk major input) _ _
          (Spends->>= budget (suc budget) (decode_item host d f (depth + 1) false input budget) _
            (item-Spends host d f (depth + 1) false input budget (omega arith))
            λ r less.
              Spends-weaker (suc r.budget) (suc budget)
                (read_chunks host d f depth major (buf ++ chunk_content r.value) r.rest r.budget)
                (omega arith)
                (chunks-Spends host d f depth major (buf ++ chunk_content r.value) r.rest r.budget
                  (omega arith)))
          tt)

  elements-Spends :
      (host : Host) (d : Bool) (f depth : ℕ) (remaining : Option ℕ) (acc : Elements) (input : Bytes)
      (budget : ℕ)
      → 2 * budget + 3 ≤ f
      → Spends (suc budget) (read_elements host d f depth remaining acc input budget)
  elements-Spends host d zero depth remaining acc input budget le = absurd (omega arith)
  elements-Spends host d (suc f) depth remaining acc input budget le =
      Spends-if (suc budget) (goes_on remaining) _ _
        (Spends->>= budget (suc budget)
          (decode_item host d f (depth + 1) (is_indefinite remaining) input budget) _
          (item-Spends host d f (depth + 1) (is_indefinite remaining) input budget (omega arith))
          λ r less. at_break (suc budget) r.value _ _ (omega arith) λ v.
            Spends-weaker (suc r.budget) (suc budget)
              (read_elements host d f depth (one_less remaining) (append_element acc v) r.rest
                r.budget)
              (omega arith)
              (elements-Spends host d f depth (one_less remaining) (append_element acc v) r.rest
                r.budget (omega arith)))
        (omega arith)

  pairs-Spends :
      (host : Host) (d : Bool) (f depth : ℕ) (remaining : Option ℕ) (prior : Option Bytes)
      (acc : Pairs) (input : Bytes) (budget : ℕ)
      → 2 * budget + 3 ≤ f
      → Spends (suc budget) (read_pairs host d f depth remaining prior acc input budget)
  pairs-Spends host d zero depth remaining prior acc input budget le = absurd (omega arith)
  pairs-Spends host d (suc f) depth remaining prior acc input budget le =
      Spends-if (suc budget) (goes_on remaining) _ _
        (Spends->>= budget (suc budget)
          (decode_item host d f (depth + 1) (is_indefinite remaining) input budget) _
          (item-Spends host d f (depth + 1) (is_indefinite remaining) input budget (omega arith))
          λ r less. at_break (suc budget) r.value _ _ (omega arith) λ k.
            Spends-then (suc budget) (require_key host d acc prior (taken input r.rest) k) _
              (require_key-Terminates host d acc prior (taken input r.rest) k)
              λ key.
                Spends->>= r.budget (suc budget)
                  (decode_item host d f (depth + 1) false r.rest r.budget) _
                  (item-Spends host d f (depth + 1) false r.rest r.budget (omega arith))
                  λ r' less'.
                    Spends->>= r.budget (suc budget) (require_item r') _
                      (require_item-Spends r.budget r' less')
                      λ v less''.
                        Spends-weaker (suc v.budget) (suc budget)
                          (read_pairs host d f depth (one_less remaining)
                            (some (taken input r.rest)) (append_pair acc key v.value) v.rest
                            v.budget)
                          (omega arith)
                          (pairs-Spends host d f depth (one_less remaining)
                            (some (taken input r.rest)) (append_pair acc key v.value) v.rest
                            v.budget (omega arith)))
        (omega arith)

pub Spends-Terminates :
    {A B : Type 0} (n : ℕ) (r : Result (Read A)) (k : Read A → Result B)
    → Spends n r
    → ((x : Read A) → x.budget < n → Terminates (k x))
    → Terminates (r >>= k)
Spends-Terminates n r k h hk = Within-Terminates (λ x. x.budget) n r k h hk

require_end-Terminates : (r : Read Cbor) → Terminates (require_end r)
unfolding require_end
require_end-Terminates r = at_end r.rest
  where
    at_end :
        (rest : Bytes)
        → Terminates
            (elim rest as (λ x. Result Cbor) [ [] ↦ ok r.value | _ ∷ _ ↦ err malformed_cbor ])
    at_end [] = tt
    at_end (b ∷ bs) = tt

-- Decoding any input in either mode returns an item or raises an exception: the fuel of the model
-- suffices for the budget of 4096 items.
pub decode_exact-Terminates :
    (host : Host) (deterministic : Bool) (input : Bytes)
    → Terminates (decode_exact host deterministic input)
unfolding decode_exact
decode_exact-Terminates host deterministic input =
    Spends-Terminates 4096 (decode_item host deterministic 8196 0 false input 4096) _
      (item-Spends host deterministic 8196 0 false input 4096 (omega arith))
      λ r less.
        Spends-Terminates 4096 (require_item r) require_end (require_item-Spends 4096 r less)
          λ v less'. require_end-Terminates v
