-- ===== src/Vectors/Canonical/Agrees.antt =====
-- The library's jcs-n serializer and that of the vector checks give the same text.
use scitt_payload_binding.Common.{
  ℕ, ◌^◌, ◌≡◌, refl, sym, ap, ◌∙◌, subst, Bool, true, false, Text, Bytes, List, [], ◌∷◌, ◌++◌,
  Option, none, some, leb, ltb, if◌then◌else◌, text_ltb, is_empty, arith, append_assoc, Bool-cases,
  inl, inr,
}
use scitt_payload_binding.Common.Int.{ℤ, magnitude}
use scitt_payload_binding.Value.{
  Value, Items, Fields, null, bool, int, float, str, bytes, arr, obj, no_items, item, no_fields,
  field, without_keys,
}
use scitt_payload_binding.Errors.{
  Result, ok, err, out_of_fuel, ◌>>=◌, ◌>>◌, raise_if, value_error, unsafe_integer_error,
}
use scitt_payload_binding.Errors.Agree.{Agree, Agree-refl, Agree->>=, Agree-swap}
use scitt_payload_binding.Python.{int_text}
use scitt_payload_binding.Unicode.{utf16_encode}
use scitt_payload_binding.Platform.{Platform}
use scitt_payload_binding.Lex.Number.{is_unsafe}
use scitt_payload_binding.Canonicalize.Normalize.{
  is_absent, normalize, normalize_items, normalize_fields,
}
use scitt_payload_binding.Canonicalize.Serialize.{
  escape_char, escaped, jcs_string, Member, insert_member, sort_members, member, join_members,
  serialize_object, jcs_n_value, jcs_n_items, jcs_n_members, encode_utf8, jcs_n,
}
use scitt_payload_binding.Canonicalize.Digest.{
  jcs_n_name, exclude, pre_image, raw_digest, hex, canonical_digest,
}
use scitt_payload_binding.Vectors.Canonical.{
  is_dropped, kept_member, strip, strip_items, strip_fields, dumps_char, dumps_chars, dumps_string,
  safe_int, joined_pairs, jcs_object, jcs_with, jcs_with_items, jcs_with_members, jcs,
  jcs_n_pre_image, sha256_hex,
}

is_dropped-eq : (v : Value) → is_dropped v ≡ is_absent v
unfolding is_dropped is_absent
is_dropped-eq null = refl
is_dropped-eq (arr no_items) = refl
is_dropped-eq (arr (item v xs)) = refl
is_dropped-eq (obj no_fields) = refl
is_dropped-eq (obj (field k v fs)) = refl
is_dropped-eq (bool b) = refl
is_dropped-eq (int n) = refl
is_dropped-eq (float tok) = refl
is_dropped-eq (str s) = refl
is_dropped-eq (bytes b) = refl

kept_member-eq :
    (k : Text) (v : Value) (rest : Fields)
    → kept_member k v rest ≡ elim (is_absent v) [ true ↦ rest | false ↦ field k v rest ]
unfolding kept_member
kept_member-eq k v rest = rw (kept_member, is_dropped-eq v)

mutual
  unfolding strip normalize

  strip-eq : (v : Value) → strip v ≡ normalize v
  strip-eq (arr xs) = ap arr (strip_items-eq xs)
  strip-eq (obj fs) = ap obj (strip_fields-eq fs)
  strip-eq null = refl
  strip-eq (bool b) = refl
  strip-eq (int n) = refl
  strip-eq (float tok) = refl
  strip-eq (str s) = refl
  strip-eq (bytes b) = refl

  strip_items-eq : (xs : Items) → strip_items xs ≡ normalize_items xs
  strip_items-eq no_items = refl
  strip_items-eq (item v xs) = rw (strip-eq v, strip_items-eq xs)

  strip_fields-eq : (fs : Fields) → strip_fields fs ≡ normalize_fields fs
  strip_fields-eq no_fields = refl
  strip_fields-eq (field k v fs) =
      rw (strip-eq v, strip_fields-eq fs, kept_member-eq k (normalize v) (normalize_fields fs))

dumps_char-eq : (c : ℕ) → dumps_char c ≡ escape_char c
unfolding dumps_char escape_char
dumps_char-eq c = ground arith

dumps_chars-eq : (s : Text) → dumps_chars s ≡ escaped s ++ (b'"' ∷ [])
unfolding dumps_chars escaped
dumps_chars-eq [] = refl
dumps_chars-eq (c ∷ s) =
    rw (dumps_char-eq c, dumps_chars-eq s)
      (sym (append_assoc (escape_char c) (escaped s) (b'"' ∷ [])))

dumps_string-eq : (s : Text) → dumps_string s ≡ jcs_string s
unfolding dumps_string jcs_string
dumps_string-eq s = ap (λ t. b'"' ∷ t) (dumps_chars-eq s)

safe_int-Agree :
    (n : ℤ) → Agree (safe_int n) (if is_unsafe n then err unsafe_integer_error else ok (int_text n))
unfolding safe_int
safe_int-Agree n = by_size (magnitude n)
  where
    by_size :
        (m : ℕ)
        → Agree
            (raise_if (leb (10 ^ 21) m) value_error
              >> (raise_if (leb (2 ^ 53) m) value_error >> ok (int_text n)))
            (if ltb 0x1fffffffffffff m then err unsafe_integer_error else ok (int_text n))
    by_size m = ground arith

-- Two members of the same key whose values agree.
record Alike (m m' : Member) : Type 0 where
  key : m.key ≡ m'.key
  units : m.units ≡ m'.units
  value : Agree m.value m'.value

abbrev AllAlike : List Member → List Member → Type 0
AllAlike [] [] = Unit
AllAlike (m ∷ ms) (m' ∷ ms') = Alike m m' × AllAlike ms ms'
AllAlike _ _ = ⊥

abbrev AgreeMembers : Result (List Member) → Result (List Member) → Type 0
AgreeMembers (ok ms) (ok ms') = AllAlike ms ms'
AgreeMembers (err e) (err e') = Unit
AgreeMembers _ _ = ⊥

insert_member-AllAlike :
    (m m' : Member) (ms ms' : List Member)
    → Alike m m'
    → AllAlike ms ms'
    → AllAlike (insert_member m ms) (insert_member m' ms')
unfolding insert_member
insert_member-AllAlike m m' [] [] a as' = (a, tt)
insert_member-AllAlike m m' [] (n' ∷ ms') a as' = absurd as'
insert_member-AllAlike m m' (n ∷ ms) [] a as' = absurd as'
insert_member-AllAlike m m' (n ∷ ms) (n' ∷ ms') a (b, rest) =
    elim (Bool-cases (text_ltb n.units m.units)) [
      | inl e ↦ rw (insert_member, e, before e) (b, insert_member-AllAlike m m' ms ms' a rest)
      | inr e ↦ rw (insert_member, e, before e) (a, (b, rest))
    ]
  where
    before : {x : Bool} → text_ltb n.units m.units ≡ x → text_ltb n'.units m'.units ≡ x
    before {x} e =
        subst (λ u. text_ltb u m'.units ≡ x) b.units (subst (λ u. text_ltb n.units u ≡ x) a.units e)

sort_members-AllAlike :
    (ms ms' : List Member) → AllAlike ms ms' → AllAlike (sort_members ms) (sort_members ms')
unfolding sort_members
sort_members-AllAlike [] [] as' = tt
sort_members-AllAlike [] (m' ∷ ms') as' = absurd as'
sort_members-AllAlike (m ∷ ms) [] as' = absurd as'
sort_members-AllAlike (m ∷ ms) (m' ∷ ms') (a, rest) =
    insert_member-AllAlike m m' (sort_members ms) (sort_members ms') a
      (sort_members-AllAlike ms ms' rest)

comma : Bool → Text
comma first = if first then [] else b',' ∷ []

joined_pairs-Agree :
    (first : Bool) (ms ms' : List Member)
    → AllAlike ms ms'
    → Agree (joined_pairs (comma first) ms) (join_members first ms')
unfolding joined_pairs join_members comma
joined_pairs-Agree first [] [] as' = refl
joined_pairs-Agree first [] (m' ∷ ms') as' = absurd as'
joined_pairs-Agree first (m ∷ ms) [] as' = absurd as'
joined_pairs-Agree first (m ∷ ms) (m' ∷ ms') (a, rest) = Agree->>= m.value m'.value _ _ a.value λ v.
    Agree->>= (joined_pairs (b',' ∷ []) ms) (join_members false ms') _ _
      (joined_pairs-Agree false ms ms' rest)
      λ more.
        ap (λ k. comma first ++ (k ++ (b':' ∷ (v ++ more))))
          (dumps_string-eq m.key ∙ ap jcs_string a.key)

jcs_object-Agree :
    (r r' : Result (List Member)) → AgreeMembers r r' → Agree (jcs_object r) (serialize_object r')
unfolding jcs_object serialize_object comma
jcs_object-Agree (ok ms) (ok ms') h =
    Agree->>= (joined_pairs [] (sort_members ms)) (join_members true (sort_members ms')) _ _
      (joined_pairs-Agree true (sort_members ms) (sort_members ms')
        (sort_members-AllAlike ms ms' h))
      λ t. refl
jcs_object-Agree (err e) (err e') h = tt
jcs_object-Agree (ok ms) (err e) h = absurd h
jcs_object-Agree (ok ms) out_of_fuel h = absurd h
jcs_object-Agree (err e) (ok ms) h = absurd h
jcs_object-Agree (err e) out_of_fuel h = absurd h
jcs_object-Agree out_of_fuel r' h = absurd h

member-AgreeMembers :
    (k : Text) (units : Option Bytes) (v v' : Result Text) (r r' : Result (List Member))
    → Agree v v'
    → AgreeMembers r r'
    → AgreeMembers (member k units v r) (member k units v' r')
unfolding member
member-AgreeMembers k none v v' r r' hv h = tt
member-AgreeMembers k (some u) v v' (ok ms) (ok ms') hv h =
    (record { key = refl; units = refl; value = hv }, h)
member-AgreeMembers k (some u) v v' (err e) (err e') hv h = tt
member-AgreeMembers k (some u) v v' (ok ms) (err e) hv h = absurd h
member-AgreeMembers k (some u) v v' (ok ms) out_of_fuel hv h = absurd h
member-AgreeMembers k (some u) v v' (err e) (ok ms) hv h = absurd h
member-AgreeMembers k (some u) v v' (err e) out_of_fuel hv h = absurd h
member-AgreeMembers k (some u) v v' out_of_fuel r' hv h = absurd h

mutual
  unfolding jcs_with jcs_n_value comma

  value-Agree : (v : Value) → Agree (jcs_with (λ tok. err value_error) v) (jcs_n_value v)
  value-Agree null = refl
  value-Agree (bool true) = refl
  value-Agree (bool false) = refl
  value-Agree (int n) = safe_int-Agree n
  value-Agree (float tok) = tt
  value-Agree (str s) = dumps_string-eq s
  value-Agree (bytes b) = tt
  value-Agree (arr xs) =
      Agree->>= (jcs_with_items _ [] xs) (jcs_n_items true xs) _ _ (items-Agree true xs) λ t. refl
  value-Agree (obj fs) = jcs_object-Agree _ (jcs_n_members fs) (members-Agree fs)

  items-Agree :
      (first : Bool) (xs : Items)
      → Agree (jcs_with_items (λ tok. err value_error) (comma first) xs) (jcs_n_items first xs)
  items-Agree first no_items = refl
  items-Agree first (item v xs) = Agree->>= (jcs_with _ v) (jcs_n_value v) _ _ (value-Agree v) λ t.
      Agree->>= (jcs_with_items _ (b',' ∷ []) xs) (jcs_n_items false xs) _ _ (items-Agree false xs)
        λ rest. refl

  members-Agree :
      (fs : Fields) → AgreeMembers (jcs_with_members (λ tok. err value_error) fs) (jcs_n_members fs)
  members-Agree no_fields = tt
  members-Agree (field k v fs) =
      member-AgreeMembers k (utf16_encode k) _ (jcs_n_value v) _ (jcs_n_members fs) (value-Agree v)
        (members-Agree fs)

kept : List Text → Fields → Fields
kept excluded fs = if is_empty excluded then fs else without_keys excluded fs

exclude-eq :
    (excluded : List Text) (fs : Fields) → exclude excluded (obj fs) ≡ obj (kept excluded fs)
unfolding exclude kept
exclude-eq [] fs = refl
exclude-eq (k ∷ ks) fs = refl

digest-bind :
    (platform : Platform) (r : Result Text)
    → (((r >>= encode_utf8) >>= λ b. ok (platform.sha256 b)) >>= λ d. ok (hex d))
      ≡ (r >>= sha256_hex platform)
unfolding sha256_hex
digest-bind platform (err e) = refl
digest-bind platform out_of_fuel = refl
digest-bind platform (ok t) = encoded (encode_utf8 t)
  where
    encoded :
        (b : Result Bytes)
        → ((b >>= λ x. ok (platform.sha256 x)) >>= λ d. ok (hex d))
          ≡ (b >>= λ x. ok (hex (platform.sha256 x)))
    encoded (ok b) = refl
    encoded (err e) = refl
    encoded out_of_fuel = refl

-- the two serializers agree on every value
pub jcs-jcs_n_value : (v : Value) → Agree (jcs v) (jcs_n_value v)
unfolding jcs
jcs-jcs_n_value v = value-Agree v

-- The library's jcs-n digest of an object and the digest that the vector checks compute from its
-- pre-image are the same text, or both refuse the object.
pub canonical_digest-Agree :
    (platform : Platform) (excluded : List Text) (fs : Fields)
    → Agree
        (canonical_digest platform jcs_n_name excluded (obj fs))
        (jcs_n_pre_image fs excluded >>= sha256_hex platform)
unfolding canonical_digest raw_digest pre_image jcs_n jcs_n_pre_image jcs kept
canonical_digest-Agree platform excluded fs =
    let same : strip (obj (kept excluded fs)) ≡ normalize (exclude excluded (obj fs)) =
      strip-eq (obj (kept excluded fs)) ∙ ap normalize (sym (exclude-eq excluded fs)) in
    let v = normalize (exclude excluded (obj fs)) in
    subst
      (λ w.
        Agree (canonical_digest platform jcs_n_name excluded (obj fs))
          (jcs w >>= sha256_hex platform))
      (sym same)
      (subst (λ r. Agree r (jcs v >>= sha256_hex platform))
        (sym (digest-bind platform (jcs_n_value v)))
        (Agree-swap (jcs v >>= sha256_hex platform) (jcs_n_value v >>= sha256_hex platform) (
          Agree->>= (jcs v) (jcs_n_value v) _ _ (value-Agree v)
            λ t. Agree-refl (sha256_hex platform t))))
