-- ===== src/Vectors/Mapping/Derived.antt =====
-- What a member mapping derives.
use scitt_payload_binding.Common.{
  ◌≡◌, refl, sym, ap, ◌∙◌, subst, Bool, true, false, Text, List, [], ◌∷◌, ◌++◌, map, any, All,
  ||_false, if◌then◌else◌, ◌==◌,
}
use scitt_payload_binding.Value.{Value, Fields, obj, no_fields}
use scitt_payload_binding.Errors.{Result, ok, err, ◌>>=◌, value_error, >>=-eq-ok, raise_if-eq-ok}
use scitt_payload_binding.Vectors.Pointer.{
  unescape_all, unescape_parts, split_slash, unescape_pointer_token, parse_json_pointer,
  resolve_tokens, resolve_source_pointer,
}
use scitt_payload_binding.Vectors.Mapping.{
  FieldEntry, ConstantEntry, MemberMapping, collide, some_collide, parse_pointers,
  check_destination_collisions, assign, destinations, field_values, constant_values, assign_all,
  apply_member_mapping,
}
use scitt_payload_binding.Vectors.Mapping.Assign.{
  collide-Disjoint, assign-resolve, assign-elsewhere,
}

abbrev Written : Fields → Text × Value → Type 0
Written out (dest, v) = resolve_source_pointer (obj out) dest ≡ ok v

firsts : List (Text × Value) → List Text
firsts dvs = map (λ (d : Text × Value). d.0) dvs

unescape_parts-eq-ok :
    (ts : List Text) (p : Text × List Text)
    → unescape_parts p ≡ ok ts
    → (u : Text) × (us : List Text) × (ts ≡ u ∷ us)
unfolding unescape_all
unescape_parts-eq-ok ts (first, others) h =
    let (u, _, h1) = >>=-eq-ok (unescape_pointer_token first) _ h in
    let (us, _, h2) = >>=-eq-ok (unescape_all others) _ h1 in (u, us, cc h2)

then-eq-ok :
    {ts : List Text} (b : Bool) (r : Result (List Text))
    → (if b then r else err value_error) ≡ ok ts
    → r ≡ ok ts
then-eq-ok true r h = h
then-eq-ok false r h = cc

-- A parsed pointer has a token.
parse_json_pointer-eq-ok :
    (d : Text) (ts : List Text)
    → parse_json_pointer d ≡ ok ts
    → (u : Text) × (us : List Text) × (ts ≡ u ∷ us)
unfolding parse_json_pointer unescape_all
parse_json_pointer-eq-ok [] ts h = cc
parse_json_pointer-eq-ok (c ∷ s) ts h =
    unescape_parts-eq-ok ts (split_slash s)
      (then-eq-ok (c == b'/') (unescape_parts (split_slash s)) h)

parse_pointers-cons :
    (d : Text) (ds : List Text) (tss : List (List Text))
    → parse_pointers (d ∷ ds) ≡ ok tss
    → (ts : List Text) × (rest : List (List Text)) × (parse_json_pointer d ≡ ok ts)
      × (parse_pointers ds ≡ ok rest)
      × (tss ≡ ts ∷ rest)
unfolding parse_pointers
parse_pointers-cons d ds tss h =
    let (ts, one, h1) = >>=-eq-ok (parse_json_pointer d) _ h in
    let (rest, others, h2) = >>=-eq-ok (parse_pointers ds) _ h1 in (ts, rest, one, others, cc h2)

assign_all-cons :
    (d : Text) (v : Value) (dvs : List (Text × Value)) (ts : List Text) (fs out : Fields)
    → parse_json_pointer d ≡ ok ts
    → assign_all ((d, v) ∷ dvs) fs ≡ ok out
    → (gs : Fields) × (assign ts v fs ≡ ok gs) × (assign_all dvs gs ≡ ok out)
unfolding assign_all
assign_all-cons d v dvs ts fs out parsed h =
    let (ts', parsed', h1) = >>=-eq-ok (parse_json_pointer d) _ h in
    let same : ts' ≡ ts = cc (parsed, parsed') in
    >>=-eq-ok (assign ts v fs) _
      (subst (λ us. (assign us v fs >>= λ gs. assign_all dvs gs) ≡ ok out) same h1)

-- The assignments at the other destinations leave a member as it is.
assign_all-elsewhere :
    (us : List Text) (w : Value) (dvs : List (Text × Value)) (tss : List (List Text))
    (fs out : Fields)
    → parse_pointers (firsts dvs) ≡ ok tss
    → any (collide us) tss ≡ false
    → assign_all dvs fs ≡ ok out
    → resolve_tokens us (obj fs) ≡ ok w
    → resolve_tokens us (obj out) ≡ ok w
unfolding assign_all firsts
assign_all-elsewhere us w [] tss fs out p apart h found =
    let same : fs ≡ out = cc h in subst (λ gs. resolve_tokens us (obj gs) ≡ ok w) same found
assign_all-elsewhere us w ((d, v) ∷ dvs) tss fs out p apart h found =
    let (ts, rest, one, others, e) = parse_pointers-cons d (firsts dvs) tss p in
    let (apart_one, apart_rest) =
      ||_false (collide us ts) _ (subst (λ x. any (collide us) x ≡ false) e apart) in
    let (gs, assigned, h1) = assign_all-cons d v dvs ts fs out one h in
    let (a, b) = collide-Disjoint us ts apart_one in
    assign_all-elsewhere us w dvs rest gs out others apart_rest h1
      (assign-elsewhere ts us v w fs gs (b, a) assigned found)

assign_all-Written :
    (dvs : List (Text × Value)) (tss : List (List Text)) (fs out : Fields)
    → parse_pointers (firsts dvs) ≡ ok tss
    → some_collide tss ≡ false
    → assign_all dvs fs ≡ ok out
    → All (Written out) dvs
unfolding some_collide firsts resolve_source_pointer
assign_all-Written [] tss fs out p apart h = tt
assign_all-Written ((d, v) ∷ dvs) tss fs out p apart h =
    let (ts, rest, one, others, e) = parse_pointers-cons d (firsts dvs) tss p in
    let (apart_one, apart_rest) =
      ||_false (any (collide ts) rest) _ (subst (λ x. some_collide x ≡ false) e apart) in
    let (gs, assigned, h1) = assign_all-cons d v dvs ts fs out one h in
    let (u, us, token) = parse_json_pointer-eq-ok d ts one in
    let now : resolve_tokens ts (obj gs) ≡ ok v =
      subst (λ x. resolve_tokens x (obj gs) ≡ ok v) (sym token)
        (assign-resolve u us v fs gs (subst (λ x. assign x v fs ≡ ok gs) token assigned)) in
    (
      rw one (assign_all-elsewhere ts v dvs rest gs out others apart_one h1 now),
      assign_all-Written dvs rest gs out others apart_rest h1,
    )

firsts-append : (a b : List (Text × Value)) → firsts (a ++ b) ≡ firsts a ++ firsts b
unfolding firsts
firsts-append [] b = refl
firsts-append (x ∷ a) b = ap (λ r. x.0 ∷ r) (firsts-append a b)

firsts-constant_values :
    (cs : List ConstantEntry)
    → firsts (constant_values cs) ≡ map (λ (c : ConstantEntry). c.preimage_pointer) cs
unfolding firsts
firsts-constant_values [] = refl
firsts-constant_values (c ∷ cs) = ap (λ r. c.preimage_pointer ∷ r) (firsts-constant_values cs)

field_values-cons :
    (source : Value) (f : FieldEntry) (fs : List FieldEntry) (found : List (Text × Value))
    → field_values source (f ∷ fs) ≡ ok found
    → (v : Value) × (rest : List (Text × Value)) × (resolve_source_pointer source f.source_pointer
        ≡ ok v)
      × (field_values source fs ≡ ok rest)
      × (found ≡ (f.preimage_pointer, v) ∷ rest)
unfolding field_values
field_values-cons source f fs found h =
    let (v, one, h1) = >>=-eq-ok (resolve_source_pointer source f.source_pointer) _ h in
    let (rest, others, h2) = >>=-eq-ok (field_values source fs) _ h1 in
    (v, rest, one, others, cc h2)

firsts-field_values :
    (source : Value) (fs : List FieldEntry) (found : List (Text × Value))
    → field_values source fs ≡ ok found
    → firsts found ≡ map (λ (f : FieldEntry). f.preimage_pointer) fs
unfolding firsts field_values
firsts-field_values source [] found h =
    let none_found : [] ≡ found = cc h in ap firsts (sym none_found)
firsts-field_values source (f ∷ fs) found h =
    let (v, rest, one, others, e) = field_values-cons source f fs found h in
    ap firsts e ∙ ap (λ r. f.preimage_pointer ∷ r) (firsts-field_values source fs rest others)

-- A field of the mapping holds in the derived object what it holds in the source.
abbrev pub Carried : Value → Fields → FieldEntry → Type 0
Carried source out f =
    (v : Value) × (resolve_source_pointer source f.source_pointer ≡ ok v)
    × (resolve_source_pointer (obj out) f.preimage_pointer ≡ ok v)

abbrev pub Stated : Fields → ConstantEntry → Type 0
Stated out c = resolve_source_pointer (obj out) c.preimage_pointer ≡ ok c.value

Written-Carried :
    (source : Value) (out : Fields) (fs : List FieldEntry) (found more : List (Text × Value))
    → field_values source fs ≡ ok found
    → All (Written out) (found ++ more)
    → All (Carried source out) fs × All (Written out) more
unfolding field_values
Written-Carried source out [] found more h w =
    let none_found : [] ≡ found = cc h in
    (tt, subst (λ (x : List (Text × Value)). All (Written out) (x ++ more)) (sym none_found) w)
Written-Carried source out (f ∷ fs) found more h w =
    let (v, rest, one, others, e) = field_values-cons source f fs found h in
    let (here, there) = subst (λ (x : List (Text × Value)). All (Written out) (x ++ more)) e w in
    let (fields, last) = Written-Carried source out fs rest more others there in
    (((v, one, here), fields), last)

Written-Stated :
    (out : Fields) (cs : List ConstantEntry)
    → All (Written out) (constant_values cs)
    → All (Stated out) cs
Written-Stated out [] w = tt
Written-Stated out (c ∷ cs) (here, there) = (here, Written-Stated out cs there)

-- Where a member mapping derives an object from a source, every field of the mapping has in that
-- object, at its destination, the value that the source has at its source pointer, and every
-- constant of the mapping stands at its destination: no assignment overwrites an earlier one.
pub apply_member_mapping-Carried :
    (source : Value) (mapping : MemberMapping) (out : Fields)
    → apply_member_mapping source mapping ≡ ok out
    → All (Carried source out) mapping.fields × All (Stated out) mapping.constants
unfolding apply_member_mapping check_destination_collisions
apply_member_mapping-Carried source mapping out h =
    let (_, checked, h1) = >>=-eq-ok (check_destination_collisions (destinations mapping)) _ h in
    let (tss, parsed, clear) = >>=-eq-ok (parse_pointers (destinations mapping)) _ checked in
    let (found, resolved, assigned) = >>=-eq-ok (field_values source mapping.fields) _ h1 in
    let consts = constant_values mapping.constants in
    let same : firsts (found ++ consts) ≡ destinations mapping =
      firsts-append found consts
      ∙ (ap (λ x. x ++ firsts consts) (firsts-field_values source mapping.fields found resolved)
          ∙ ap (λ x. map (λ (f : FieldEntry). f.preimage_pointer) mapping.fields ++ x)
              (firsts-constant_values mapping.constants)) in
    let written =
      assign_all-Written (found ++ consts) tss no_fields out (ap parse_pointers same ∙ parsed)
        (raise_if-eq-ok (some_collide tss) value_error clear) assigned in
    let (fields, rest) = Written-Carried source out mapping.fields found consts resolved written in
    (fields, Written-Stated out mapping.constants rest)
