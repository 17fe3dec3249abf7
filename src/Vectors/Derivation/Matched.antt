-- ===== src/Vectors/Derivation/Matched.antt =====
-- What a vector without a mapping problem shows.
use scitt_payload_binding.Common.{
  ◌≡◌, refl, sym, ap, ◌∙◌, Bool, true, false, ◌||◌, Text, Option, none, some, if◌then◌else◌, codes,
  text_eq, text_eq_sound, Bool-cases, inl, inr, All,
}
use scitt_payload_binding.Value.{Value, null, obj, Fields, get}
use scitt_payload_binding.Errors.{Result, ok, err, out_of_fuel, >>=-eq-ok}
use scitt_payload_binding.Errors.Agree.{Agree-ok}
use scitt_payload_binding.Canonicalize.Serialize.{jcs_n_value}
use scitt_payload_binding.Vectors.Canonical.{jcs}
use scitt_payload_binding.Vectors.Canonical.Agrees.{jcs-jcs_n_value}
use scitt_payload_binding.Vectors.Mapping.{MemberMapping, apply_member_mapping}
use scitt_payload_binding.Vectors.Mapping.Derived.{Carried, Stated, apply_member_mapping-Carried}
use scitt_payload_binding.Vectors.Derivation.{
  Problem, derives_another, truthy, read_mapping, compare_derived, check_mapping, check_declared,
  check_context, check_member_mapping_derivation,
}

-- The declared mapping derives an object from the vector's source object, which has the source's
-- values and the constants where the mapping says, and the library serializes that object and the
-- vector's input to the same text.
pub record Matches (float_truth : Text → Bool) (v : Fields) (declared : Value) : Type 0 where
  pub mapping : Fields
  pub source : Value
  pub input : Value
  pub entries : MemberMapping
  pub derived : Fields
  pub text : Text
  pub is_object : declared ≡ obj mapping
  pub has_source : get (codes "source_object") v ≡ some source
  pub has_input : get (codes "input") v ≡ some input
  pub reads : read_mapping float_truth mapping ≡ ok entries
  pub applies : apply_member_mapping source entries ≡ ok derived
  pub carries : All (Carried source derived) entries.fields
  pub states : All (Stated derived) entries.constants
  pub derived_text : jcs_n_value (obj derived) ≡ ok text
  pub input_text : jcs_n_value input ≡ ok text

none_chosen : (b : Bool) (p : Problem) → ok (if b then none else some p) ≡ ok none → b ≡ true
none_chosen true p h = refl
none_chosen false p h = cc

compare_derived-none :
    (input : Value) (r : Result Fields)
    → compare_derived input r ≡ ok none
    → (derived : Fields) × ((t : Text) × ((r ≡ ok derived)
          × ((jcs_n_value (obj derived) ≡ ok t) × (jcs_n_value input ≡ ok t))))
unfolding compare_derived
compare_derived-none input (ok derived) h =
    let (a, first, h1) = >>=-eq-ok (jcs (obj derived)) _ h in
    let (b, second, last) = >>=-eq-ok (jcs input) _ h1 in
    let same : a ≡ b = text_eq_sound a b (none_chosen (text_eq a b) derives_another last) in
    (
      derived,
      (
        a,
        (
          refl,
          (
            Agree-ok (jcs (obj derived)) (jcs_n_value (obj derived)) a
                (jcs-jcs_n_value (obj derived)) first,
            Agree-ok (jcs input) (jcs_n_value input) a (jcs-jcs_n_value input)
                (second ∙ ap ok (sym same)),
          ),
        ),
      ),
    )
compare_derived-none input (err e) h = cc
compare_derived-none input out_of_fuel h = cc

check_mapping-none :
    (float_truth : Text → Bool) (v mapping : Fields) (o i : Option Value)
    → get (codes "source_object") v ≡ o
    → get (codes "input") v ≡ i
    → check_mapping float_truth mapping o i ≡ ok none
    → Matches float_truth v (obj mapping)
unfolding check_mapping
check_mapping-none ft v mapping (some (obj source)) (some input) eo ei h =
    let (derived, (t, (applied, (a, b)))) = compare_derived-none input _ h in
    let (m, read, result) = >>=-eq-ok (read_mapping ft mapping) _ applied in
    let (carries, states) = apply_member_mapping-Carried (obj source) m derived result in
    record {
      mapping = mapping;
      source = obj source;
      input = input;
      entries = m;
      derived = derived;
      text = t;
      is_object = refl;
      has_source = eo;
      has_input = ei;
      reads = read;
      applies = result;
      carries = carries;
      states = states;
      derived_text = a;
      input_text = b;
    }
check_mapping-none ft v mapping (some (obj source)) none eo ei h = cc
check_mapping-none ft v mapping _ i eo ei h = cc

check_declared-none :
    (float_truth : Text → Bool) (v : Fields) (declared : Value)
    → check_declared float_truth v (some declared) ≡ ok none
    → Matches float_truth v declared
unfolding check_declared
check_declared-none ft v (obj mapping) h =
    elim (Bool-cases
      (truthy ft (get (codes "fields") mapping) || truthy ft (get (codes "constants") mapping))) [
        | inl e ↦ check_mapping-none ft v mapping _ _ refl refl (rw (check_declared, e) at h)
        | inr e ↦ cc (rw (check_declared, e) at h)
      ]
check_declared-none ft v null h = cc
check_declared-none ft v _ h = cc

-- When the derivation check finds no problem in a vector that declares a member mapping, the mapping
-- derives an object from the vector's source object, every field and constant of it stands in that
-- object where the mapping says, and the library serializes that object and the vector's input to the
-- same jcs-n text.
pub check_member_mapping_derivation-none :
    (float_truth : Text → Bool) (v ctx : Fields) (declared : Value)
    → get (codes "declared_digest_context") v ≡ some (obj ctx)
    → get (codes "member_mapping") ctx ≡ some declared
    → check_member_mapping_derivation float_truth v ≡ ok none
    → Matches float_truth v declared
unfolding check_member_mapping_derivation check_context
check_member_mapping_derivation-none ft v ctx declared context mapped h =
    check_declared-none ft v declared
      (rw (check_member_mapping_derivation, context, check_context, mapped) at h)
