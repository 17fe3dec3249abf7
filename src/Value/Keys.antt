-- ===== src/Value/Keys.antt =====
-- Laws of the dictionary operations.
use scitt_payload_binding.Common.{
  ◌≡◌, refl, false, ◌||◌, Text, some, text_eq, text_eq_iff, text_in, List, if◌then◌else◌, arith,
}
use scitt_payload_binding.Value.{Value, Fields, no_fields, field, get, has_key, set, without_keys}

-- No key occurs twice, as in every Python dict.
abbrev pub UniqueKeys : Fields → Type 0
UniqueKeys no_fields = Unit
UniqueKeys (field k v fs) = (has_key k fs ≡ false) × UniqueKeys fs

pub get-set :
    (j k : Text) (w : Value) (fs : Fields)
    → get j (set k w fs) ≡ (if text_eq j k then some w else get j fs)
unfolding get set
get-set j k w no_fields = ground arith
get-set j k w (field i v fs) =
    ground (arith, text_eq_iff j k, text_eq_iff k i, text_eq_iff j i, get-set j k w fs)

pub has_key-set :
    (j k : Text) (w : Value) (fs : Fields) → has_key j (set k w fs) ≡ (text_eq j k || has_key j fs)
unfolding has_key set
has_key-set j k w no_fields = ground arith
has_key-set j k w (field i v fs) =
    ground (arith, text_eq_iff j k, text_eq_iff k i, text_eq_iff j i, has_key-set j k w fs)

-- Assignment keeps a dict's keys distinct.
pub set-UniqueKeys : (k : Text) (w : Value) (fs : Fields) → UniqueKeys fs → UniqueKeys (set k w fs)
unfolding set has_key
set-UniqueKeys k w no_fields h = (refl, tt)
set-UniqueKeys k w (field i v fs) (fresh, h) =
    ground (arith, has_key-set i k w fs, text_eq_iff i k, text_eq_iff k i, set-UniqueKeys k w fs h)

pub has_key-without_keys :
    (j : Text) (excluded : List Text) (fs : Fields)
    → has_key j (without_keys excluded fs) ≡ (if text_in j excluded then false else has_key j fs)
unfolding has_key without_keys
has_key-without_keys j excluded no_fields = ground arith
has_key-without_keys j excluded (field k v fs) =
    ground (arith, text_eq_iff j k, has_key-without_keys j excluded fs)
