-- ===== src/Canonicalize/Digest/Exclusion.antt =====
-- An excluded top-level field has no influence on a digest.
use scitt_payload_binding.Common.{◌≡◌, ap, true, Text, List, [], ◌∷◌, text_eq_iff, text_in, arith}
use scitt_payload_binding.Value.{Value, Fields, no_fields, field, obj, set, without_keys}
use scitt_payload_binding.Platform.{Platform}
use scitt_payload_binding.Canonicalize.Digest.{exclude, octets_digest, raw_digest, canonical_digest}

without_keys-set :
    (excluded : List Text) (k : Text) (w : Value) (fs : Fields)
    → text_in k excluded ≡ true
    → without_keys excluded (set k w fs) ≡ without_keys excluded fs
unfolding without_keys set
without_keys-set excluded k w no_fields h = rw (h, without_keys)
without_keys-set excluded k w (field i v fs) h =
    ground (arith, text_eq_iff k i, without_keys-set excluded k w fs h)

exclude-set :
    (excluded : List Text) (k : Text) (w : Value) (fs : Fields)
    → text_in k excluded ≡ true
    → exclude excluded (obj (set k w fs)) ≡ exclude excluded (obj fs)
unfolding exclude
exclude-set [] k w fs h = cc
exclude-set (t ∷ ts) k w fs h = ap obj (without_keys-set (t ∷ ts) k w fs h)

-- Assigning any value to an excluded key of an object, present or not, leaves its digest as it is,
-- under every algorithm.
pub canonical_digest-set_excluded :
    (platform : Platform) (algorithm : Text) (excluded : List Text) (k : Text) (w : Value)
    (fs : Fields)
    → text_in k excluded ≡ true
    → canonical_digest platform algorithm excluded (obj (set k w fs))
      ≡ canonical_digest platform algorithm excluded (obj fs)
unfolding canonical_digest raw_digest octets_digest
canonical_digest-set_excluded platform algorithm excluded k w fs h =
    rw (exclude-set excluded k w fs h)
