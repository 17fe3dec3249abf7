-- ===== src/Tests/Sample.antt =====
-- A concrete platform and the inputs that the runs share.
use scitt_payload_binding.Common.{
  ℕ, ◌-◌, true, false, Text, [], ◌∷◌, ◌++◌, none, some, text_eq, ltb, if◌then◌else◌,
}
use scitt_payload_binding.Common.{zero, suc, ◌%◌, Bytes, length, refl, arith, codes, All}
use scitt_payload_binding.Value.{Value, str}
use scitt_payload_binding.Platform.{Platform, IsByte, IsSha256}
use scitt_payload_binding.Canonicalize.Serialize.{jcs_n}
use scitt_payload_binding.Python.{Host}

-- Arabic-Indic digits are the only ones above U+007F here, and `dumps` quotes plain keys.
abbrev pub sample_host : Host
sample_host = record {
  decimal = λ c. if ltb c 0x660 then none else if ltb c 0x66a then some (c - 0x660) else none;
  space = λ c. false;
  dumps = λ t. b'"' ∷ (t ++ (b'"' ∷ []));
  float_eq = text_eq;
  bracketed_netloc = λ t. true;
  is_ipv6 = λ t. false;
}

abbrev fill : ℕ → Bytes
fill zero = []
fill (suc n) = 0 ∷ fill n

fill-IsByte : (n : ℕ) → All IsByte (fill n)
fill-IsByte zero = tt
fill-IsByte (suc n) = (omega arith, fill-IsByte n)

-- The hash is the input's size in 32 octets, and `rfc8785.dumps` prints as jcs-n does.
abbrev pub sample_platform : Platform
sample_platform = record {
  host = sample_host;
  sha256 = λ b. (length b % 256) ∷ fill 31;
  rfc8785 = λ v. jcs_n v;
}

pub sample-IsSha256 : IsSha256 sample_platform
sample-IsSha256 = record {
  digest_size = λ b. refl;
  digest_bytes = λ b. (omega arith, fill-IsByte 31);
}

abbrev pub sample_raw : Value
sample_raw = str (codes "{\"n\":1}")

abbrev pub sample_digest : Text
sample_digest = codes "0700000000000000000000000000000000000000000000000000000000000000"
