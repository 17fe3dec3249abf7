-- ===== src/Platform.antt =====
-- What the code takes from outside the repository: the Python tables of `Host`, `hashlib.sha256`
-- and `rfc8785.dumps`.
use scitt_payload_binding.Common.{ℕ, ◌≡◌, ◌<◌, Bytes, length, All}
use scitt_payload_binding.Value.{Value}
use scitt_payload_binding.Errors.{Result}
use scitt_payload_binding.Python.{Host}

pub record Platform : Type 0 where
  pub host : Host
  pub sha256 : Bytes → Bytes
  pub rfc8785 : Value → Result Bytes

abbrev pub IsByte : ℕ → Type 0
IsByte b = b < 256

-- SHA-256 returns 32 octets.
pub record IsSha256 (platform : Platform) : Type 0 where
  pub digest_size : (b : Bytes) → length (platform.sha256 b) ≡ 32
  pub digest_bytes : (b : Bytes) → All IsByte (platform.sha256 b)
