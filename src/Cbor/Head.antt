-- ===== src/Cbor/Head.antt =====
-- `_read_argument` and `_head` of lib/cpb/cose_refs.py: the initial byte and the argument.
pub mod RoundTrip
use scitt_payload_binding.Common.{
  ℕ, zero, suc, ◌+◌, ◌*◌, ◌/◌, ◌%◌, Bool, ◌&&◌, Bytes, [], ◌∷◌, ◌++◌, Option, none, some, leb, ltb,
  ◌==◌, if◌then◌else◌, length, take, drop,
}
use scitt_payload_binding.Errors.{Result, ok, err, value_error, malformed_cbor}

-- int.from_bytes(b, "big"), behind a value read so far
unfoldable pub from_bytes : ℕ → Bytes → ℕ
from_bytes acc [] = acc
from_bytes acc (b ∷ bs) = from_bytes (256 * acc + b) bs

-- n.to_bytes(width, "big")
unfoldable pub to_bytes : ℕ → ℕ → Bytes
to_bytes zero n = []
to_bytes (suc width) n = to_bytes width (n / 256) ++ (n % 256 ∷ [])

-- the width of an argument in bytes and the least value that needs it
unfoldable pub argument_width : ℕ → Option (ℕ × ℕ)
argument_width additional =
    if additional == 24
    then some (1, 24)
    else if additional == 25
    then some (2, 0x100)
    else if additional == 26
    then some (4, 0x10000)
    else if additional == 27
    then some (8, 0x100000000)
    else none

unfoldable pub read_wide : Bool → Bytes → ℕ × ℕ → Result (Option ℕ × Bytes)
read_wide deterministic rest (width, least) =
    if ltb (length rest) width
    then err malformed_cbor
    else let value = from_bytes 0 (take width rest) in
      if deterministic && ltb value least
      then err malformed_cbor
      else ok (some value, drop width rest)

-- _read_argument: the argument (none for an indefinite length), and the bytes behind it
unfoldable pub read_argument : Bool → ℕ → Bytes → Result (Option ℕ × Bytes)
read_argument deterministic additional rest =
    if ltb additional 24
    then ok (some additional, rest)
    else if additional == 31
    then (if deterministic then err malformed_cbor else ok (none, rest))
    else elim (argument_width additional) [
      | none ↦ err malformed_cbor
      | some w ↦ read_wide deterministic rest w
    ]

-- _head
unfoldable pub head : ℕ → ℕ → Result Bytes
head major argument =
    if ltb argument 24
    then ok ((32 * major + argument) ∷ [])
    else if leb argument 0xff
    then ok ((32 * major + 24) ∷ argument ∷ [])
    else if leb argument 0xffff
    then ok ((32 * major + 25) ∷ to_bytes 2 argument)
    else if leb argument 0xffffffff
    then ok ((32 * major + 26) ∷ to_bytes 4 argument)
    else if leb argument 0xffffffffffffffff
    then ok ((32 * major + 27) ∷ to_bytes 8 argument)
    else err value_error
