-- ===== src/Unicode.antt =====
-- Python's text encodings: `encode("utf-8")`, `encode("utf-16-be")` and `decode("utf-8")`, all strict.
-- A lone surrogate has no encoding.
pub mod Utf16
use scitt_payload_binding.Common.{
  ℕ, zero, suc, ◌+◌, ◌-◌, ◌*◌, ◌/◌, ◌%◌, Bool, ◌&&◌, not, Text, Bytes, [], ◌∷◌, ◌++◌, Option, none,
  some, leb, ltb, ◌==◌, if◌then◌else◌,
}

abbrev pub is_surrogate : ℕ → Bool
is_surrogate c = leb 0xd800 c && leb c 0xdfff

abbrev pub is_scalar : ℕ → Bool
is_scalar c = ltb c 0x110000 && not (is_surrogate c)

unfoldable pub utf8_char : ℕ → Bytes
utf8_char c =
    if ltb c 0x80
    then c ∷ []
    else if ltb c 0x800
    then (0xc0 + c / 64) ∷ (0x80 + c % 64) ∷ []
    else if ltb c 0x10000
    then (0xe0 + c / 4096) ∷ (0x80 + c / 64 % 64) ∷ (0x80 + c % 64) ∷ []
    else (0xf0 + c / 262144) ∷ (0x80 + c / 4096 % 64) ∷ (0x80 + c / 64 % 64) ∷ (0x80 + c % 64) ∷ []

-- the code units of a character, each as its two bytes
unfoldable pub utf16_char : ℕ → Bytes
utf16_char c =
    if ltb c 0x10000
    then c / 256 ∷ c % 256 ∷ []
    else let u = c - 0x10000 in
      let high = 0xd800 + u / 1024 in
      let low = 0xdc00 + u % 1024 in high / 256 ∷ high % 256 ∷ low / 256 ∷ low % 256 ∷ []

abbrev pub prepend : Bytes → Option Bytes → Option Bytes
prepend b none = none
prepend b (some s) = some (b ++ s)

-- t.encode("utf-8")
unfoldable pub utf8_encode : Text → Option Bytes
utf8_encode [] = some []
utf8_encode (c ∷ t) =
    let rest = utf8_encode t in if is_scalar c then prepend (utf8_char c) rest else none

-- t.encode("utf-16-be")
unfoldable pub utf16_encode : Text → Option Bytes
utf16_encode [] = some []
utf16_encode (c ∷ t) =
    let rest = utf16_encode t in if is_scalar c then prepend (utf16_char c) rest else none

-- `needed` continuation bytes are to come for the character whose bits so far are `acc`, and that
-- must be `low` at least.
unfoldable pub utf8_loop : ℕ → ℕ → ℕ → Bytes → Option Text
utf8_loop zero acc low [] = some []
utf8_loop (suc needed) acc low [] = none
utf8_loop zero acc low (b ∷ s) =
    let one = prepend (b ∷ []) (utf8_loop zero 0 0 s) in
    let two = utf8_loop 1 (b - 0xc0) 0x80 s in
    let three = utf8_loop 2 (b - 0xe0) 0x800 s in
    let four = utf8_loop 3 (b - 0xf0) 0x10000 s in
    if ltb b 0x80
    then one
    else if leb 0xc2 b && leb b 0xdf
    then two
    else if leb 0xe0 b && leb b 0xef
    then three
    else if leb 0xf0 b && leb b 0xf4
    then four
    else none
utf8_loop (suc needed) acc low (b ∷ s) =
    let acc' = 64 * acc + (b - 0x80) in
    let more = utf8_loop needed acc' low s in
    let last = prepend (acc' ∷ []) (utf8_loop zero 0 0 s) in
    if leb 0x80 b && leb b 0xbf
    then (if needed == 0 then (if leb low acc' && is_scalar acc' then last else none) else more)
    else none

-- b.decode("utf-8")
unfoldable pub utf8_decode : Bytes → Option Text
utf8_decode b = utf8_loop zero 0 0 b
