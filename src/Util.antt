-- ===== src/Util.antt =====
-- src/util.c and src/util.h: the conversions of octets that the parsers share.
pub mod Reverse
pub mod Fields
pub mod Hex
pub mod Hexdump
use dumphfdl.Common.{
  ℕ, zero, suc, ◌+◌, ◌-◌, ◌*◌, ◌/◌, ◌%◌, ◌^◌, bit_and, bit_or, Option, none, some, ◌>>=◌, peek,
  List, [], ◌∷◌, if◌then◌else◌, ltb,
}

-- REVERSE_BYTE(x), in unsigned long long arithmetic.
unfoldable pub reverse_byte : ℕ → ℕ
reverse_byte x =
    bit_and (x * 0x80200802 % 2 ^ 64) 0x0884422110 * 0x0101010101 % 2 ^ 64 / 2 ^ 32 % 2 ^ 8

-- The loop of parse_icao_hex over the three octets.
unfoldable pub parse_icao_hex : List ℕ → ℕ → Option ℕ
unfolding reverse_byte
parse_icao_hex buf pos = do
  b0 ← peek buf pos
  b1 ← peek buf (pos + 1)
  b2 ← peek buf (pos + 2)
  some (
      bit_or (bit_or (bit_or 0 (reverse_byte b0 * 2 ^ 16)) (reverse_byte b1 * 2 ^ 8))
        (reverse_byte b2))

-- `a << n` of a 32-bit unsigned int; C leaves it undefined from 32 on.
unfoldable pub shift_left : ℕ → ℕ → Option ℕ
shift_left a n = if ltb n 32 then some (a * 2 ^ n % 2 ^ 32) else none

-- An int32_t, as a sign and a magnitude's two cases: `minus n` is -(n + 1).
pub data Signed : Type 0 where
  plus : ℕ → Signed
  minus : ℕ → Signed

-- The integer that parse_coordinate stores into its 20-bit field; a degree is 0x7ffff / 180 of it.
unfoldable pub coordinate : ℕ → Signed
coordinate c =
    let low = c % 2 ^ 20 in if ltb low (2 ^ 19) then plus low else minus (2 ^ 20 - 1 - low)

-- Two 20-bit fields packed into five octets: `b0 | b1 << 8 | (b2 & 0xF) << 16` and
-- `(b2 & 0xF0) >> 4 | b3 << 4 | b4 << 12`.
unfoldable pub low_field : ℕ → ℕ → ℕ → ℕ
low_field b0 b1 b2 = bit_or (bit_or b0 (b1 * 2 ^ 8)) (b2 % 2 ^ 4 * 2 ^ 16)

unfoldable pub high_field : ℕ → ℕ → ℕ → ℕ
high_field b2 b3 b4 = bit_or (bit_or (b2 % 2 ^ 8 / 2 ^ 4) (b3 * 2 ^ 4)) (b4 * 2 ^ 12)

-- extract_uint16_t of src/hfnpdu.c.
unfoldable pub extract_uint16_t : List ℕ → ℕ → Option ℕ
extract_uint16_t buf pos = do
  lo ← peek buf pos
  hi ← peek buf (pos + 1)
  some (bit_or lo (hi * 2 ^ 8))

-- memcpy out of the buffer.
unfoldable pub copy_octets : ℕ → List ℕ → ℕ → Option (List ℕ)
copy_octets zero buf pos = some []
copy_octets (suc n) buf pos = do
  b ← peek buf pos
  bytes ← copy_octets n buf (pos + 1)
  some (b ∷ bytes)
