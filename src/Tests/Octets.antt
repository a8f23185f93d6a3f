-- ===== src/Tests/Octets.antt =====
-- Runs of the checksum, the frame check and the conversions.
use dumphfdl.Common.{
  ℕ, ◌≡◌, some, List, [], ◌∷◌, ◌++◌, arith, IsOctets, length, byte_at, ◌+◌, ◌≤◌, ◌<◌,
}
use dumphfdl.Util.Hexdump.{hexdump, alloc_size}
use dumphfdl.Util.Hexdump.Reading.{octet_at, hexdump-octet_at}
use dumphfdl.Crc.{crc16_ccitt}
use dumphfdl.Crc.Reference.{divide, crc16_ccitt-divide}

abbrev message : List ℕ
message = 1 ∷ 2 ∷ 3 ∷ []

octets : IsOctets message
octets = (omega arith, (omega arith, (omega arith, _)))

crc16_ccitt-divide_example : crc16_ccitt (message ++ 9 ∷ []) 3 0xffff ≡ some (divide message 0xffff)
crc16_ccitt-divide_example = crc16_ccitt-divide message (9 ∷ []) 0xffff octets

hexdump-octet_at_example :
    (out : List ℕ) × (hexdump (some message) ≡ some out)
    × (length out + 1 ≤ alloc_size 3)
    × ((k : ℕ) → k < 3 → octet_at out k ≡ some (byte_at message k))
hexdump-octet_at_example = hexdump-octet_at 1 (2 ∷ 3 ∷ []) octets
