-- ===== src/Util/Reverse.antt =====
-- Bit order: REVERSE_BYTE and the ICAO address of src/util.c.
use dumphfdl.Common.{
  ℕ, ◌+◌, ◌-◌, ◌*◌, ◌/◌, ◌%◌, ◌^◌, ◌<◌, ◌≡◌, refl, bit_or, Bool, true, ◌&&◌, some, ◌==◌, ==_iff,
  List, [], ◌∷◌, ◌++◌, arith,
}
use dumphfdl.Common.Bits.{zero-bit_or, bit_or-high}
use dumphfdl.Common.Range.{all_below, all_below_sound}
use dumphfdl.Util.{reverse_byte, parse_icao_hex}

abbrev pub bit : ℕ → ℕ → ℕ
bit x n = x / 2 ^ n % 2

reversed : ℕ → Bool
reversed x =
    all_below 8 (λ n. bit (reverse_byte x) n == bit x (7 - n)) && reverse_byte (reverse_byte x) == x

reversed_checked : all_below 256 reversed ≡ true
unfolding all_below reversed reverse_byte
reversed_checked = refl

-- For every octet, bit n of the result is bit 7 - n of the argument for n below 8, and reversing
-- twice gives the octet back.
pub reverse_byte_bits :
    (x : ℕ)
    → x < 256
    → ((n : ℕ) → n < 8 → bit (reverse_byte x) n ≡ bit x (7 - n))
      × (reverse_byte (reverse_byte x) ≡ x)
unfolding reversed
reverse_byte_bits x h =
    let all : reversed x ≡ true = all_below_sound 256 reversed x reversed_checked h in
    (
      λ n lt.
          (==_iff _ _).0
            (all_below_sound 8 (λ n. bit (reverse_byte x) n == bit x (7 - n)) n (ground arith) lt),
      (==_iff _ _).0 (ground arith),
    )

pub reverse_byte-lt : (x : ℕ) → reverse_byte x < 256
unfolding reverse_byte
reverse_byte-lt x = omega arith

-- The wire form of an address: most significant octet first, each with its bits reversed.
abbrev pub icao_octets : ℕ → List ℕ
icao_octets a =
    reverse_byte (a / 65536 % 256) ∷ reverse_byte (a / 256 % 256) ∷ reverse_byte (a % 256) ∷ []

join_octets :
    (h m l : ℕ)
    → h < 256
    → m < 256
    → l < 256
    → bit_or (bit_or (bit_or 0 (h * 2 ^ 16)) (m * 2 ^ 8)) l ≡ h * 65536 + m * 256 + l
join_octets h m l ph pm pl = ground (
  arith,
  zero-bit_or (h * 65536),
  bit_or-high 16 h (m * 256) (omega arith),
  bit_or-high 8 (h * 256 + m) l pl,
)

-- Parsing the wire form of a 24-bit address gives the address, whatever stands around it.
pub parse_icao_hex-icao_octets :
    (a : ℕ) (rest : List ℕ) → a < 2 ^ 24 → parse_icao_hex (icao_octets a ++ rest) 0 ≡ some a
unfolding parse_icao_hex
parse_icao_hex-icao_octets a rest h = ground (
  arith,
  (reverse_byte_bits (a / 65536 % 256) (omega arith)).1,
  (reverse_byte_bits (a / 256 % 256) (omega arith)).1,
  (reverse_byte_bits (a % 256) (omega arith)).1,
  join_octets (a / 65536 % 256) (a / 256 % 256) (a % 256) (omega arith) (omega arith) (omega arith),
)
