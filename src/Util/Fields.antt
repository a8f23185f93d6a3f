-- ===== src/Util/Fields.antt =====
-- The packed fields: no bit is lost or shared, and reads stay within their octets.
use dumphfdl.Common.{
  ℕ, zero, suc, ◌+◌, ◌*◌, ◌/◌, ◌%◌, ◌^◌, ◌≤◌, ◌<◌, ◌≡◌, refl, ◌∙◌, bit_or, some, byte_at, peek-lt,
  List, [], ◌∷◌, length, arith, ◌-◌,
}
use dumphfdl.Common.Bits.{join_fields}
use dumphfdl.Util.{
  low_field, high_field, extract_uint16_t, copy_octets, Signed, plus, minus, coordinate,
}

pub low_field_sum :
    (b0 b1 b2 : ℕ) → b0 < 256 → b1 < 256 → low_field b0 b1 b2 ≡ b0 + b1 * 256 + b2 % 16 * 65536
unfolding low_field
low_field_sum b0 b1 b2 h0 h1 = join_fields 8 16 b0 b1 (b2 % 16) h0 (omega arith)

pub high_field_sum :
    (b2 b3 b4 : ℕ) → b2 < 256 → b3 < 256 → high_field b2 b3 b4 ≡ b2 / 16 + b3 * 16 + b4 * 4096
unfolding high_field
high_field_sum b2 b3 b4 h2 h3 =
    join_fields 4 12 (b2 % 256 / 16) b3 b4 (omega arith) (omega arith) ∙ omega arith

-- Two 20-bit values come back from the five octets that pack them, least significant bits first.
pub fields_round_trip :
    (x y : ℕ)
    → x < 2 ^ 20
    → y < 2 ^ 20
    → let b2 = x / 65536 + y % 16 * 16 in
      (low_field (x % 256) (x / 256 % 256) b2 ≡ x) × (high_field b2 (y / 16 % 256) (y / 4096) ≡ y)
fields_round_trip x y hx hy = (
  low_field_sum (x % 256) (x / 256 % 256) (x / 65536 + y % 16 * 16) (omega arith) (omega arith)
      ∙ omega arith,
  high_field_sum (x / 65536 + y % 16 * 16) (y / 16 % 256) (y / 4096) (omega arith) (omega arith)
      ∙ omega arith,
)

pub extract_uint16_t-total :
    (buf : List ℕ) (pos : ℕ) → pos + 2 ≤ length buf → (r : ℕ) × (extract_uint16_t buf pos ≡ some r)
unfolding extract_uint16_t
extract_uint16_t-total buf pos h = (
  bit_or (byte_at buf pos) (byte_at buf (pos + 1) * 2 ^ 8),
  rw (peek-lt buf pos (omega arith), peek-lt buf (pos + 1) (omega arith)) refl,
)

pub copy_octets-total :
    (n : ℕ) (buf : List ℕ) (pos : ℕ)
    → pos + n ≤ length buf
    → (bytes : List ℕ) × (copy_octets n buf pos ≡ some bytes) × (length bytes ≡ n)
unfolding copy_octets
copy_octets-total zero buf pos h = ([], refl, refl)
copy_octets-total (suc n) buf pos h =
    let (bytes, e, l) = copy_octets-total n buf (pos + 1) (omega arith) in
    (byte_at buf pos ∷ bytes, rw (peek-lt buf pos (omega arith), e) refl, omega (arith, l))

abbrev pub scaled : Signed → ℕ → ℕ
scaled (plus n) off = off + n
scaled (minus n) off = off - 1 - n

-- A coordinate is the 20-bit field as a two's complement number: offset by 2^19 it is the field
-- with its sign bit flipped, modulo 2^20, and so it lies from -2^19 to 2^19 - 1.
pub coordinate_lem :
    (c : ℕ)
    → (scaled (coordinate c) (2 ^ 19) ≡ (c + 2 ^ 19) % 2 ^ 20)
      × (scaled (coordinate c) (2 ^ 19) < 2 ^ 20)
unfolding coordinate
coordinate_lem c = ground arith
