-- ===== src/Crc/Reference.antt =====
-- The table of src/crc.c against the polynomial division that it stands for.
use dumphfdl.Common.{
  ℕ, zero, suc, ◌*◌, ◌/◌, ◌%◌, ◌<◌, ◌≡◌, refl, sym, ap, ◌∙◌, bit_xor, true, some, List, [], ◌∷◌,
  ◌++◌, ◌==◌, ==_iff, if◌then◌else◌, Bool-cases, inl, inr, length, arith, ap₂, IsOctets,
}
use dumphfdl.Common.Range.{all_below, all_below_sound}
use dumphfdl.Common.Xor.{
  bit_xor-zero, bit_xor-half, bit_xor-parity, bit_xor_comm, bit_xor_assoc, bit_xor_fields,
  bit_xor_parts_256,
}
use dumphfdl.Crc.{table_at, crc_step, crc16_ccitt}

-- One bit, least significant first, of the division by x^16 + x^12 + x^5 + 1.
unfoldable pub shift_bit : ℕ → ℕ
shift_bit x = bit_xor (x / 2) (if x % 2 == 1 then 0x8408 else 0)

unfoldable pub shift_bits : ℕ → ℕ → ℕ
unfolding shift_bit
shift_bits zero x = x
shift_bits (suc n) x = shift_bits n (shift_bit x)

-- The division of a whole message, an octet at a time.
unfoldable pub divide : List ℕ → ℕ → ℕ
unfolding shift_bits
divide [] crc = crc
divide (b ∷ bytes) crc = divide bytes (shift_bits 8 (bit_xor crc b))

table_checked : all_below 256 (λ x. shift_bits 8 x == table_at x) ≡ true
unfolding all_below shift_bits table_at
table_checked = refl

table_lem : (x : ℕ) → x < 256 → shift_bits 8 x ≡ table_at x
table_lem x h =
    (==_iff _ _).0 (all_below_sound 256 (λ x. shift_bits 8 x == table_at x) x table_checked h)

-- Exchanging the middle terms of a sum without carries.
xor_middle :
    (a b c d : ℕ) → bit_xor (bit_xor a b) (bit_xor c d) ≡ bit_xor (bit_xor a c) (bit_xor b d)
xor_middle a b c d =
    bit_xor_assoc a b (bit_xor c d)
    ∙ ap (λ (t : ℕ). bit_xor a t)
        (sym (bit_xor_assoc b c d)
          ∙ ap (λ (t : ℕ). bit_xor t d) (bit_xor_comm b c)
          ∙ bit_xor_assoc c b d)
    ∙ sym (bit_xor_assoc a c (bit_xor b d))

feedback : ℕ → ℕ
feedback x = if x % 2 == 1 then 0x8408 else 0

feedback_xor : (a b : ℕ) → feedback (bit_xor a b) ≡ bit_xor (feedback a) (feedback b)
unfolding feedback
feedback_xor a b = elim (Bool-cases (a % 2 == 1)) [
  | inl p ↦ elim (Bool-cases (b % 2 == 1)) [
    | inl q ↦ ground (arith, bit_xor-parity a b)
    | inr q ↦ ground (arith, bit_xor-parity a b)
  ]
  | inr p ↦ elim (Bool-cases (b % 2 == 1)) [
    | inl q ↦ ground (arith, bit_xor-parity a b)
    | inr q ↦ ground (arith, bit_xor-parity a b)
  ]
]

shift_bit_xor : (a b : ℕ) → shift_bit (bit_xor a b) ≡ bit_xor (shift_bit a) (shift_bit b)
unfolding shift_bit feedback
shift_bit_xor a b =
    ap₂ bit_xor (bit_xor-half a b) (feedback_xor a b)
    ∙ xor_middle (a / 2) (b / 2) (feedback a) (feedback b)

shift_bits_xor :
    (n a b : ℕ) → shift_bits n (bit_xor a b) ≡ bit_xor (shift_bits n a) (shift_bits n b)
unfolding shift_bits
shift_bits_xor zero a b = refl
shift_bits_xor (suc n) a b =
    ap (shift_bits n) (shift_bit_xor a b) ∙ shift_bits_xor n (shift_bit a) (shift_bit b)

shift_bit_even : (x y : ℕ) → x ≡ y * 2 → shift_bit x ≡ y
unfolding shift_bit
shift_bit_even x y h = ground (arith, bit_xor-zero y)

shift_octet : (x : ℕ) → shift_bits 8 (x * 256) ≡ x
unfolding shift_bits
shift_octet x =
    rw
      (
        shift_bit_even (x * 256) (x * 128) (omega arith),
        shift_bit_even (x * 128) (x * 64) (omega arith),
        shift_bit_even (x * 64) (x * 32) (omega arith),
        shift_bit_even (x * 32) (x * 16) (omega arith),
        shift_bit_even (x * 16) (x * 8) (omega arith),
        shift_bit_even (x * 8) (x * 4) (omega arith),
        shift_bit_even (x * 4) (x * 2) (omega arith),
      )
      (shift_bit_even (x * 2) x refl)

-- A table step on the register is eight bit steps.
octet_lem : (x : ℕ) → shift_bits 8 x ≡ bit_xor (x / 256) (table_at (x % 256))
octet_lem x =
    let apart : x ≡ bit_xor (x / 256 * 256) (x % 256) =
      omega (arith, bit_xor_fields 8 (x / 256) (x % 256) (omega arith)) in
    ap (shift_bits 8) apart
    ∙ shift_bits_xor 8 (x / 256 * 256) (x % 256)
    ∙ ap₂ bit_xor (shift_octet (x / 256)) (table_lem (x % 256) (omega arith))

pub crc_step_lem : (crc b : ℕ) → b < 256 → crc_step crc b ≡ shift_bits 8 (bit_xor crc b)
unfolding crc_step
crc_step_lem crc b h =
    let no_high : b / 256 ≡ 0 = omega arith in
    let high : bit_xor crc b / 256 ≡ crc / 256 =
      (bit_xor_parts_256 crc b).0
      ∙ ap (λ (t : ℕ). bit_xor (crc / 256) t) no_high
      ∙ bit_xor-zero (crc / 256) in
    ap (λ (t : ℕ). bit_xor t (table_at (bit_xor crc b % 256))) (sym high)
    ∙ sym (octet_lem (bit_xor crc b))

-- On a message of octets the routine stays within the message, whatever follows it, and computes
-- the bit by bit division of the message by the CRC-CCITT polynomial from the given register.
pub crc16_ccitt-divide :
    (bytes rest : List ℕ) (crc : ℕ)
    → IsOctets bytes
    → crc16_ccitt (bytes ++ rest) (length bytes) crc ≡ some (divide bytes crc)
unfolding crc16_ccitt divide
crc16_ccitt-divide [] [] crc h = refl
crc16_ccitt-divide [] (r ∷ rest) crc h = refl
crc16_ccitt-divide (b ∷ bytes) rest crc h =
    crc16_ccitt-divide bytes rest (crc_step crc b) h.1
    ∙ ap (λ (t : ℕ). some (divide bytes t)) (crc_step_lem crc b h.0)
