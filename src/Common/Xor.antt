-- ===== src/Common/Xor.antt =====
-- The laws of `^` on numbers of any size, from its lowest digit.
use Prim.Native.Nat.{
  ℕ, zero, suc, ◌+◌, ◌*◌, ◌/◌, ◌%◌, ◌^◌, ◌≤◌, ◌<◌, bit_xor, differ, bit_xor-bitwise,
}
use mathlib.Core.Path.{◌≡◌, refl, ap, ap₂, sym, ◌∙◌}
use mathlib.Core.Logic.{◌⊎◌, inl, inr}
use native.Mathlib.Nat.{pow-suc}
use native.Mathlib.Omega.{arith}
use dumphfdl.Common.Bits.{same_digits}

pub zero-bit_xor : (b : ℕ) → bit_xor 0 b ≡ b
zero-bit_xor b = bit_xor-bitwise 0 b

digit_cases : (a : ℕ) → (a % 2 ≡ 0) ⊎ (a % 2 ≡ 1)
digit_cases a = omega arith

differ_digit : (a b : ℕ) → differ (a % 2) (b % 2) ≡ (a + b) % 2
differ_digit a b = elim (digit_cases a) [
  | inl ha ↦ elim (digit_cases b) [
    | inl hb ↦ rw (ha, hb) (omega arith)
    | inr hb ↦ rw (ha, hb) (omega arith)
  ]
  | inr ha ↦ elim (digit_cases b) [
    | inl hb ↦ rw (ha, hb) (omega arith)
    | inr hb ↦ rw (ha, hb) (omega arith)
  ]
]

bit_xor-suc :
    (a b : ℕ) → bit_xor (suc a) b ≡ bit_xor (suc a / 2) (b / 2) * 2 + differ (suc a % 2) (b % 2)
bit_xor-suc a b =
    let here = bit_xor-bitwise (suc a) b in
    let half = bit_xor-bitwise (suc a / 2) (b / 2) in
    let fuel = same_digits differ (suc a / 2) (b / 2) a (suc a / 2) (omega arith) (omega arith) in
    ground arith

pub bit_xor_step : (a b : ℕ) → bit_xor a b ≡ bit_xor (a / 2) (b / 2) * 2 + (a + b) % 2
bit_xor_step zero b = omega (arith, zero-bit_xor b, zero-bit_xor (b / 2))
bit_xor_step (suc a) b = omega (arith, bit_xor-suc a b, differ_digit (suc a) b)

bit_xor_comm_fuel : (n a b : ℕ) → a ≤ n → b ≤ n → bit_xor a b ≡ bit_xor b a
bit_xor_comm_fuel zero zero zero p q = refl
bit_xor_comm_fuel zero (suc a) b p q = absurd (omega arith)
bit_xor_comm_fuel zero zero (suc b) p q = absurd (omega arith)
bit_xor_comm_fuel (suc n) a b p q = omega (
  arith,
  bit_xor_step a b,
  bit_xor_step b a,
  bit_xor_comm_fuel n (a / 2) (b / 2) (omega arith) (omega arith),
)

pub bit_xor_comm : (a b : ℕ) → bit_xor a b ≡ bit_xor b a
bit_xor_comm a b = bit_xor_comm_fuel (a + b) a b (omega arith) (omega arith)

pub bit_xor-zero : (a : ℕ) → bit_xor a 0 ≡ a
bit_xor-zero a = bit_xor_comm a 0 ∙ zero-bit_xor a

pub bit_xor-half : (a b : ℕ) → bit_xor a b / 2 ≡ bit_xor (a / 2) (b / 2)
bit_xor-half a b = omega (arith, bit_xor_step a b)

pub bit_xor-parity : (a b : ℕ) → bit_xor a b % 2 ≡ (a + b) % 2
bit_xor-parity a b = omega (arith, bit_xor_step a b)

bit_xor_assoc_fuel :
    (n a b c : ℕ) → a ≤ n → b ≤ n → c ≤ n → bit_xor (bit_xor a b) c ≡ bit_xor a (bit_xor b c)
bit_xor_assoc_fuel zero zero zero zero p q r = refl
bit_xor_assoc_fuel zero (suc a) b c p q r = absurd (omega arith)
bit_xor_assoc_fuel zero zero (suc b) c p q r = absurd (omega arith)
bit_xor_assoc_fuel zero zero zero (suc c) p q r = absurd (omega arith)
bit_xor_assoc_fuel (suc n) a b c p q r =
    let ih =
      bit_xor_assoc_fuel n (a / 2) (b / 2) (c / 2) (omega arith) (omega arith) (omega arith) in
    let left : bit_xor (bit_xor a b / 2) (c / 2) ≡ bit_xor (bit_xor (a / 2) (b / 2)) (c / 2) =
      ap (λ (t : ℕ). bit_xor t (c / 2)) (bit_xor-half a b) in
    let right : bit_xor (a / 2) (bit_xor b c / 2) ≡ bit_xor (a / 2) (bit_xor (b / 2) (c / 2)) =
      ap (λ (t : ℕ). bit_xor (a / 2) t) (bit_xor-half b c) in
    omega (
      arith,
      ih,
      left,
      right,
      bit_xor_step (bit_xor a b) c,
      bit_xor_step a (bit_xor b c),
      bit_xor-parity a b,
      bit_xor-parity b c,
    )

pub bit_xor_assoc : (a b c : ℕ) → bit_xor (bit_xor a b) c ≡ bit_xor a (bit_xor b c)
bit_xor_assoc a b c = bit_xor_assoc_fuel (a + b + c) a b c (omega arith) (omega arith) (omega arith)

bit_xor_self_fuel : (n a : ℕ) → a ≤ n → bit_xor a a ≡ 0
bit_xor_self_fuel zero zero p = refl
bit_xor_self_fuel zero (suc a) p = absurd (omega arith)
bit_xor_self_fuel (suc n) a p =
    omega (arith, bit_xor_step a a, bit_xor_self_fuel n (a / 2) (omega arith))

pub bit_xor_self : (a : ℕ) → bit_xor a a ≡ 0
bit_xor_self a = bit_xor_self_fuel a a (omega arith)

pub bit_xor_cancel_left : (a b : ℕ) → bit_xor a (bit_xor a b) ≡ b
bit_xor_cancel_left a b =
    sym (bit_xor_assoc a a b) ∙ ap (λ (t : ℕ). bit_xor t b) (bit_xor_self a) ∙ zero-bit_xor b

pub bit_xor_cancel_right : (a b : ℕ) → bit_xor (bit_xor a b) b ≡ a
bit_xor_cancel_right a b =
    bit_xor_assoc a b b ∙ ap (λ (t : ℕ). bit_xor a t) (bit_xor_self b) ∙ bit_xor-zero a

pub bit_xor-injective : (a b c : ℕ) → bit_xor a c ≡ bit_xor b c → a ≡ b
bit_xor-injective a b c h =
    sym (bit_xor_cancel_right a c) ∙ ap (λ (t : ℕ). bit_xor t c) h ∙ bit_xor_cancel_right b c

double_pow : (q k : ℕ) → q * 2 ^ suc k ≡ 2 * (q * 2 ^ k)
double_pow q k = omega (arith, ap (λ (t : ℕ). q * t) (pow-suc 2 k))

-- Disjoint fields add up.
pub bit_xor_fields : (k q r : ℕ) → r < 2 ^ k → bit_xor (q * 2 ^ k) r ≡ q * 2 ^ k + r
bit_xor_fields zero q zero h = ground (arith, bit_xor-zero q)
bit_xor_fields zero q (suc r) h = absurd (omega arith)
bit_xor_fields (suc k) q r h = ground (
  arith,
  bit_xor_step (q * 2 ^ suc k) r,
  double_pow q k,
  bit_xor_fields k q (r / 2) (omega (arith, pow-suc 2 k)),
)

abbrev pub Split : ℕ → Type 0
Split m =
    (a b : ℕ)
    → (bit_xor a b / m ≡ bit_xor (a / m) (b / m)) × (bit_xor a b % m ≡ bit_xor (a % m) (b % m))

bit_xor_parts_2 : Split 2
bit_xor_parts_2 a b = (
  bit_xor-half a b,
  let none_left : bit_xor (a % 2 / 2) (b % 2 / 2) ≡ 0 = rw (zero_half a, zero_half b) refl in
      omega (arith, bit_xor-parity a b, bit_xor_step (a % 2) (b % 2), none_left),
)
  where
    zero_half : (x : ℕ) → x % 2 / 2 ≡ 0
    zero_half x = omega arith

bit_xor_parts_4 : Split 4
bit_xor_parts_4 a b = (
  omega (
    arith,
    bit_xor_parts_2 a b,
    bit_xor_parts_2 (a / 2) (b / 2),
    ap₂ bit_xor (quarter a) (quarter b),
  ),
  omega (
    arith,
    bit_xor_parts_2 a b,
    bit_xor_parts_2 (a / 2) (b / 2),
    bit_xor_parts_2 (a % 4) (b % 4),
    ap₂ bit_xor (high a) (high b),
    ap₂ bit_xor (low a) (low b),
  ),
)
  where
    quarter : (x : ℕ) → x / 2 / 2 ≡ x / 4
    quarter x = omega arith

    high : (x : ℕ) → x % 4 / 2 ≡ x / 2 % 2
    high x = omega arith

    low : (x : ℕ) → x % 4 % 2 ≡ x % 2
    low x = omega arith

bit_xor_parts_16 : Split 16
bit_xor_parts_16 a b = (
  omega
      (arith, bit_xor_parts_4 a b, bit_xor_parts_4 (a / 4) (b / 4), ap₂ bit_xor (part a) (part b)),
  omega (
    arith,
    bit_xor_parts_4 a b,
    bit_xor_parts_4 (a / 4) (b / 4),
    bit_xor_parts_4 (a % 16) (b % 16),
    ap₂ bit_xor (high a) (high b),
    ap₂ bit_xor (low a) (low b),
  ),
)
  where
    part : (x : ℕ) → x / 4 / 4 ≡ x / 16
    part x = omega arith

    high : (x : ℕ) → x % 16 / 4 ≡ x / 4 % 4
    high x = omega arith

    low : (x : ℕ) → x % 16 % 4 ≡ x % 4
    low x = omega arith

-- On octets and the rest, `^` works separately.
pub bit_xor_parts_256 : Split 256
bit_xor_parts_256 a b = (
  omega (
    arith,
    bit_xor_parts_16 a b,
    bit_xor_parts_16 (a / 16) (b / 16),
    ap₂ bit_xor (part a) (part b),
  ),
  omega (
    arith,
    bit_xor_parts_16 a b,
    bit_xor_parts_16 (a / 16) (b / 16),
    bit_xor_parts_16 (a % 256) (b % 256),
    ap₂ bit_xor (high a) (high b),
    ap₂ bit_xor (low a) (low b),
  ),
)
  where
    part : (x : ℕ) → x / 16 / 16 ≡ x / 256
    part x = omega arith

    high : (x : ℕ) → x % 256 / 16 ≡ x / 16 % 16
    high x = omega arith

    low : (x : ℕ) → x % 256 % 16 ≡ x % 16
    low x = omega arith

bit_xor-lt_fuel : (k a b : ℕ) → a < 2 ^ k → b < 2 ^ k → bit_xor a b < 2 ^ k
bit_xor-lt_fuel zero zero zero p q = omega arith
bit_xor-lt_fuel zero (suc a) b p q = absurd (omega arith)
bit_xor-lt_fuel zero zero (suc b) p q = absurd (omega arith)
bit_xor-lt_fuel (suc k) a b p q =
    let e = pow-suc 2 k in
    omega (
      arith,
      e,
      bit_xor_step a b,
      bit_xor-lt_fuel k (a / 2) (b / 2) (omega (arith, e)) (omega (arith, e)),
    )

pub bit_xor-lt : (k a b : ℕ) → a < 2 ^ k → b < 2 ^ k → bit_xor a b < 2 ^ k
bit_xor-lt = bit_xor-lt_fuel
