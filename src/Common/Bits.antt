-- ===== src/Common/Bits.antt =====
-- `|` of disjoint bit fields as a sum, and the digit laws of `|` and `^`.
use Prim.Native.Nat.{
  ℕ, zero, suc, ◌+◌, ◌*◌, ◌/◌, ◌%◌, ◌^◌, ◌≤◌, ◌<◌, max, bit_or, digits, bit_or-bitwise,
}
use mathlib.Core.Path.{◌≡◌, refl, ap, ◌∙◌}
use native.Mathlib.Nat.{pow-suc}
use native.Mathlib.Omega.{arith}

-- More rounds than the number has digits make no difference.
pub same_digits :
    (f : ℕ → ℕ → ℕ) (a b n m : ℕ)
    → a ≤ n
    → a ≤ m
    → digits (λ y. y) f n a b ≡ digits (λ y. y) f m a b
same_digits f zero b zero zero h k = refl
same_digits f zero b (suc n) zero h k = refl
same_digits f zero b zero (suc m) h k = refl
same_digits f zero b (suc n) (suc m) h k = refl
same_digits f (suc a) b n zero h k = absurd (omega (arith, k))
same_digits f (suc a) b zero (suc m) h k = absurd (omega (arith, h))
same_digits f (suc a) b (suc n) (suc m) h k =
    ap (λ (t : ℕ). t * 2 + f (suc a % 2) (b % 2))
      (same_digits f (suc a / 2) (b / 2) n m (omega (arith, h)) (omega (arith, k)))

pub zero-bit_or : (b : ℕ) → bit_or 0 b ≡ b
zero-bit_or b = bit_or-bitwise 0 b

pub bit_or_step : (a b : ℕ) → bit_or a b ≡ bit_or (a / 2) (b / 2) * 2 + max (a % 2) (b % 2)
bit_or_step zero b = omega (arith, zero-bit_or b, zero-bit_or (b / 2))
bit_or_step (suc a) b = omega (
  arith,
  bit_or-bitwise (suc a) b,
  bit_or-bitwise (suc a / 2) (b / 2),
  same_digits max (suc a / 2) (b / 2) a (suc a / 2) (omega arith) (omega arith),
)

bit_or_zero_fuel : (n a : ℕ) → a ≤ n → bit_or a 0 ≡ a
bit_or_zero_fuel n zero h = refl
bit_or_zero_fuel zero (suc a) h = absurd (omega arith)
bit_or_zero_fuel (suc n) (suc a) h =
    omega (arith, bit_or_step (suc a) 0, bit_or_zero_fuel n (suc a / 2) (omega arith))

bit_or_zero : (a : ℕ) → bit_or a 0 ≡ a
bit_or_zero a = bit_or_zero_fuel a a (omega arith)

double-pow : (q k : ℕ) → q * 2 ^ suc k ≡ 2 * (q * 2 ^ k)
double-pow q k = omega (arith, ap (λ (t : ℕ). q * t) (pow-suc 2 k))

-- The low field first, as the parsers write it: `r | q << k`.
pub bit_or-low : (k r q : ℕ) → r < 2 ^ k → bit_or r (q * 2 ^ k) ≡ r + q * 2 ^ k
bit_or-low zero zero q h = ground (arith, zero-bit_or q)
bit_or-low zero (suc r) q h = absurd (omega arith)
bit_or-low (suc k) r q h = ground (
  arith,
  bit_or_step r (q * 2 ^ suc k),
  double-pow q k,
  bit_or-low k (r / 2) q (omega (arith, pow-suc 2 k)),
)

pub bit_or-high : (k q r : ℕ) → r < 2 ^ k → bit_or (q * 2 ^ k) r ≡ q * 2 ^ k + r
bit_or-high zero q zero h = ground (arith, bit_or_zero q)
bit_or-high zero q (suc r) h = absurd (omega arith)
bit_or-high (suc k) q r h = ground (
  arith,
  bit_or_step (q * 2 ^ suc k) r,
  double-pow q k,
  bit_or-high k q (r / 2) (omega (arith, pow-suc 2 k)),
)

-- Three fields of a coordinate or of a set of frequencies.
pub join_fields :
    (k m lo mid hi : ℕ)
    → lo < 2 ^ k
    → mid * 2 ^ k + lo < 2 ^ m
    → bit_or (bit_or lo (mid * 2 ^ k)) (hi * 2 ^ m) ≡ lo + mid * 2 ^ k + hi * 2 ^ m
join_fields k m lo mid hi hlo hmid =
    ap (λ (t : ℕ). bit_or t (hi * 2 ^ m)) (bit_or-low k lo mid hlo)
    ∙ bit_or-low m (lo + mid * 2 ^ k) hi (omega arith)
