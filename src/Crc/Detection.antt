-- ===== src/Crc/Detection.antt =====
-- What src/crc.c detects: no change of one octet leaves the remainder as it was.
use dumphfdl.Common.{
  ℕ, suc, ◌/◌, ◌%◌, ◌<◌, ◌≡◌, ◌≢◌, refl, sym, ap, ◌∙◌, bit_xor, true, Option, List, [], ◌∷◌, ◌++◌,
  ◌==◌, ==_iff, length, arith, IsOctets,
}
use dumphfdl.Common.Range.{all_below, all_below_sound}
use dumphfdl.Common.Xor.{
  bit_xor-zero, bit_xor_comm, bit_xor_parts_256, bit_xor-injective, bit_xor-lt,
}
use dumphfdl.Crc.{crctable, table_at, crc_step, crc16_ccitt}

-- The index of the entry with this high octet.
index_of : List ℕ → ℕ → ℕ
index_of [] h = 0
index_of (x ∷ xs) h = elim (x / 256 == h) [ true ↦ 0 | _ ↦ suc (index_of xs h) ]

index_checked : all_below 256 (λ x. index_of crctable (table_at x / 256) == x) ≡ true
unfolding all_below index_of table_at
index_checked = refl

index_of_high : (x : ℕ) → x < 256 → index_of crctable (table_at x / 256) ≡ x
index_of_high x h =
    (==_iff _ _).0
      (all_below_sound 256 (λ x. index_of crctable (table_at x / 256) == x) x index_checked h)

bounded_checked : all_below 256 (λ x. table_at x / 65536 == 0) ≡ true
unfolding all_below table_at
bounded_checked = refl

table_at-lt : (x : ℕ) → x < 256 → table_at x < 65536
table_at-lt x h =
    let e : table_at x / 65536 ≡ 0 =
      (==_iff _ _).0 (all_below_sound 256 (λ x. table_at x / 65536 == 0) x bounded_checked h) in
    omega arith

pub crc_step-lt : (crc b : ℕ) → crc < 65536 → b < 256 → crc_step crc b < 65536
unfolding crc_step
crc_step-lt crc b hc hb =
    bit_xor-lt 16 (crc / 256) (table_at (bit_xor crc b % 256)) (omega arith)
      (table_at-lt (bit_xor crc b % 256) (omega arith))

-- The high octet of a step gives the table index away.
crc_step-high :
    (crc b : ℕ) → crc < 65536 → crc_step crc b / 256 ≡ table_at (bit_xor crc b % 256) / 256
unfolding crc_step
crc_step-high crc b hc =
    let t = table_at (bit_xor crc b % 256) in
    let no_high : crc / 256 / 256 ≡ 0 = omega arith in
    (bit_xor_parts_256 (crc / 256) t).0
    ∙ ap (λ (x : ℕ). bit_xor x (t / 256)) no_high
    ∙ bit_xor_comm 0 (t / 256)
    ∙ bit_xor-zero (t / 256)

same_index :
    (crc crc' b b' : ℕ)
    → crc < 65536
    → crc' < 65536
    → crc_step crc b ≡ crc_step crc' b'
    → bit_xor crc b % 256 ≡ bit_xor crc' b' % 256
same_index crc crc' b b' hc hc' e =
    let x = bit_xor crc b % 256 in
    let x' = bit_xor crc' b' % 256 in
    let high : table_at x / 256 ≡ table_at x' / 256 =
      sym (crc_step-high crc b hc) ∙ ap (λ (t : ℕ). t / 256) e ∙ crc_step-high crc' b' hc' in
    sym (index_of_high x (omega arith))
    ∙ ap (index_of crctable) high
    ∙ index_of_high x' (omega arith)

-- From one octet, different registers stay different.
pub crc_step-injective :
    (crc crc' b : ℕ) → crc < 65536 → crc' < 65536 → crc_step crc b ≡ crc_step crc' b → crc ≡ crc'
unfolding crc_step
crc_step-injective crc crc' b hc hc' e =
    let x = bit_xor crc b % 256 in
    let x' = bit_xor crc' b % 256 in
    let same : x ≡ x' = same_index crc crc' b b hc hc' e in
    let high : crc / 256 ≡ crc' / 256 =
      bit_xor-injective (crc / 256) (crc' / 256) (table_at x)
        (e ∙ ap (λ (t : ℕ). bit_xor (crc' / 256) (table_at t)) (sym same)) in
    let low : crc % 256 ≡ crc' % 256 =
      bit_xor-injective (crc % 256) (crc' % 256) (b % 256)
        (sym (bit_xor_parts_256 crc b).1 ∙ same ∙ (bit_xor_parts_256 crc' b).1) in
    omega (arith, high, low)

-- From one register, different octets lead to different registers.
pub crc_step-octet :
    (crc b b' : ℕ) → crc < 65536 → b < 256 → b' < 256 → crc_step crc b ≡ crc_step crc b' → b ≡ b'
crc_step-octet crc b b' hc hb hb' e =
    let same = same_index crc crc b b' hc hc e in
    let low : b % 256 ≡ b' % 256 = bit_xor-injective (b % 256) (b' % 256) (crc % 256) (
      bit_xor_comm (b % 256) (crc % 256)
      ∙ sym (bit_xor_parts_256 crc b).1
      ∙ same
      ∙ (bit_xor_parts_256 crc b').1
      ∙ bit_xor_comm (crc % 256) (b' % 256)) in
    omega (arith, low)

-- The register after a message of octets, as the routine computes it.
abbrev pub crc_from : List ℕ → ℕ → Option ℕ
crc_from bytes crc = crc16_ccitt bytes (length bytes) crc

tail_injective :
    (bytes : List ℕ) (crc crc' : ℕ)
    → IsOctets bytes
    → crc < 65536
    → crc' < 65536
    → crc_from bytes crc ≡ crc_from bytes crc'
    → crc ≡ crc'
unfolding crc16_ccitt
tail_injective [] crc crc' h hc hc' e = cc
tail_injective (b ∷ bytes) crc crc' h hc hc' e = crc_step-injective crc crc' b hc hc' (
    tail_injective bytes (crc_step crc b) (crc_step crc' b) h.1 (crc_step-lt crc b hc h.0)
      (crc_step-lt crc' b hc' h.0) e)

-- Two messages of octets that differ in exactly one octet have different checksums from the same
-- 16-bit start, wherever the octet stands and whatever its two values are.
pub crc16_ccitt_one_octet :
    (before after : List ℕ) (b b' crc : ℕ)
    → IsOctets before
    → IsOctets after
    → b < 256
    → b' < 256
    → crc < 65536
    → b ≢ b'
    → crc_from (before ++ b ∷ after) crc ≢ crc_from (before ++ b' ∷ after) crc
unfolding crc16_ccitt
crc16_ccitt_one_octet [] after b b' crc h ha hb hb' hc ne = λ e. ne (
    crc_step-octet crc b b' hc hb hb' (
      tail_injective after (crc_step crc b) (crc_step crc b') ha (crc_step-lt crc b hc hb)
        (crc_step-lt crc b' hc hb') e))
crc16_ccitt_one_octet (x ∷ before) after b b' crc h ha hb hb' hc ne =
    crc16_ccitt_one_octet before after b b' (crc_step crc x) h.1 ha hb hb'
      (crc_step-lt crc x hc h.0) ne
