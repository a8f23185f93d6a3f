-- ===== src/Hfdl/Decoding.antt =====
-- How src/hfdl.c decodes a frame: which soft bit reaches which place of the Viterbi decoder's input.
use dumphfdl.Common.{
  leb, leb→le, ◌≤◌, ℕ, zero, suc, ◌*◌, ◌/◌, ◌%◌, ◌≡◌, ◌<◌, inl, inr, refl, arith, some, ◌>>=◌, List,
  [], ◌∷◌, ◌++◌, length, length-append, Option-cases, true, ◌==◌, Bool, ◌&&◌,
}
use dumphfdl.Common.Range.{all_below, all_below_sound}
use dumphfdl.Hfdl.{data_frame_len, data_symbols_cnt_max}
use dumphfdl.Hfdl.Dsp.{Dsp, IsDsp}
use dumphfdl.Hfdl.Descrambler.{Descrambler, descrambler_advance}
use dumphfdl.Hfdl.Deinterleaver.{
  Deinterleaver, deinterleaver_push, deinterleaver_pop, push_bits, pop_bits,
}
use dumphfdl.Hfdl.Permutation.{frame}
use dumphfdl.Hfdl.Interleaving.{frame_bits}
use dumphfdl.Hfdl.Decode.{
  mean, pop_means, push_symbols, flipped, viterbi_input_len, user_data_bits_cnt,
}

push_bits-append :
    (xs ys : List ℕ) (d : Deinterleaver)
    → push_bits d (xs ++ ys) ≡ (push_bits d xs >>= λ (d1 : Deinterleaver). push_bits d1 ys)
unfolding push_bits
push_bits-append [] ys d = refl
push_bits-append (x ∷ xs) ys d = elim (Option-cases (deinterleaver_push d x)) [
  | inl e ↦ rw e refl
  | inr (d1, e) ↦ rw e (push_bits-append xs ys d1)
]

abbrev pub means : List ℕ → List ℕ
means [] = []
means (a ∷ []) = []
means (a ∷ b ∷ rest) = mean a b ∷ means rest

abbrev pub twice : ℕ → ℕ
twice zero = zero
twice (suc n) = suc (suc (twice n))

pub twice_lem : (n : ℕ) → twice n ≡ 2 * n
twice_lem zero = refl
twice_lem (suc n) = omega (arith, twice_lem n)

-- Pops in pairs give the means of the pairs that single pops give.
pub pop_means-pop_bits :
    (n : ℕ) (d : Deinterleaver)
    → pop_means n d ≡ (
        pop_bits (twice n) d >>= λ (popped : List ℕ × Deinterleaver).
        some (means popped.0, popped.1))
unfolding pop_means pop_bits
pop_means-pop_bits zero d = refl
pop_means-pop_bits (suc n) d = elim (Option-cases (deinterleaver_pop d)) [
  | inl e ↦ rw e refl
  | inr (first, e) ↦ rw e (elim (Option-cases (deinterleaver_pop first.1)) [
    | inl e2 ↦ rw e2 refl
    | inr (second, e2) ↦
        rw (e2, pop_means-pop_bits n second.1)
          (elim (Option-cases (pop_bits (twice n) second.1)) [
            | inl e3 ↦ rw e3 refl
            | inr (rest, e3) ↦ rw e3 refl
          ])
  ])
]

abbrev pub frame_symbols : ℕ → ℕ
frame_symbols m1 = (frame m1).data_segment_cnt * data_frame_len

fits : ℕ → Bool
fits m1 =
    frame_symbols m1 * (frame m1).scheme == frame_bits m1
    && (2 * (frame_bits m1 / 2) == frame_bits m1
        && viterbi_input_len (frame m1).code_rate (frame_bits m1) / 2
          == user_data_bits_cnt (frame m1))

fits_checked : all_below 8 fits ≡ true
unfolding all_below fits
fits_checked = refl

small : ℕ → Bool
small m1 = leb (frame_symbols m1) data_symbols_cnt_max

small_checked : all_below 8 small ≡ true
unfolding all_below small
small_checked = refl

-- The data symbols of a frame have room in their buffer.
pub frame_symbols_max : (m1 : ℕ) → m1 < 8 → frame_symbols m1 ≤ data_symbols_cnt_max
unfolding small
frame_symbols_max m1 h = leb→le _ _ (all_below_sound 8 small m1 small_checked h)

-- The bits of a frame fill its table, come in pairs, and give the bits that its decoder has room for.
pub frame_sizes :
    (m1 : ℕ)
    → m1 < 8
    → (frame_symbols m1 * (frame m1).scheme ≡ frame_bits m1)
      × (2 * (frame_bits m1 / 2) ≡ frame_bits m1)
      × (viterbi_input_len (frame m1).code_rate (frame_bits m1) / 2 ≡ user_data_bits_cnt (frame m1))
unfolding fits
frame_sizes m1 h =
    let all : fits m1 ≡ true = all_below_sound 8 fits m1 fits_checked h in ground (arith, all)

module _ (dsp : Dsp) where
  -- The soft bits of the symbols, each symbol with its bit of the descrambler, in their order.
  unfoldable pub soft_bits : ℕ → ℕ → List dsp.Symbol → Descrambler dsp → List ℕ
  soft_bits arity bitmask [] descrambler = []
  soft_bits arity bitmask (symbol ∷ symbols) descrambler =
      let (bit, next) = descrambler_advance dsp descrambler in
      dsp.modem_demodulate_soft arity (flipped dsp (bitmask % 2) (flipped dsp bit symbol))
      ++ soft_bits arity bitmask symbols next

  unfoldable pub descrambler_after : List dsp.Symbol → Descrambler dsp → Descrambler dsp
  descrambler_after [] descrambler = descrambler
  descrambler_after (symbol ∷ symbols) descrambler =
      descrambler_after symbols (descrambler_advance dsp descrambler).1

  pub push_symbols-push_bits :
      (arity bitmask : ℕ) (symbols : List dsp.Symbol) (descrambler : Descrambler dsp)
      (d : Deinterleaver)
      → push_symbols dsp arity bitmask symbols descrambler d ≡ (
          push_bits d (soft_bits arity bitmask symbols descrambler) >>= λ (d1 : Deinterleaver).
          some (descrambler_after symbols descrambler, d1))
  unfolding push_symbols soft_bits descrambler_after push_bits
  push_symbols-push_bits arity bitmask [] descrambler d = refl
  push_symbols-push_bits arity bitmask (symbol ∷ symbols) descrambler d =
      let (bit, next) = descrambler_advance dsp descrambler in
      let soft =
        dsp.modem_demodulate_soft arity (flipped dsp (bitmask % 2) (flipped dsp bit symbol)) in
      rw (push_bits-append soft (soft_bits arity bitmask symbols next) d)
        (elim (Option-cases (push_bits d soft)) [
          | inl e ↦ rw e refl
          | inr (d1, e) ↦ rw e (push_symbols-push_bits arity bitmask symbols next d1)
        ])

  pub length-soft_bits :
      (documented : IsDsp dsp) (arity bitmask : ℕ) (symbols : List dsp.Symbol)
      (descrambler : Descrambler dsp)
      → length (soft_bits arity bitmask symbols descrambler) ≡ length symbols * arity
  unfolding soft_bits
  length-soft_bits documented arity bitmask [] descrambler = omega arith
  length-soft_bits documented arity bitmask (symbol ∷ symbols) descrambler =
      let (bit, next) = descrambler_advance dsp descrambler in
      let symbol' = flipped dsp (bitmask % 2) (flipped dsp bit symbol) in
      rw
        (
          length-append (dsp.modem_demodulate_soft arity symbol')
              (soft_bits arity bitmask symbols next),
          documented.soft_length arity symbol',
          length-soft_bits documented arity bitmask symbols next,
        )
        (ground arith)
