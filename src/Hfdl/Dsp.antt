-- ===== src/Hfdl/Dsp.antt =====
-- What src/hfdl.c calls of liquid-dsp and of the Viterbi decoder in libfec, as one parameter. The
-- filters, the gain control and the symbol synchronizer before the demodulator are left out: a
-- symbol is what the equalizer gives.
use dumphfdl.Common.{ℕ, ◌+◌, ◌/◌, ◌%◌, ◌≡◌, if◌then◌else◌, ◌==◌, List, length}

pub record Dsp : Type 1 where
  pub Symbol : Type 0
  -- The symbol times -1.
  pub negated : Symbol → Symbol
  -- By the arity of the modem; the soft one gives a value for each bit.
  pub modem_demodulate : ℕ → Symbol → ℕ
  pub modem_demodulate_soft : ℕ → Symbol → List ℕ
  pub Msequence : Type 0
  pub msequence_create : Msequence
  pub msequence_reset : Msequence → Msequence
  pub msequence_advance : Msequence → ℕ × Msequence
  pub Bsequence : Type 0
  pub bsequence_push : Bsequence → ℕ → Bsequence
  -- The number of equal bits in the last 127: with the A sequence, and with a shift of M1.
  pub correlate_a : Bsequence → ℕ
  pub correlate_m1 : ℕ → Bsequence → ℕ
  pub count_bit_errors : ℕ → ℕ → ℕ
  -- init_viterbi27, update_viterbi27_blk and chainback_viterbi27: the bits a decoder has room for,
  -- the input, and the number of output bits.
  pub viterbi27 : ℕ → List ℕ → ℕ → List ℕ

abbrev pub octets_for : ℕ → ℕ
octets_for bits = bits / 8 + (if bits % 8 == 0 then 0 else 1)

-- The documented behaviour that the theorems rely on: a soft demodulator gives one value for each
-- bit of a symbol, a reset brings a sequence generator back to its start, and the chainback fills
-- the octets of the bits that it is asked for.
pub record IsDsp (dsp : Dsp) : Type 0 where
  pub soft_length :
      (arity : ℕ) (s : dsp.Symbol) → length (dsp.modem_demodulate_soft arity s) ≡ arity
  pub reset_start : (ms : dsp.Msequence) → dsp.msequence_reset ms ≡ dsp.msequence_create
  pub viterbi27_length :
      (room : ℕ) (input : List ℕ) (bits : ℕ)
      → length (dsp.viterbi27 room input bits) ≡ octets_for bits
