-- ===== src/Hfdl/Channel.antt =====
-- src/hfdl.c: the state of a channel, its resets, the matching of sequences, and the sampler. `none`
-- is a failed ASSERT or an access out of bounds.
use dumphfdl.Common.{
  ℕ, zero, suc, ◌+◌, ◌-◌, ◌*◌, ◌/◌, ◌%◌, ◌^◌, Bool, true, false, ltb, leb, ◌&&◌, if◌then◌else◌,
  List, [], ◌∷◌, ◌++◌, Option, none, some, ◌>>=◌, length, map, bit_xor, bit_or,
}
use dumphfdl.Hfdl.{
  t_len, m_bpsk, data_symbols_cnt_max, single_slot_frame_len, SamplerState, sampler_emit_bits,
  sampler_emit_symbols, sampler_skip, FramerState, framer_a1_search, framer_eq_train,
}
use dumphfdl.Hfdl.Dsp.{Dsp}
use dumphfdl.Hfdl.Deinterleaver.{Deinterleaver, deinterleaver_reset}
use dumphfdl.Hfdl.Descrambler.{Descrambler}
use dumphfdl.Hfdl.Decode.{ensure}

abbrev pub max_search_retries : ℕ
max_search_retries = 3

abbrev pub max_symbols_without_frame : ℕ
max_symbols_without_frame = 13 * single_slot_frame_len

-- The correlation of two sequences of 127 bits, by the number of equal bits, as a multiple of
-- 1 / 127. The thresholds 0.36 and 0.3 lie strictly between two of its values.
abbrev pub correlation : ℕ → ℕ
correlation equal = if ltb (2 * equal) 127 then 127 - 2 * equal else 2 * equal - 127

abbrev pub above : ℕ → ℕ → Bool
above corr hundredths = ltb (hundredths * 127) (100 * corr)

-- match_sequence: the greatest correlation, and the first index that has it; `none` is -1.
unfoldable pub match_loop : ℕ → List ℕ → ℕ × Option ℕ → ℕ × Option ℕ
match_loop idx [] best = best
match_loop idx (equal ∷ templates) best =
    match_loop (suc idx) templates
      (if ltb best.0 (correlation equal) then (correlation equal, some idx) else best)

unfoldable pub match_sequence : List ℕ → ℕ × Option ℕ
unfolding match_loop
match_sequence templates = match_loop 0 templates (0, none)

pub data Buffer : Type 0 where
  training_buffer data_buffer : Buffer

module _ (dsp : Dsp) where
  pub record Channel : Type 0 where
    pub bits : dsp.Bsequence
    pub training_symbols : List dsp.Symbol
    pub data_symbols : List dsp.Symbol
    pub current_buffer : Buffer
    pub descrambler : Descrambler dsp
    pub deinterleaver : List Deinterleaver
    pub symbol_cnt : ℕ
    pub s_state : SamplerState
    pub fr_state : FramerState
    pub data_mod_arity : ℕ
    pub current_mod_arity : ℕ
    pub symbols_wanted : ℕ
    pub search_retries : ℕ
    pub eq_train_seq_cnt : ℕ
    pub data_segment_cnt : ℕ
    pub train_bits_total : ℕ
    pub train_bits_bad : ℕ
    pub t_idx : ℕ
    pub m1 : ℕ
    pub bitmask : ℕ

  unfoldable pub sampler_reset : Channel → Channel
  sampler_reset c = record c { s_state = sampler_emit_bits; bitmask = 0 }

  unfoldable pub framer_reset : Channel → Channel
  unfolding sampler_reset
  framer_reset c = sampler_reset (record c {
    fr_state = framer_a1_search;
    symbols_wanted = 1;
    search_retries = 0;
    current_mod_arity = m_bpsk;
    train_bits_total = 0;
    train_bits_bad = 0;
    t_idx = 0;
    current_buffer = training_buffer;
    data_symbols = [];
    training_symbols = [];
    deinterleaver = map deinterleaver_reset c.deinterleaver;
  })

  -- T is 0x9AF; the bits are shifted into a uint32_t.
  unfoldable pub training_bits : ℕ → List dsp.Symbol → ℕ → ℕ
  training_bits bitmask [] t_seq = t_seq
  training_bits bitmask (s ∷ symbols) t_seq =
      training_bits bitmask symbols
        (bit_or (t_seq * 2 % 2 ^ 32) (bit_xor (dsp.modem_demodulate m_bpsk s) (bitmask % 2)))

  unfoldable pub compute_train_bit_error_cnt : Channel → Channel
  unfolding training_bits
  compute_train_bit_error_cnt c = record c {
    training_symbols = [];
    train_bits_total = c.train_bits_total + t_len;
    train_bits_bad =
        c.train_bits_bad
        + dsp.count_bit_errors 0x9af (training_bits c.bitmask c.training_symbols 0);
  }

  unfoldable pub push_hard_bits : ℕ → ℕ → dsp.Bsequence → dsp.Bsequence
  push_hard_bits zero bits sequence = sequence
  push_hard_bits (suc arity) bits sequence =
      push_hard_bits arity (bits / 2) (dsp.bsequence_push sequence bits)

  -- cbuffercf_push of the current buffer, behind the test of its space.
  unfoldable pub buffer_push : Buffer → dsp.Symbol → Channel → Option Channel
  buffer_push training_buffer s c = do
    _ ← ensure (ltb (length c.training_symbols) t_len)
    some (record c { training_symbols = c.training_symbols ++ s ∷ [] })
  buffer_push data_buffer s c = do
    _ ← ensure (ltb (length c.data_symbols) data_symbols_cnt_max)
    some (record c { data_symbols = c.data_symbols ++ s ∷ [] })

  unfoldable pub sample : SamplerState → dsp.Symbol → Channel → Option Channel
  unfolding buffer_push
  sample sampler_emit_bits s c =
      let bits = bit_xor (dsp.modem_demodulate c.current_mod_arity s) c.bitmask in
      some (record c { bits = push_hard_bits c.current_mod_arity bits c.bits })
  sample sampler_emit_symbols s c = buffer_push c.current_buffer s c
  sample sampler_skip s c = some c

  -- The index into T_seq, which the equalizer is trained with.
  unfoldable pub train_equalizer : FramerState → Channel → Option Channel
  train_equalizer framer_eq_train c = do
    _ ← ensure (ltb c.t_idx t_len)
    some (record c { t_idx = c.t_idx + 1 })
  train_equalizer state c = some c

  abbrev pub is_searching : FramerState → Bool
  is_searching framer_a1_search = true
  is_searching state = false

  unfoldable pub count_symbol : Channel → Channel
  count_symbol c = record c {
    symbol_cnt =
        let symbol_cnt = (c.symbol_cnt + 1) % 2 ^ 64 in
        if leb max_symbols_without_frame symbol_cnt && is_searching c.fr_state
        then 0
        else symbol_cnt;
  }
