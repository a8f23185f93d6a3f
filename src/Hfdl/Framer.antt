-- ===== src/Hfdl/Framer.antt =====
-- src/hfdl.c: the framer and the sampler of a channel, one symbol at a time. `none` is a failed ASSERT
-- or an access out of bounds.
use dumphfdl.Common.{
  ℕ, ◌+◌, ◌-◌, ◌*◌, ◌/◌, ◌^◌, Bool, ◌==◌, ltb, leb, if◌then◌else◌, List, [], ◌∷◌, Option, none,
  some, ◌>>=◌, get_elem?, length, map,
}
use dumphfdl.Hfdl.{
  hfdl_frame_params, data_frame_len, t_len, a_len, m1_len, m2_len, m_bpsk, sampler_emit_bits,
  sampler_emit_symbols, sampler_skip, FramerState, framer_a1_search, framer_a2_search,
  framer_m1_search, framer_m2_skip, framer_eq_train, framer_data_1, framer_data_2,
}
use dumphfdl.Hfdl.Dsp.{Dsp}
use dumphfdl.Hfdl.Deinterleaver.{Deinterleaver, deinterleaver_create}
use dumphfdl.Hfdl.Descrambler.{hfdl_descrambler_create}
use dumphfdl.Hfdl.Decode.{Pdu, decode_user_data, ensure}
use dumphfdl.Hfdl.Channel.{
  max_search_retries, correlation, above, match_sequence, Channel, framer_reset,
  compute_train_bit_error_cnt, sample, train_equalizer, count_symbol, training_buffer, data_buffer,
}

abbrev pub collected : Option Pdu → List Pdu → List Pdu
collected none pdus = pdus
collected (some pdu) pdus = pdu ∷ pdus

module _ (dsp : Dsp) where
  abbrev pub a_found : ℕ → Channel dsp → Bool
  a_found hundredths c = above (correlation (dsp.correlate_a c.bits)) hundredths

  unfoldable pub a1_search : Channel dsp → Channel dsp
  a1_search c =
      if a_found 36 c
      then record c {
        bitmask = if ltb 127 (2 * dsp.correlate_a c.bits) then 0 else 2 ^ 32 - 1;
        symbols_wanted = a_len;
        search_retries = 0;
        fr_state = framer_a2_search;
      }
      else c

  unfoldable pub a2_search : Channel dsp → Channel dsp
  unfolding framer_reset
  a2_search c =
      if a_found 30 c
      then record c { symbols_wanted = m1_len; search_retries = 0; fr_state = framer_m1_search }
      else if leb max_search_retries (c.search_retries + 1)
      then framer_reset dsp (record c { search_retries = c.search_retries + 1 })
      else record c { search_retries = c.search_retries + 1 }

  abbrev pub m1_counts : Channel dsp → List ℕ
  m1_counts c =
      map (λ (shift : ℕ). dsp.correlate_m1 shift c.bits) (0 ∷ 1 ∷ 2 ∷ 3 ∷ 4 ∷ 5 ∷ 6 ∷ 7 ∷ [])

  unfoldable pub m1_search : Channel dsp → Option (Channel dsp)
  unfolding framer_reset match_sequence
  m1_search c =
      let (corr, found) = match_sequence (m1_counts c) in
      if above corr 30
      then (do
        m1_match ← found
        p ← get_elem? hfdl_frame_params m1_match
        some (record c {
          data_segment_cnt = p.data_segment_cnt;
          data_mod_arity = p.scheme;
          m1 = m1_match;
          symbols_wanted = m2_len;
          search_retries = 0;
          fr_state = framer_m2_skip;
          s_state = sampler_skip;
        }))
      else some (framer_reset dsp c)

  unfoldable pub m2_skip : Channel dsp → Channel dsp
  m2_skip c = record c {
    training_symbols = [];
    symbols_wanted = t_len;
    eq_train_seq_cnt = 9;
    fr_state = framer_eq_train;
    s_state = sampler_emit_symbols;
  }

  unfoldable pub end_of_frame : Channel dsp → Option (Channel dsp × Option Pdu)
  end_of_frame c = do
    (pdu, ds, ds') ←
        decode_user_data dsp c.m1 c.data_mod_arity c.bitmask c.data_symbols c.descrambler
          c.deinterleaver
    some (
      record (framer_reset dsp
          (record c { descrambler = ds; data_symbols = []; deinterleaver = ds' })) {
            symbol_cnt = 0;
          },
      some pdu,
    )

  -- What follows a training sequence.
  unfoldable pub after_training : Channel dsp → Option (Channel dsp × Option Pdu)
  after_training c =
      if ltb 1 c.eq_train_seq_cnt
      then some (
        record c { eq_train_seq_cnt = c.eq_train_seq_cnt - 1; symbols_wanted = t_len; t_idx = 0 },
        none,
      )
      else if ltb 0 c.data_segment_cnt
      then some (
        record c {
          symbols_wanted = data_frame_len / 2;
          fr_state = framer_data_1;
          current_mod_arity = c.data_mod_arity;
          current_buffer = data_buffer;
        },
        none,
      )
      else end_of_frame c

  unfoldable pub eq_train : Channel dsp → Option (Channel dsp × Option Pdu)
  unfolding compute_train_bit_error_cnt
  eq_train c = do
    _ ← ensure (length c.training_symbols == t_len)
    after_training (compute_train_bit_error_cnt dsp c)

  unfoldable pub data_1 : Channel dsp → Channel dsp
  data_1 c = record c { symbols_wanted = data_frame_len / 2; fr_state = framer_data_2 }

  unfoldable pub data_2 : Channel dsp → Channel dsp
  data_2 c = record c {
    data_segment_cnt = c.data_segment_cnt - 1;
    current_mod_arity = m_bpsk;
    current_buffer = training_buffer;
    fr_state = framer_eq_train;
    eq_train_seq_cnt = 1;
    symbols_wanted = t_len;
    t_idx = 0;
  }

  abbrev pub quiet : Option (Channel dsp) → Option (Channel dsp × Option Pdu)
  quiet result = result >>= λ (c : Channel dsp). some (c, none)

  unfoldable pub framer_step : FramerState → Channel dsp → Option (Channel dsp × Option Pdu)
  unfolding a1_search a2_search m1_search m2_skip eq_train data_1 data_2
  framer_step framer_a1_search c = some (a1_search c, none)
  framer_step framer_a2_search c = some (a2_search c, none)
  framer_step framer_m1_search c = quiet (m1_search c)
  framer_step framer_m2_skip c = some (m2_skip c, none)
  framer_step framer_eq_train c = eq_train c
  framer_step framer_data_1 c = some (data_1 c, none)
  framer_step framer_data_2 c = some (data_2 c, none)

  unfoldable pub await : Channel dsp → Option (Channel dsp × Option Pdu)
  unfolding framer_step
  await c =
      if ltb 1 c.symbols_wanted
      then some (record c { symbols_wanted = c.symbols_wanted - 1 }, none)
      else framer_step c.fr_state c

  -- The body of the loop of hfdl_decoder_thread over the symbols that are kept.
  unfoldable pub on_symbol : dsp.Symbol → Channel dsp → Option (Channel dsp × Option Pdu)
  unfolding train_equalizer count_symbol sample await
  on_symbol s c = do
    c1 ← train_equalizer dsp c.fr_state c
    c2 ← sample dsp c1.s_state s (count_symbol dsp c1)
    await c2

  -- Several symbols, and the PDUs that they complete.
  unfoldable pub on_symbols : List dsp.Symbol → Channel dsp → Option (Channel dsp × List Pdu)
  unfolding on_symbol
  on_symbols [] c = some (c, [])
  on_symbols (s ∷ symbols) c = do
    (c1, pdu) ← on_symbol s c
    (c2, pdus) ← on_symbols symbols c1
    some (c2, collected pdu pdus)

  unfoldable pub create_deinterleavers : List ℕ → Option (List Deinterleaver)
  create_deinterleavers [] = some []
  create_deinterleavers (i ∷ shifts) = do
    d ← deinterleaver_create i
    ds ← create_deinterleavers shifts
    some (d ∷ ds)

  -- What NEW and hfdl_channel_create leave in a channel before the first reset. The bit sequence is the
  -- one that bsequence_create gives.
  abbrev pub new_channel : dsp.Bsequence → List Deinterleaver → Channel dsp
  new_channel bits ds = record {
    bits = bits;
    training_symbols = [];
    data_symbols = [];
    current_buffer = training_buffer;
    descrambler = hfdl_descrambler_create dsp;
    deinterleaver = ds;
    symbol_cnt = 0;
    s_state = sampler_emit_bits;
    fr_state = framer_a1_search;
    data_mod_arity = 0;
    current_mod_arity = 0;
    symbols_wanted = 0;
    search_retries = 0;
    eq_train_seq_cnt = 0;
    data_segment_cnt = 0;
    train_bits_total = 0;
    train_bits_bad = 0;
    t_idx = 0;
    m1 = 0;
    bitmask = 0;
  }

  unfoldable pub hfdl_channel_create : dsp.Bsequence → Option (Channel dsp)
  hfdl_channel_create bits = do
    ds ← create_deinterleavers (0 ∷ 1 ∷ 2 ∷ 3 ∷ 4 ∷ 5 ∷ 6 ∷ 7 ∷ [])
    some (framer_reset dsp (new_channel bits ds))
