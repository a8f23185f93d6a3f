-- ===== src/Hfdl/Invariant.antt =====
-- What holds of a channel of src/hfdl.c between two symbols, by the state of its framer.
use dumphfdl.Common.{◌⊎◌, ℕ, suc, ◌+◌, ◌-◌, ◌*◌, ◌≡◌, ◌<◌, Option, length, is_some, ◌==◌}
use dumphfdl.Hfdl.{
  t_len, FramerState, framer_a1_search, framer_a2_search, framer_m1_search, framer_m2_skip,
  framer_eq_train, framer_data_1, framer_data_2, sampler_emit_bits, sampler_emit_symbols,
  sampler_skip,
}
use dumphfdl.Hfdl.Dsp.{Dsp}
use dumphfdl.Hfdl.Permutation.{frame}
use dumphfdl.Hfdl.Decode.{Pdu}
use dumphfdl.Hfdl.Decoding.{frame_symbols}
use dumphfdl.Hfdl.Bank.{IsHome}
use dumphfdl.Hfdl.Channel.{Channel, training_buffer, data_buffer}

module _ (dsp : Dsp) where
  pub record IsSearching (c : Channel dsp) : Type 0 where
    pub sampler : c.s_state ≡ sampler_emit_bits
    pub buffer : c.current_buffer ≡ training_buffer
    pub no_data : length c.data_symbols ≡ 0
    pub index : c.t_idx ≡ 0
    pub wanted : 0 < c.symbols_wanted
    pub home : IsHome c.deinterleaver

  -- A shift of M1 has been found, and its parameters are those of the channel.
  pub record IsInFrame (c : Channel dsp) : Type 0 where
    pub shift : c.m1 < 8
    pub arity : c.data_mod_arity ≡ (frame c.m1).scheme
    pub wanted : 0 < c.symbols_wanted
    pub home : IsHome c.deinterleaver

  pub record IsSkipping (c : Channel dsp) : Type 0 where
    pub in_frame : IsInFrame c
    pub sampler : c.s_state ≡ sampler_skip
    pub buffer : c.current_buffer ≡ training_buffer
    pub no_data : length c.data_symbols ≡ 0
    pub index : c.t_idx ≡ 0
    pub segments : c.data_segment_cnt ≡ (frame c.m1).data_segment_cnt

  pub record IsTraining (c : Channel dsp) : Type 0 where
    pub in_frame : IsInFrame c
    pub sampler : c.s_state ≡ sampler_emit_symbols
    pub buffer : c.current_buffer ≡ training_buffer
    pub symbols : length c.training_symbols + c.symbols_wanted ≡ t_len
    pub index : c.t_idx + c.symbols_wanted ≡ t_len
    pub sequences : 0 < c.eq_train_seq_cnt
    pub segments : length c.data_symbols + 30 * c.data_segment_cnt ≡ frame_symbols c.m1

  -- In a data segment with so many symbols to come after those that are wanted.
  pub record IsInData (later : ℕ) (c : Channel dsp) : Type 0 where
    pub in_frame : IsInFrame c
    pub sampler : c.s_state ≡ sampler_emit_symbols
    pub buffer : c.current_buffer ≡ data_buffer
    pub no_training : length c.training_symbols ≡ 0
    pub segment : 0 < c.data_segment_cnt
    pub segments :
        length c.data_symbols + c.symbols_wanted + later + 30 * (c.data_segment_cnt - 1)
        ≡ frame_symbols c.m1

  abbrev pub GoodIn : FramerState → Channel dsp → Type 0
  GoodIn framer_a1_search c = IsSearching c
  GoodIn framer_a2_search c = IsSearching c
  GoodIn framer_m1_search c = IsSearching c
  GoodIn framer_m2_skip c = IsSkipping c
  GoodIn framer_eq_train c = IsTraining c
  GoodIn framer_data_1 c = IsInData 15 c
  GoodIn framer_data_2 c = IsInData 0 c

  abbrev pub IsGood : Channel dsp → Type 0
  IsGood c = GoodIn c.fr_state c

  -- The symbols up to the end of the frame, from the skipped sequence on; none outside a frame.
  abbrev pub remaining_in : FramerState → Channel dsp → ℕ
  remaining_in framer_m2_skip c = c.symbols_wanted + 9 * 15 + 45 * c.data_segment_cnt
  remaining_in framer_eq_train c =
      c.symbols_wanted + 15 * (c.eq_train_seq_cnt - 1) + 45 * c.data_segment_cnt
  remaining_in framer_data_1 c = c.symbols_wanted + 30 + 45 * (c.data_segment_cnt - 1)
  remaining_in framer_data_2 c = c.symbols_wanted + 15 + 45 * (c.data_segment_cnt - 1)
  remaining_in state c = 0

  abbrev pub remaining : Channel dsp → ℕ
  remaining c = remaining_in c.fr_state c

  -- In a frame one symbol less remains, and the last one alone gives a PDU.
  abbrev pub Advances : ℕ → ℕ → Option Pdu → Type 0
  Advances before after pdu = (is_some pdu ≡ (before == 1)) × ((before ≡ 0) ⊎ (suc after ≡ before))
