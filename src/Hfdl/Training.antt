-- ===== src/Hfdl/Training.antt =====
-- The training sequences of a frame in src/hfdl.c, and the end of the frame behind the last one.
use dumphfdl.Common.{
  set, ◌+◌, ◌-◌, ◌≡◌, inl, inr, refl, arith, some, none, [], ◌∷◌, ◌++◌, length, Bool-cases, true,
  ◌==◌, ==_iff, ltb, lt→ltb, length-append,
}
use dumphfdl.Hfdl.{t_len, framer_a1_search, framer_eq_train, framer_data_1}
use dumphfdl.Hfdl.Dsp.{Dsp, IsDsp}
use dumphfdl.Hfdl.Permutation.{frame}
use dumphfdl.Hfdl.Decode.{Pdu, viterbi_output}
use dumphfdl.Hfdl.Decoding.{frame_symbols, descrambler_after}
use dumphfdl.Hfdl.Bank.{set-IsBank}
use dumphfdl.Hfdl.Channel.{
  Channel, data_buffer, train_equalizer, count_symbol, sample, framer_reset,
  compute_train_bit_error_cnt, buffer_push,
}
use dumphfdl.Hfdl.Framer.{end_of_frame, after_training, eq_train, framer_step, await, on_symbol}
use dumphfdl.Hfdl.Invariant.{IsSearching, IsInFrame, IsTraining}
use dumphfdl.Hfdl.Progress.{in_state, Steps}
use dumphfdl.Hfdl.Searching.{reset-IsSearching}
use dumphfdl.Hfdl.Frames.{decode_user_data_lem, pdu_of, decoder_input}
use dumphfdl.Hfdl.Interleaving.{frame_bits}

module _ (dsp : Dsp) (documented : IsDsp dsp) where
  end_of_frame_result :
      (c : Channel dsp)
      → IsInFrame dsp c
      → length c.data_symbols ≡ frame_symbols c.m1
      → (c1 : Channel dsp) × (pdu : Pdu) × (end_of_frame dsp c
          ≡ some (in_state dsp framer_a1_search c1, some pdu))
        × IsSearching dsp c1
  unfolding end_of_frame framer_reset
  end_of_frame_result c h all =
      let (out, d, decoded, for, _, _) =
        decode_user_data_lem dsp documented c.m1 c.bitmask c.data_symbols c.descrambler
          c.deinterleaver h.shift all h.home in
      let c1 = record c {
        descrambler = descrambler_after dsp c.data_symbols c.descrambler;
        data_symbols = [];
        deinterleaver = set c.deinterleaver c.m1 d;
      } in
      let reset = reset-IsSearching dsp c1 (set-IsBank c.deinterleaver c.m1 d h.home for) in
      (
        record (framer_reset dsp c1) { symbol_cnt = 0 },
        pdu_of c.m1 (
            viterbi_output dsp (frame c.m1) (frame_bits c.m1)
              (decoder_input (frame c.m1).code_rate out)),
        rw (h.arity, decoded) refl,
        record {
          sampler = reset.sampler;
          buffer = reset.buffer;
          no_data = reset.no_data;
          index = reset.index;
          wanted = reset.wanted;
          home = reset.home;
        },
      )

  trained : dsp.Symbol → Channel dsp → Channel dsp
  trained s c = record (count_symbol dsp (in_state dsp framer_eq_train c)) {
    training_symbols = c.training_symbols ++ s ∷ [];
    t_idx = c.t_idx + 1;
  }

  pub step_eq_train :
      (s : dsp.Symbol) (c : Channel dsp)
      → IsTraining dsp c
      → Steps dsp s (in_state dsp framer_eq_train c)
  unfolding on_symbol sample train_equalizer count_symbol await framer_step eq_train buffer_push
      trained compute_train_bit_error_cnt after_training end_of_frame end_of_frame_result
  step_eq_train s c h =
      let grown : length (c.training_symbols ++ s ∷ []) ≡ length c.training_symbols + 1 =
        length-append c.training_symbols (s ∷ []) in
      let room : ltb (length c.training_symbols) t_len ≡ true =
        lt→ltb _ _ (omega (arith, h.symbols, h.in_frame.wanted)) in
      let index : ltb c.t_idx t_len ≡ true =
        lt→ltb _ _ (omega (arith, h.index, h.in_frame.wanted)) in
      elim (Bool-cases (ltb 1 c.symbols_wanted)) [
        | inl more ↦ (
          record (trained s c) { symbols_wanted = c.symbols_wanted - 1 },
          none,
          rw (index, h.sampler, h.buffer, room, more) refl,
          ground (arith, h, grown),
          ground (arith, h.in_frame.wanted, more),
        )
        | inr last ↦
            let full : (length (c.training_symbols ++ s ∷ []) == t_len) ≡ true =
              (==_iff _ _).1 (ground (arith, grown, h.symbols, last, h.in_frame.wanted)) in
            let c1 = compute_train_bit_error_cnt dsp (trained s c) in
            elim (Bool-cases (ltb 1 c.eq_train_seq_cnt)) [
              | inl again ↦ (
                record c1 {
                  eq_train_seq_cnt = c.eq_train_seq_cnt - 1;
                  symbols_wanted = t_len;
                  t_idx = 0;
                },
                none,
                rw (index, h.sampler, h.buffer, room, last, full, again) refl,
                ground (arith, h, again),
                ground (arith, last, again, h.in_frame.wanted),
              )
              | inr last_one ↦ elim (Bool-cases (ltb 0 c.data_segment_cnt)) [
                | inl segment ↦ (
                  record c1 {
                    symbols_wanted = 15;
                    fr_state = framer_data_1;
                    current_mod_arity = c.data_mod_arity;
                    current_buffer = data_buffer;
                  },
                  none,
                  rw (index, h.sampler, h.buffer, room, last, full, last_one, segment) refl,
                  ground (arith, h, segment),
                  ground (arith, last, segment, last_one, h.in_frame.wanted, h.sequences),
                )
                | inr over ↦
                    let none_left : c.data_segment_cnt ≡ 0 = ground (arith, over) in
                    let final : c.eq_train_seq_cnt ≡ 1 = ground (arith, last_one, h.sequences) in
                    let one : c.symbols_wanted ≡ 1 = ground (arith, last, h.in_frame.wanted) in
                    let (c2, pdu, ended, searching) =
                      end_of_frame_result c1
                        (record {
                          shift = h.in_frame.shift;
                          arity = h.in_frame.arity;
                          wanted = h.in_frame.wanted;
                          home = h.in_frame.home;
                        })
                        (omega (arith, h.segments, none_left)) in
                    (
                      in_state dsp framer_a1_search c2,
                      some pdu,
                      rw (index, h.sampler, h.buffer, room, last, full, last_one, over, ended) refl,
                      searching,
                      rw (none_left, final, one) (ground arith),
                    )
              ]
            ]
      ]
