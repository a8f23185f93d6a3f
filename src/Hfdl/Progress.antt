-- ===== src/Hfdl/Progress.antt =====
-- The channel of src/hfdl.c from one symbol to the next.
use dumphfdl.Common.{
  ℕ, ◌+◌, ◌-◌, ◌≡◌, inl, inr, refl, arith, Option, some, none, [], ◌∷◌, ◌++◌, length, Bool-cases,
  true, ltb, lt→ltb, length-append,
}
use dumphfdl.Hfdl.{data_symbols_cnt_max, FramerState, framer_m2_skip, framer_data_1, framer_data_2}
use dumphfdl.Hfdl.Dsp.{Dsp}
use dumphfdl.Hfdl.Decode.{Pdu}
use dumphfdl.Hfdl.Decoding.{frame_symbols_max}
use dumphfdl.Hfdl.Channel.{Channel, train_equalizer, count_symbol, sample, buffer_push}
use dumphfdl.Hfdl.Framer.{m2_skip, data_1, data_2, framer_step, await, on_symbol}
use dumphfdl.Hfdl.Invariant.{IsSkipping, IsInData, IsGood, remaining, Advances}

module _ (dsp : Dsp) where
  -- The channel with its framer in a state.
  abbrev pub in_state : FramerState → Channel dsp → Channel dsp
  in_state state c = record c { fr_state = state }

  abbrev pub Result : Option (Channel dsp × Option Pdu) → ℕ → Type 0
  Result result before =
      (c : Channel dsp) × (pdu : Option Pdu) × (result ≡ some (c, pdu))
      × IsGood dsp c
      × Advances dsp before (remaining dsp c) pdu

  abbrev pub Steps : dsp.Symbol → Channel dsp → Type 0
  Steps s c = Result (on_symbol dsp s c) (remaining dsp c)

  with_data : FramerState → dsp.Symbol → Channel dsp → Channel dsp
  with_data state s c = record (count_symbol dsp (in_state state c)) {
    data_symbols = c.data_symbols ++ s ∷ [];
  }

  pub step_data_2 :
      (s : dsp.Symbol) (c : Channel dsp) → IsInData dsp 0 c → Steps s (in_state framer_data_2 c)
  unfolding on_symbol sample buffer_push train_equalizer count_symbol await framer_step data_2
      with_data
  step_data_2 s c h =
      let grown : length (c.data_symbols ++ s ∷ []) ≡ length c.data_symbols + 1 =
        length-append c.data_symbols (s ∷ []) in
      let room : ltb (length c.data_symbols) data_symbols_cnt_max ≡ true =
        lt→ltb _ _
          (omega (arith, h.segments, h.in_frame.wanted, frame_symbols_max c.m1 h.in_frame.shift)) in
      elim (Bool-cases (ltb 1 c.symbols_wanted)) [
        | inl more ↦ (
          record (with_data framer_data_2 s c) { symbols_wanted = c.symbols_wanted - 1 },
          none,
          rw (h.sampler, h.buffer, room, more) refl,
          ground (arith, h, grown),
          ground (arith, h.in_frame.wanted, more),
        )
        | inr last ↦ (
          data_2 dsp (with_data framer_data_2 s c),
          none,
          rw (h.sampler, h.buffer, room, last) refl,
          ground (arith, h, grown),
          ground (arith, h.in_frame.wanted, h.segment, last),
        )
      ]

  pub step_data_1 :
      (s : dsp.Symbol) (c : Channel dsp) → IsInData dsp 15 c → Steps s (in_state framer_data_1 c)
  unfolding on_symbol sample buffer_push train_equalizer count_symbol await framer_step data_1
      with_data
  step_data_1 s c h =
      let grown : length (c.data_symbols ++ s ∷ []) ≡ length c.data_symbols + 1 =
        length-append c.data_symbols (s ∷ []) in
      let room : ltb (length c.data_symbols) data_symbols_cnt_max ≡ true =
        lt→ltb _ _
          (omega (arith, h.segments, h.in_frame.wanted, frame_symbols_max c.m1 h.in_frame.shift)) in
      elim (Bool-cases (ltb 1 c.symbols_wanted)) [
        | inl more ↦ (
          record (with_data framer_data_1 s c) { symbols_wanted = c.symbols_wanted - 1 },
          none,
          rw (h.sampler, h.buffer, room, more) refl,
          ground (arith, h, grown),
          ground (arith, h.in_frame.wanted, more),
        )
        | inr last ↦ (
          data_1 dsp (with_data framer_data_1 s c),
          none,
          rw (h.sampler, h.buffer, room, last) refl,
          ground (arith, h, grown),
          ground (arith, h.in_frame.wanted, h.segment, last),
        )
      ]

  skipped : Channel dsp → Channel dsp
  skipped c = count_symbol dsp (in_state framer_m2_skip c)

  pub step_m2_skip :
      (s : dsp.Symbol) (c : Channel dsp) → IsSkipping dsp c → Steps s (in_state framer_m2_skip c)
  unfolding on_symbol sample train_equalizer count_symbol await framer_step m2_skip skipped
  step_m2_skip s c h = elim (Bool-cases (ltb 1 c.symbols_wanted)) [
    | inl more ↦ (
      record (skipped c) { symbols_wanted = c.symbols_wanted - 1 },
      none,
      rw (h.sampler, more) refl,
      ground (arith, h),
      ground (arith, h.in_frame.wanted, more),
    )
    | inr last ↦ (
      m2_skip dsp (skipped c),
      none,
      rw (h.sampler, last) refl,
      ground (arith, h),
      ground (arith, h.in_frame.wanted, last),
    )
  ]
