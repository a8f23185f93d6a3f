-- ===== src/Hfdl/Searching.antt =====
-- The search of the framer of src/hfdl.c for the start of a frame.
use dumphfdl.Common.{
  ◌⊎◌, get_elem?-lt, ℕ, ◌+◌, ◌-◌, ◌≡◌, ◌<◌, inl, inr, refl, arith, some, none, List, Bool-cases,
  ltb→lt, ltb, leb, bit_xor,
}
use dumphfdl.Hfdl.{
  m2_len, hfdl_frame_params, FramerState, framer_a1_search, framer_a2_search, framer_m1_search,
  framer_m2_skip, sampler_skip,
}
use dumphfdl.Hfdl.Dsp.{Dsp}
use dumphfdl.Hfdl.Permutation.{frame, no_params}
use dumphfdl.Hfdl.Deinterleaver.{Deinterleaver}
use dumphfdl.Hfdl.Matching.{match_sequence_lem}
use dumphfdl.Hfdl.Bank.{IsHome, IsBank, reset-IsHome}
use dumphfdl.Hfdl.Channel.{
  Channel, train_equalizer, count_symbol, sample, push_hard_bits, framer_reset, match_sequence,
  above, max_search_retries,
}
use dumphfdl.Hfdl.Framer.{
  a_found, m1_counts, a1_search, a2_search, m1_search, framer_step, await, on_symbol,
}
use dumphfdl.Hfdl.Invariant.{IsSearching}
use dumphfdl.Hfdl.Progress.{in_state, Steps}

module _ (dsp : Dsp) where
  heard : FramerState → dsp.Symbol → Channel dsp → Channel dsp
  heard state s c = record (count_symbol dsp (in_state dsp state c)) {
    bits =
        push_hard_bits dsp c.current_mod_arity
          (bit_xor (dsp.modem_demodulate c.current_mod_arity s) c.bitmask) c.bits;
  }

  pub step_a1_search :
      (s : dsp.Symbol) (c : Channel dsp)
      → IsSearching dsp c
      → Steps dsp s (in_state dsp framer_a1_search c)
  unfolding on_symbol sample train_equalizer count_symbol await framer_step a1_search heard
  step_a1_search s c h = elim (Bool-cases (ltb 1 c.symbols_wanted)) [
    | inl more ↦ (
      record (heard framer_a1_search s c) { symbols_wanted = c.symbols_wanted - 1 },
      none,
      rw (h.sampler, more) refl,
      ground (arith, h),
      ground arith,
    )
    | inr last ↦ elim (Bool-cases (a_found dsp 36 (heard framer_a1_search s c))) [
      | inl found ↦ (
        a1_search dsp (heard framer_a1_search s c),
        none,
        rw (h.sampler, last) refl,
        ground (arith, h, found),
        ground (arith, found),
      )
      | inr not_found ↦ (
        heard framer_a1_search s c,
        none,
        rw (h.sampler, last, not_found) refl,
        ground (arith, h),
        ground arith,
      )
    ]
  ]

  pub reset-IsSearching :
      (c : Channel dsp) → IsBank c.deinterleaver → IsSearching dsp (framer_reset dsp c)
  unfolding framer_reset
  reset-IsSearching c bank = record {
    sampler = refl;
    buffer = refl;
    no_data = refl;
    index = refl;
    wanted = omega arith;
    home = reset-IsHome c.deinterleaver bank;
  }

  home-IsBank : (ds : List Deinterleaver) → IsHome ds → IsBank ds
  home-IsBank ds home m1 h = let (d, e, for, _, _) = home m1 h in (d, e, for)

  retried : Channel dsp → Channel dsp
  retried c = record c { search_retries = c.search_retries + 1 }

  pub step_a2_search :
      (s : dsp.Symbol) (c : Channel dsp)
      → IsSearching dsp c
      → Steps dsp s (in_state dsp framer_a2_search c)
  unfolding on_symbol sample train_equalizer count_symbol await framer_step a2_search heard retried
  step_a2_search s c h = elim (Bool-cases (ltb 1 c.symbols_wanted)) [
    | inl more ↦ (
      record (heard framer_a2_search s c) { symbols_wanted = c.symbols_wanted - 1 },
      none,
      rw (h.sampler, more) refl,
      ground (arith, h),
      ground arith,
    )
    | inr last ↦ elim (Bool-cases (a_found dsp 30 (heard framer_a2_search s c))) [
      | inl found ↦ (
        a2_search dsp (heard framer_a2_search s c),
        none,
        rw (h.sampler, last) refl,
        ground (arith, h, found),
        ground (arith, found),
      )
      | inr not_found ↦ elim (Bool-cases (leb max_search_retries (c.search_retries + 1))) [
        | inl enough ↦ (
          framer_reset dsp (retried (heard framer_a2_search s c)),
          none,
          rw (h.sampler, last, not_found, enough) refl,
          reset-IsSearching (retried (heard framer_a2_search s c))
              (home-IsBank c.deinterleaver h.home),
          ground arith,
        )
        | inr again ↦ (
          retried (heard framer_a2_search s c),
          none,
          rw (h.sampler, last, not_found, again) refl,
          ground (arith, h),
          ground arith,
        )
      ]
    ]
  ]

  m1_found : ℕ → Channel dsp → Channel dsp
  m1_found m1_match c = record c {
    data_segment_cnt = (frame m1_match).data_segment_cnt;
    data_mod_arity = (frame m1_match).scheme;
    m1 = m1_match;
    symbols_wanted = m2_len;
    search_retries = 0;
    fr_state = framer_m2_skip;
    s_state = sampler_skip;
  }

  -- A correlation above the threshold comes with a shift of M1, and so with its parameters.
  m1_search_cases :
      (c : Channel dsp)
      → (m1_search dsp c ≡ some (framer_reset dsp c))
        ⊎ ((m : ℕ) × (m < 8) × (m1_search dsp c ≡ some (m1_found m c)))
  unfolding m1_search m1_found
  m1_search_cases c = elim (Bool-cases (above (match_sequence (m1_counts dsp c)).0 30)) [
    | inr low ↦ inl (rw low refl)
    | inl high ↦ elim (match_sequence_lem (m1_counts dsp c)).1 [
      | inl (zero_corr, _) ↦ absurd (omega (arith, ltb→lt _ _ high, zero_corr))
      | inr (m, inside, found, _, _, _) ↦
          inr (m, inside, rw (high, found, get_elem?-lt hfdl_frame_params m no_params inside) refl)
    ]
  ]

  pub step_m1_search :
      (s : dsp.Symbol) (c : Channel dsp)
      → IsSearching dsp c
      → Steps dsp s (in_state dsp framer_m1_search c)
  unfolding on_symbol sample train_equalizer count_symbol await framer_step heard m1_found
  step_m1_search s c h = elim (Bool-cases (ltb 1 c.symbols_wanted)) [
    | inl more ↦ (
      record (heard framer_m1_search s c) { symbols_wanted = c.symbols_wanted - 1 },
      none,
      rw (h.sampler, more) refl,
      ground (arith, h),
      ground arith,
    )
    | inr last ↦ elim (m1_search_cases (heard framer_m1_search s c)) [
      | inl lost ↦ (
        framer_reset dsp (heard framer_m1_search s c),
        none,
        rw (h.sampler, last, lost) refl,
        reset-IsSearching (heard framer_m1_search s c) (home-IsBank c.deinterleaver h.home),
        ground arith,
      )
      | inr (m, inside, found) ↦ (
        m1_found m (heard framer_m1_search s c),
        none,
        rw (h.sampler, last, found) refl,
        record {
          in_frame = record { shift = inside; arity = refl; wanted = omega arith; home = h.home };
          sampler = refl;
          buffer = h.buffer;
          no_data = h.no_data;
          index = h.index;
          segments = refl;
        },
        ground arith,
      )
    ]
  ]
