-- ===== src/Hfdl/Completion.antt =====
-- Whole runs of the channel of src/hfdl.c: no ASSERT fails, and a frame that was found is completed.
use dumphfdl.Common.{
  suc, ◌≡◌, ◌<◌, refl, ap, sym, ◌∙◌, arith, Option, some, List, [], ◌∷◌, length, is_some, true,
  false, Option-cases, ◌==◌, inl, inr, ==_iff,
}
use dumphfdl.Hfdl.{
  FramerState, framer_a1_search, framer_a2_search, framer_m1_search, framer_m2_skip,
  framer_eq_train, framer_data_1, framer_data_2,
}
use dumphfdl.Hfdl.Dsp.{Dsp, IsDsp}
use dumphfdl.Hfdl.Decode.{Pdu}
use dumphfdl.Hfdl.Channel.{Channel}
use dumphfdl.Hfdl.Framer.{on_symbol, on_symbols, hfdl_channel_create, collected}
use dumphfdl.Hfdl.Invariant.{GoodIn, IsGood, remaining, Advances}
use dumphfdl.Hfdl.Progress.{in_state, Steps, step_data_1, step_data_2, step_m2_skip}
use dumphfdl.Hfdl.Searching.{step_a1_search, step_a2_search, step_m1_search}
use dumphfdl.Hfdl.Creation.{hfdl_channel_create-IsGood}
use dumphfdl.Hfdl.Training.{step_eq_train}

true_not_false : true ≡ false → ⊥
true_not_false e = ground (arith, e)

module _ (dsp : Dsp) (documented : IsDsp dsp) where
  step_in :
      (state : FramerState) (s : dsp.Symbol) (c : Channel dsp)
      → GoodIn dsp state c
      → Steps dsp s (in_state dsp state c)
  step_in framer_a1_search s c h = step_a1_search dsp s c h
  step_in framer_a2_search s c h = step_a2_search dsp s c h
  step_in framer_m1_search s c h = step_m1_search dsp s c h
  step_in framer_m2_skip s c h = step_m2_skip dsp s c h
  step_in framer_eq_train s c h = step_eq_train dsp documented s c h
  step_in framer_data_1 s c h = step_data_1 dsp s c h
  step_in framer_data_2 s c h = step_data_2 dsp s c h

  -- Every symbol, in every state of the framer, is taken without a failed ASSERT and without an access
  -- out of bounds, and the invariant holds again. In a frame one symbol less remains afterwards, and
  -- the last one alone gives a PDU; outside a frame none does.
  pub on_symbol-IsGood :
      (s : dsp.Symbol) (c : Channel dsp)
      → IsGood dsp c
      → (c1 : Channel dsp) × (pdu : Option Pdu) × (on_symbol dsp s c ≡ some (c1, pdu))
        × IsGood dsp c1
        × Advances dsp (remaining dsp c) (remaining dsp c1) pdu
  on_symbol-IsGood s c h = step_in c.fr_state s c h

  on_symbols-IsGood :
      (symbols : List dsp.Symbol) (c : Channel dsp)
      → IsGood dsp c
      → (c1 : Channel dsp) × (pdus : List Pdu) × (on_symbols dsp symbols c ≡ some (c1, pdus))
        × IsGood dsp c1
  unfolding on_symbols
  on_symbols-IsGood [] c h = (c, [], refl, h)
  on_symbols-IsGood (s ∷ symbols) c h =
      let (c1, pdu, e, h1, _) = on_symbol-IsGood s c h in
      let (c2, pdus, es, h2) = on_symbols-IsGood symbols c1 h1 in
      (c2, collected pdu pdus, rw (e, es) refl, h2)

  -- A new channel takes any sequence of symbols, of any length, without a failed ASSERT and without an
  -- access out of bounds.
  pub hfdl_channel_create_runs :
      (bits : dsp.Bsequence) (symbols : List dsp.Symbol)
      → (c : Channel dsp) × (c1 : Channel dsp) × (pdus : List Pdu) × (hfdl_channel_create dsp bits
          ≡ some c)
        × (on_symbols dsp symbols c ≡ some (c1, pdus))
  hfdl_channel_create_runs bits symbols =
      let (c, e, h) = hfdl_channel_create-IsGood dsp bits in
      let (c1, pdus, es, _) = on_symbols-IsGood symbols c h in (c, c1, pdus, e, es)

  -- Once a shift of M1 has been found, whatever symbols come next, as many as remain of the frame give
  -- exactly one PDU, and the framer is again outside a frame, with the invariant.
  pub frame_completes :
      (symbols : List dsp.Symbol) (c : Channel dsp)
      → IsGood dsp c
      → 0 < remaining dsp c
      → length symbols ≡ remaining dsp c
      → (c1 : Channel dsp) × (pdu : Pdu) × (on_symbols dsp symbols c ≡ some (c1, pdu ∷ []))
        × IsGood dsp c1
        × (remaining dsp c1 ≡ 0)
  unfolding on_symbols
  frame_completes [] c h inside all = absurd (omega (arith, inside, all))
  frame_completes (s ∷ []) c h inside all =
      let (c1, pdu, e, h1, adv) = on_symbol-IsGood s c h in
      let last : remaining dsp c ≡ 1 = omega (arith, all) in
      let (given, less) = adv in
      let one_less : suc (remaining dsp c1) ≡ remaining dsp c = omega (arith, less, inside) in
      elim (Option-cases pdu) [
        | inl absent ↦ absurd (
            true_not_false
              (sym ((==_iff (remaining dsp c) 1).1 last) ∙ sym given ∙ ap is_some absent))
        | inr (p, here) ↦ (c1, p, rw (e, here) refl, h1, omega (arith, one_less, last))
      ]
  frame_completes (s ∷ s' ∷ symbols) c h inside all =
      let (c1, pdu, e, h1, adv) = on_symbol-IsGood s c h in
      let (given, less) = adv in
      let one_less : suc (remaining dsp c1) ≡ remaining dsp c = omega (arith, less, inside) in
      let rest : length (s' ∷ symbols) ≡ remaining dsp c1 = omega (arith, all, one_less) in
      let more : (remaining dsp c == 1) ≡ false = ground (arith, all) in
      let (c2, p, es, h2, over) = frame_completes (s' ∷ symbols) c1 h1 (omega (arith, rest)) rest in
      elim (Option-cases pdu) [
        | inl absent ↦ (c2, p, rw (e, es, absent) refl, h2, over)
        | inr (q, here) ↦ absurd (true_not_false (sym (ap is_some here) ∙ given ∙ more))
      ]
