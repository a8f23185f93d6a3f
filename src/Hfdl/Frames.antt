-- ===== src/Hfdl/Frames.antt =====
-- What src/hfdl.c makes of the symbols of a whole frame.
use dumphfdl.Common.{
  ℕ, zero, suc, ◌*◌, ◌/◌, ◌≡◌, ◌<◌, inl, inr, refl, ap, sym, ◌∙◌, arith, some, List, [], ◌∷◌,
  get_elem?, get_elem?-lt, set, length, get_or, Bool-cases, if◌then◌else◌, ◌==◌, ==_iff, ltb,
}
use dumphfdl.Hfdl.{hfdl_frame_params}
use dumphfdl.Hfdl.Dsp.{Dsp, IsDsp}
use dumphfdl.Hfdl.Descrambler.{Descrambler}
use dumphfdl.Hfdl.Deinterleaver.{Deinterleaver, push_bits, pop_bits, deinterleaver_row_cnt}
use dumphfdl.Hfdl.Permutation.{frame, no_params}
use dumphfdl.Hfdl.Interleaving.{IsFor, frame_bits, frame_through, source}
use dumphfdl.Hfdl.Decode.{
  Pdu, Slot, single, double, viterbi_input, viterbi_output, decode_user_data, dispatch_pdu,
}
use dumphfdl.Hfdl.Decoding.{
  frame_symbols, frame_sizes, means, twice_lem, pop_means-pop_bits, soft_bits, descrambler_after,
  length-soft_bits, push_symbols-push_bits,
}
use dumphfdl.Hfdl.Bank.{IsHome}

-- The rates and the slots that the standard gives to the shifts of M1.
abbrev pub rate_of : ℕ → ℕ
rate_of m1 = get_or (300 ∷ 600 ∷ 1200 ∷ 1800 ∷ 300 ∷ 600 ∷ 1200 ∷ 1800 ∷ []) m1 0

abbrev pub slot_of : ℕ → Slot
slot_of m1 = if ltb m1 4 then single else double

abbrev pub pdu_of : ℕ → List ℕ → Pdu
pdu_of m1 buf = record { bit_rate = rate_of m1; slot = slot_of m1; octets = buf }

pub dispatch_pdu_lem : (m1 : ℕ) (buf : List ℕ) → m1 < 8 → dispatch_pdu m1 buf ≡ some (pdu_of m1 buf)
unfolding dispatch_pdu
dispatch_pdu_lem zero buf h = refl
dispatch_pdu_lem (suc zero) buf h = refl
dispatch_pdu_lem (suc (suc zero)) buf h = refl
dispatch_pdu_lem (suc (suc (suc zero))) buf h = refl
dispatch_pdu_lem (suc (suc (suc (suc zero)))) buf h = refl
dispatch_pdu_lem (suc (suc (suc (suc (suc zero))))) buf h = refl
dispatch_pdu_lem (suc (suc (suc (suc (suc (suc zero)))))) buf h = refl
dispatch_pdu_lem (suc (suc (suc (suc (suc (suc (suc zero))))))) buf h = refl
dispatch_pdu_lem (suc (suc (suc (suc (suc (suc (suc (suc m1)))))))) buf h =
    absurd (omega (arith, h))

-- The decoder's input of the bits of the deinterleaver: at a code rate of 1/4 a mean of each pair.
abbrev pub decoder_input : ℕ → List ℕ → List ℕ
decoder_input code_rate out = if code_rate == 4 then means out else out

viterbi_input-pop_bits :
    (code_rate n : ℕ) (d d2 : Deinterleaver) (out : List ℕ)
    → 2 * (n / 2) ≡ n
    → pop_bits n d ≡ some (out, d2)
    → viterbi_input code_rate n d ≡ some (decoder_input code_rate out, d2)
unfolding viterbi_input
viterbi_input-pop_bits code_rate n d d2 out even pops = elim (Bool-cases (code_rate == 4)) [
  | inl e ↦ rw (e, pop_means-pop_bits (n / 2) d, twice_lem (n / 2), even, pops) refl
  | inr e ↦ rw (e, pops) refl
]

module _ (dsp : Dsp) (documented : IsDsp dsp) where
  decode_steps :
      (m1 bitmask : ℕ) (symbols : List dsp.Symbol) (descrambler : Descrambler dsp)
      (ds : List Deinterleaver) (d0 d1 d2 : Deinterleaver) (out : List ℕ) (n : ℕ)
      → m1 < 8
      → length symbols ≡ frame_symbols m1
      → length symbols * (frame m1).scheme ≡ n
      → 2 * (n / 2) ≡ n
      → n ≡ d0.column_cnt * deinterleaver_row_cnt
      → get_elem? ds m1 ≡ some d0
      → push_bits d0 (soft_bits dsp (frame m1).scheme bitmask symbols descrambler) ≡ some d1
      → pop_bits n d1 ≡ some (out, d2)
      → decode_user_data dsp m1 (frame m1).scheme bitmask symbols descrambler ds
        ≡ some (
          pdu_of m1 (viterbi_output dsp (frame m1) n (decoder_input (frame m1).code_rate out)),
          descrambler_after dsp symbols descrambler,
          set ds m1 d2,
        )
  unfolding decode_user_data
  decode_steps m1 bitmask symbols descrambler ds d0 d1 d2 out n h all bits even cells at pushes
        pops =
      let params : get_elem? hfdl_frame_params m1 ≡ some (frame m1) =
        get_elem?-lt hfdl_frame_params m1 no_params h in
      rw
        (
          params,
          at,
          (==_iff (frame_symbols m1) (length symbols)).1 (sym all),
          bits,
          (==_iff n (d0.column_cnt * deinterleaver_row_cnt)).1 cells,
          push_symbols-push_bits dsp (frame m1).scheme bitmask symbols descrambler d0,
          pushes,
          viterbi_input-pop_bits (frame m1).code_rate n d1 d2 out even pops,
          dispatch_pdu_lem m1
              (viterbi_output dsp (frame m1) n (decoder_input (frame m1).code_rate out)) h,
        )
        refl

  pub decode_user_data_lem :
      (m1 bitmask : ℕ) (symbols : List dsp.Symbol) (descrambler : Descrambler dsp)
      (ds : List Deinterleaver)
      → m1 < 8
      → length symbols ≡ frame_symbols m1
      → IsHome ds
      → (out : List ℕ) × (d : Deinterleaver) × (decode_user_data dsp m1
            (frame m1).scheme
            bitmask
            symbols
            descrambler
            ds
          ≡ some (
            pdu_of m1 (
                viterbi_output dsp
                  (frame m1)
                  (frame_bits m1)
                  (decoder_input (frame m1).code_rate out)),
            descrambler_after dsp symbols descrambler,
            set ds m1 d,
          ))
        × IsFor m1 d
        × (length out ≡ frame_bits m1)
        × ((i : ℕ)
            → i < frame_bits m1
            → get_elem? out i
              ≡ get_elem?
                  (soft_bits dsp (frame m1).scheme bitmask symbols descrambler)
                  (source m1 i))
  decode_user_data_lem m1 bitmask symbols descrambler ds h all home =
      let (d0, at, for, row, col) = home m1 h in
      let (bits, even, _) = frame_sizes m1 h in
      let soft = soft_bits dsp (frame m1).scheme bitmask symbols descrambler in
      let long : length soft ≡ frame_bits m1 =
        length-soft_bits dsp documented (frame m1).scheme bitmask symbols descrambler
        ∙ ap (λ (n : ℕ). n * (frame m1).scheme) all
        ∙ bits in
      let (d1, out, d2, pushes, pops, for2, len, at_source) =
        frame_through m1 d0 soft h for row col long in
      (
        out,
        d2,
        decode_steps m1 bitmask symbols descrambler ds d0 d1 d2 out (frame_bits m1) h all
            (ap (λ (n : ℕ). n * (frame m1).scheme) all ∙ bits) even (omega (arith, for.column_cnt))
            at pushes pops,
        for2,
        len,
        at_source,
      )
