-- ===== src/Tests/Frames.antt =====
-- Runs of the demodulator, with numbers as symbols: a symbol is its own soft bit, its negation is the
-- distance to 255, and the generator of the descrambler counts.
use dumphfdl.Common.{
  ℕ, ◌+◌, ◌-◌, ◌%◌, ◌≡◌, ◌<◌, ◌≤◌, ◌⊎◌, refl, arith, List, [], ◌∷◌, Option, some, none, replicate,
  length, length-replicate, get_elem?, ◌==◌, if◌then◌else◌,
}
use dumphfdl.Hfdl.{framer_m2_skip, framer_a2_search, sampler_skip}
use dumphfdl.Hfdl.Dsp.{Dsp, IsDsp, octets_for}
use dumphfdl.Hfdl.Deinterleaver.{
  Deinterleaver, deinterleaver_reset, push_bits, pop_bits, empty_table,
}
use dumphfdl.Hfdl.Interleaving.{IsFor, frame_bits, source, deinterleaver_lem}
use dumphfdl.Hfdl.Creation.{empty_table-IsSized, all_created, all_created-IsBank}
use dumphfdl.Hfdl.Decode.{Pdu}
use dumphfdl.Hfdl.Channel.{Channel, match_sequence, framer_reset}
use dumphfdl.Hfdl.Framer.{on_symbol, on_symbols, new_channel}
use dumphfdl.Hfdl.Invariant.{IsGood, remaining, Advances}
use dumphfdl.Hfdl.Searching.{reset-IsSearching}
use dumphfdl.Hfdl.Matching.{at, match_sequence_lem}
use dumphfdl.Hfdl.Completion.{on_symbol-IsGood, frame_completes}

abbrev counting : Dsp
counting = record {
  Symbol = ℕ;
  negated = λ symbol. 255 - symbol;
  modem_demodulate = λ arity symbol. symbol % 2;
  modem_demodulate_soft = λ arity symbol. replicate arity symbol;
  Msequence = ℕ;
  msequence_create = 0;
  msequence_reset = λ ms. 0;
  msequence_advance = λ ms. (ms % 2, ms + 1);
  Bsequence = ℕ;
  bsequence_push = λ sequence bit. bit;
  correlate_a = λ sequence. 127;
  correlate_m1 = λ shift sequence. if shift == 3 then 120 else 64;
  count_bit_errors = λ a b. 0;
  viterbi27 = λ room input bits. replicate (octets_for bits) 0;
}

counting-IsDsp : IsDsp counting
counting-IsDsp = record {
  soft_length = λ arity symbol. length-replicate arity symbol;
  reset_start = λ ms. refl;
  viterbi27_length = λ room input bits. length-replicate (octets_for bits) 0;
}

abbrev slow : Deinterleaver
slow = empty_table 54 17

abbrev bits : List ℕ
bits = replicate 2160 7

deinterleaver_lem_example :
    (d1 : Deinterleaver) × (out : List ℕ) × (d2 : Deinterleaver) × (push_bits
        (deinterleaver_reset slow)
        bits
      ≡ some d1)
    × (pop_bits (frame_bits 0) d1 ≡ some (out, d2))
    × IsFor 0 d2
    × (length out ≡ frame_bits 0)
    × ((i : ℕ) → i < frame_bits 0 → get_elem? out i ≡ get_elem? bits (source 0 i))
deinterleaver_lem_example =
    deinterleaver_lem 0 slow bits (omega arith) (empty_table-IsSized 54 17)
      (length-replicate {A = ℕ} 2160 7)

abbrev later : ℕ
later = 41

abbrev sooner : ℕ
sooner = 1

abbrev symbols : List ℕ
symbols = replicate 2160 200

-- A channel that has found the A sequences, and one that has found a shift of M1.
abbrev fresh : Channel counting
fresh = new_channel counting 0 all_created

abbrev found_a : Channel counting
found_a = record (framer_reset counting fresh) { fr_state = framer_a2_search }

found_a-IsGood : IsGood counting found_a
unfolding framer_reset
found_a-IsGood =
    let h = reset-IsSearching counting fresh all_created-IsBank in
    record {
      sampler = h.sampler;
      buffer = h.buffer;
      no_data = h.no_data;
      index = h.index;
      wanted = h.wanted;
      home = h.home;
    }

on_symbol-IsGood_example :
    (c1 : Channel counting) × (pdu : Option Pdu) × (on_symbol counting 1 found_a ≡ some (c1, pdu))
    × IsGood counting c1
    × Advances counting (remaining counting found_a) (remaining counting c1) pdu
on_symbol-IsGood_example = on_symbol-IsGood counting counting-IsDsp 1 found_a found_a-IsGood

abbrev found_m1 : Channel counting
found_m1 = record (framer_reset counting fresh) {
  fr_state = framer_m2_skip;
  s_state = sampler_skip;
  m1 = 0;
  data_mod_arity = 1;
  data_segment_cnt = 72;
  symbols_wanted = 15;
}

found_m1-IsGood : IsGood counting found_m1
unfolding framer_reset
found_m1-IsGood =
    let h = reset-IsSearching counting fresh all_created-IsBank in
    record {
      in_frame = record { shift = omega arith; arity = refl; wanted = omega arith; home = h.home };
      sampler = refl;
      buffer = refl;
      no_data = refl;
      index = refl;
      segments = refl;
    }

abbrev frame_of_ones : List ℕ
frame_of_ones = replicate 3390 1

frame_completes_example :
    (c1 : Channel counting) × (pdu : Pdu) × (on_symbols counting frame_of_ones found_m1
      ≡ some (c1, pdu ∷ []))
    × IsGood counting c1
    × (remaining counting c1 ≡ 0)
frame_completes_example =
    frame_completes counting counting-IsDsp frame_of_ones found_m1 found_m1-IsGood (omega arith)
      (length-replicate {A = ℕ} 3390 1)

abbrev correlations : List ℕ
correlations = 64 ∷ 60 ∷ 120 ∷ 7 ∷ []

match_sequence_lem_example :
    ((j : ℕ) → j < length correlations → at correlations j ≤ (match_sequence correlations).0)
    × (((match_sequence correlations).0 ≡ 0 × (match_sequence correlations).1 ≡ none)
        ⊎ ((i : ℕ) × (i < length correlations)
            × ((match_sequence correlations).1 ≡ some i)
            × (at correlations i ≡ (match_sequence correlations).0)
            × (0 < (match_sequence correlations).0)
            × ((k : ℕ) → k < i → at correlations k < at correlations i)))
match_sequence_lem_example = match_sequence_lem correlations

match_sequence_first : match_sequence correlations ≡ (113, some 2)
unfolding match_sequence
match_sequence_first = refl
