-- ===== src/Hfdl/Decode.antt =====
-- src/hfdl.c: from the symbols of a frame to the PDU that is handed to the decoder thread. `none` is
-- a failed ASSERT or an access out of bounds.
use dumphfdl.Common.{
  ℕ, zero, suc, ◌+◌, ◌*◌, ◌/◌, ◌%◌, Bool, true, false, ◌==◌, if◌then◌else◌, List, [], ◌∷◌, Option,
  none, some, ◌>>=◌, get_elem?, set, length, map, bit_and, bit_xor,
}
use dumphfdl.Util.{reverse_byte}
use dumphfdl.Hfdl.{
  hfdl_frame_params, HfdlParams, data_frame_len, t_len, hfdl_symbol_rate,
  data_frame_cnt_single_slot,
}
use dumphfdl.Hfdl.Dsp.{Dsp}
use dumphfdl.Hfdl.Deinterleaver.{
  Deinterleaver, deinterleaver_row_cnt, push_bits, pop_bits, deinterleaver_pop,
}
use dumphfdl.Hfdl.Descrambler.{Descrambler, descrambler_advance}

pub data Slot : Type 0 where
  single double : Slot

-- The members of struct hfdl_pdu_metadata that are whole numbers or letters, with the octets.
pub record Pdu : Type 0 where
  pub bit_rate : ℕ
  pub slot : Slot
  pub octets : List ℕ

-- Average of two soft bits of a chip that is sent twice.
unfoldable pub mean : ℕ → ℕ → ℕ
mean a b = bit_and a b + bit_xor a b / 2

unfoldable pub pop_means : ℕ → Deinterleaver → Option (List ℕ × Deinterleaver)
pop_means zero d = some ([], d)
pop_means (suc n) d = do
  (a, d1) ← deinterleaver_pop d
  (b, d2) ← deinterleaver_pop d1
  (vals, d3) ← pop_means n d2
  some (mean a b ∷ vals, d3)

unfoldable pub dispatch_pdu : ℕ → List ℕ → Option Pdu
dispatch_pdu m1 buf = do
  p ← get_elem? hfdl_frame_params m1
  some (record {
    bit_rate =
        hfdl_symbol_rate * p.scheme / p.code_rate * data_frame_len / (data_frame_len + t_len);
    slot = if p.data_segment_cnt == data_frame_cnt_single_slot then single else double;
    octets = buf;
  })

-- The size that hfdl_channel_create gives the Viterbi decoder of a frame.
abbrev pub user_data_bits_cnt : HfdlParams → ℕ
user_data_bits_cnt p = p.data_segment_cnt * data_frame_len * p.scheme / p.code_rate

abbrev pub ensure : Bool → Option (Unit {0})
ensure true = some tt
ensure false = none

-- The input of the Viterbi decoder, and its length.
abbrev pub viterbi_input_len : ℕ → ℕ → ℕ
viterbi_input_len code_rate num_encoded_bits =
    if code_rate == 4 then num_encoded_bits / 2 else num_encoded_bits

unfoldable pub viterbi_input : ℕ → ℕ → Deinterleaver → Option (List ℕ × Deinterleaver)
viterbi_input code_rate num_encoded_bits d =
    if code_rate == 4
    then pop_means (viterbi_input_len code_rate num_encoded_bits) d
    else pop_bits (viterbi_input_len code_rate num_encoded_bits) d

module _ (dsp : Dsp) where
  -- phase_flip[descrambler_bit] * phase_flip[c->bitmask & 1]
  abbrev pub flipped : ℕ → dsp.Symbol → dsp.Symbol
  flipped sign symbol = if sign == 0 then symbol else dsp.negated symbol

  unfoldable pub push_symbols :
      ℕ
      → ℕ
      → List dsp.Symbol
      → Descrambler dsp
      → Deinterleaver
      → Option (Descrambler dsp × Deinterleaver)
  push_symbols arity bitmask [] descrambler d = some (descrambler, d)
  push_symbols arity bitmask (symbol ∷ symbols) descrambler d =
      let (bit, descrambler1) = descrambler_advance dsp descrambler in
      let soft_bits =
        dsp.modem_demodulate_soft arity (flipped (bitmask % 2) (flipped bit symbol)) in
      push_bits d soft_bits >>= λ d1. push_symbols arity bitmask symbols descrambler1 d1

  -- CONV_CODE_RATE is 2.
  abbrev pub viterbi_output : HfdlParams → ℕ → List ℕ → List ℕ
  viterbi_output p num_encoded_bits input = map reverse_byte (
      dsp.viterbi27 (user_data_bits_cnt p) input
        (viterbi_input_len p.code_rate num_encoded_bits / 2))

  -- M1, data_mod_arity and bitmask of the channel, its data symbols, and what a frame changes.
  unfoldable pub decode_user_data :
      ℕ
      → ℕ
      → ℕ
      → List dsp.Symbol
      → Descrambler dsp
      → List Deinterleaver
      → Option (Pdu × Descrambler dsp × List Deinterleaver)
  decode_user_data m1 data_mod_arity bitmask data_symbols descrambler deinterleaver = do
    p ← get_elem? hfdl_frame_params m1
    d ← get_elem? deinterleaver m1
    _ ← ensure (p.data_segment_cnt * data_frame_len == length data_symbols)
    _ ← ensure (length data_symbols * data_mod_arity == d.column_cnt * deinterleaver_row_cnt)
    (descrambler1, d1) ← push_symbols data_mod_arity bitmask data_symbols descrambler d
    (input, d2) ← viterbi_input p.code_rate (length data_symbols * data_mod_arity) d1
    pdu ← dispatch_pdu m1 (viterbi_output p (length data_symbols * data_mod_arity) input)
    some (pdu, descrambler1, set deinterleaver m1 d2)
