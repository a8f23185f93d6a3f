-- ===== src/Hfdl.antt =====
-- src/hfdl.c: the demodulator of a channel. This file has the frame parameters, the states and the
-- descrambler; the children have the deinterleaver, the decoding of a frame and the framer.
pub mod Deinterleaver
pub mod Permutation
mod Table
mod Filling
pub mod Interleaving
pub mod Dsp
pub mod Descrambler
pub mod Decode
pub mod Channel
pub mod Framer
pub mod Decoding
pub mod Bank
pub mod Frames
pub mod Invariant
pub mod Matching
pub mod Progress
pub mod Searching
pub mod Training
pub mod Creation
pub mod Descrambling
pub mod Completion
use dumphfdl.Common.{
  ℕ, zero, ◌+◌, ◌*◌, ◌/◌, ◌==◌, if◌then◌else◌, List, [], ◌∷◌, Option, none, some, get_elem?,
}

abbrev pub a_len : ℕ
a_len = 127

abbrev pub m1_len : ℕ
m1_len = 127

abbrev pub m2_len : ℕ
m2_len = 15

abbrev pub t_len : ℕ
t_len = 15

abbrev pub data_frame_len : ℕ
data_frame_len = 30

abbrev pub data_frame_cnt_single_slot : ℕ
data_frame_cnt_single_slot = 72

abbrev pub data_frame_cnt_double_slot : ℕ
data_frame_cnt_double_slot = 168

abbrev pub data_symbols_cnt_max : ℕ
data_symbols_cnt_max = data_frame_cnt_double_slot * data_frame_len

-- PREKEY_LEN + PREAMBLE_LEN + the segments of a single slot, each with its training sequence.
abbrev pub single_slot_frame_len : ℕ
single_slot_frame_len =
    448
    + (2 * a_len + m1_len + m2_len + 9 * t_len)
    + data_frame_cnt_single_slot * (data_frame_len + t_len)

abbrev pub hfdl_symbol_rate : ℕ
hfdl_symbol_rate = 1800

pub data SamplerState : Type 0 where
  sampler_emit_bits sampler_emit_symbols sampler_skip : SamplerState

pub data FramerState : Type 0 where
  framer_a1_search framer_a2_search framer_m1_search framer_m2_skip framer_eq_train framer_data_1
        framer_data_2 :
      FramerState

-- mod_arity: the bits of a symbol.
abbrev pub m_bpsk : ℕ
m_bpsk = 1

abbrev pub m_psk4 : ℕ
m_psk4 = 2

abbrev pub m_psk8 : ℕ
m_psk8 = 3

pub record HfdlParams : Type 0 where
  pub scheme : ℕ
  pub data_segment_cnt : ℕ
  pub code_rate : ℕ
  pub deinterleaver_push_column_shift : ℕ

abbrev pub params_of : ℕ → ℕ → ℕ → ℕ → HfdlParams
params_of arity segments rate shift = record {
  scheme = arity;
  data_segment_cnt = segments;
  code_rate = rate;
  deinterleaver_push_column_shift = shift;
}

-- By the shift of M1 that was found: 300, 600, 1200 and 1800 bit/s in a single, then a double slot.
abbrev pub hfdl_frame_params : List HfdlParams
hfdl_frame_params =
    params_of m_bpsk data_frame_cnt_single_slot 4 17
    ∷ params_of m_bpsk data_frame_cnt_single_slot 2 17
    ∷ params_of m_psk4 data_frame_cnt_single_slot 2 17
    ∷ params_of m_psk8 data_frame_cnt_single_slot 2 17
    ∷ params_of m_bpsk data_frame_cnt_double_slot 4 23
    ∷ params_of m_bpsk data_frame_cnt_double_slot 2 23
    ∷ params_of m_psk4 data_frame_cnt_double_slot 2 23
    ∷ params_of m_psk8 data_frame_cnt_double_slot 2 23
    ∷ []
