-- ===== src/Spdu.antt =====
-- src/spdu.c: the SPDU (squitter) parser. Its child Format is the JSON formatter; counters of
-- src/statsd.c are not modelled.
pub mod Fields
pub mod Format
pub mod Nesting
use dumphfdl.Common.{
  ℕ, ◌+◌, ◌*◌, ◌/◌, ◌%◌, ◌^◌, bit_or, Bool, true, false, ◌||◌, not, Option, none, some, ◌>>=◌, peek,
  List, length, ◌==◌, ltb, if◌then◌else◌,
}
use dumphfdl.Util.{low_field, high_field}
use dumphfdl.Pdu.{uplink_pdu, HdrData, Config, hfdl_pdu_fcs_check}

-- struct gs_status; freqs_in_use is a bit mask.
pub record GsStatus : Type 0 where
  pub freqs_in_use : ℕ
  pub id : ℕ
  pub utc_sync : Bool

-- The members of struct hfdl_spdu that the fields of the PDU fill in.
pub record Squitter : Type 0 where
  pub gs_data0 : GsStatus
  pub gs_data1 : GsStatus
  pub gs_data2 : GsStatus
  pub frame_index : ℕ
  pub frame_offset : ℕ
  pub version : ℕ
  pub change_note : ℕ
  pub min_priority : ℕ
  pub systable_version : ℕ
  pub rls_in_use : Bool
  pub iso8208_supported : Bool

-- struct hfdl_spdu; without its fields, `none`, it is as allocated: zeroed.
pub record HfdlSpdu : Type 0 where
  pub pdu : List ℕ
  pub crc_ok : Bool
  pub src_id : ℕ
  pub fields : Option Squitter

-- Bit n of an octet, as a bool.
abbrev pub has_bit : ℕ → ℕ → Bool
has_bit b n = b / 2 ^ n % 2 == 1

-- The assignments after the frame check. systable_version is a uint8_t, and drops the high bits.
unfoldable pub squitter_fields : List ℕ → Option Squitter
squitter_fields buf = do
  b0 ← peek buf 0
  b1 ← peek buf 1
  b2 ← peek buf 2
  b3 ← peek buf 3
  b52 ← peek buf 52
  b53 ← peek buf 53
  b54 ← peek buf 54
  b55 ← peek buf 55
  b56 ← peek buf 56
  b57 ← peek buf 57
  b58 ← peek buf 58
  b59 ← peek buf 59
  b60 ← peek buf 60
  b61 ← peek buf 61
  b62 ← peek buf 62
  b63 ← peek buf 63
  some (record {
    gs_data0 = record {
      freqs_in_use = high_field b54 b55 b56;
      id = b1 % 2 ^ 7;
      utc_sync = has_bit b1 7;
    };
    gs_data1 = record {
      freqs_in_use = low_field b58 b59 b60;
      id = b57 % 2 ^ 7;
      utc_sync = has_bit b57 7;
    };
    gs_data2 = record {
      freqs_in_use = high_field b61 b62 b63;
      id = bit_or (b60 / 2 ^ 4) (b61 % 2 ^ 3 * 2 ^ 4);
      utc_sync = has_bit b61 3;
    };
    frame_index = bit_or b2 (b3 % 2 ^ 4 * 2 ^ 8);
    frame_offset = b3 / 2 ^ 4;
    version = b0 / 2 ^ 2 % 2 ^ 2;
    change_note = b0 % 2 ^ 8 / 2 ^ 6;
    min_priority = b52 % 2 ^ 4;
    systable_version = bit_or b53 (b54 % 2 ^ 4 * 2 ^ 8) % 2 ^ 8;
    rls_in_use = has_bit b0 1;
    iso8208_supported = has_bit b0 5;
  })

-- Label `end`: a faulty SPDU is listed only if the configuration asks for it.
abbrev pub spdu_end : Config → HfdlSpdu → Option HfdlSpdu
spdu_end config spdu = if spdu.crc_ok || config.output_corrupted_pdus then some spdu else none

abbrev pub bad_spdu : List ℕ → HfdlSpdu
bad_spdu pdu = record { pdu = pdu; crc_ok = false; src_id = 0; fields = none }

-- The list that the source returns has one element at most. The ASSERT that the PDU is not empty is
-- the first test; none is its failure, or a read outside the PDU.
unfoldable pub spdu_parse : Config → List ℕ → Option (Option HfdlSpdu)
unfolding squitter_fields
spdu_parse config pdu =
    if length pdu == 0
    then none
    else if ltb (length pdu) 66
    then some (spdu_end config (bad_spdu pdu))
    else (hfdl_pdu_fcs_check pdu 64 >>= λ crc_ok.
        if crc_ok
        then (squitter_fields pdu >>= λ f. some (
            spdu_end config
              (record { pdu = pdu; crc_ok = true; src_id = f.gs_data0.id; fields = some f })))
        else some (spdu_end config (bad_spdu pdu)))
