-- ===== src/Pdu.antt =====
-- src/pdu.c and src/pdu.h: the header data that the PDU layers share, and the frame check.
pub mod Check
use dumphfdl.Common.{ℕ, ◌+◌, ◌*◌, ◌^◌, bit_or, bit_xor, Bool, Option, some, ◌>>=◌, peek, List, ◌==◌}
use dumphfdl.Crc.{crc16_ccitt}

-- enum hfdl_pdu_direction
pub data Direction : Type 0 where
  uplink_pdu downlink_pdu : Direction

-- struct hfdl_pdu_hdr_data; a frequency is the bit pattern of an int32_t.
pub record HdrData : Type 0 where
  pub freq : ℕ
  pub src_id : ℕ
  pub dst_id : ℕ
  pub direction : Direction
  pub crc_ok : Bool

-- The members of struct dumphfdl_config (src/globals.h) that the parsers read.
pub record Config : Type 0 where
  pub output_mpdus : Bool
  pub output_corrupted_pdus : Bool

-- The received sum stands after the first `hdr_len` octets. `none` is a read past the buffer.
unfoldable pub hfdl_pdu_fcs_check : List ℕ → ℕ → Option Bool
hfdl_pdu_fcs_check buf hdr_len = do
  lo ← peek buf hdr_len
  hi ← peek buf (hdr_len + 1)
  crc ← crc16_ccitt buf hdr_len 0xffff
  some (bit_or lo (hi * 2 ^ 8) == bit_xor crc 0xffff)
