-- ===== src/Spdu/Fields.antt =====
-- What the squitter parser of src/spdu.c reads, and where each field stands.
use dumphfdl.Common.{
  ◌==◌, ℕ, ◌+◌, ◌*◌, ◌/◌, ◌%◌, ◌^◌, ◌≤◌, ◌<◌, ◌≡◌, ◌⊎◌, ◌∙◌, refl, ap, bit_or, true, false, none,
  some, peek, byte_at, byte_at-lt, peek-lt, IsOctets, List, length, ltb, if◌then◌else◌, Bool-cases,
  inl, inr, arith,
}
use dumphfdl.Common.Bits.{bit_or-low}
use dumphfdl.Util.Fields.{low_field_sum, high_field_sum}
use dumphfdl.Pdu.{Config, hfdl_pdu_fcs_check}
use dumphfdl.Pdu.Check.{fcs_check-total}
use dumphfdl.Spdu.{Squitter, has_bit, squitter_fields, bad_spdu, spdu_parse}

-- The squitter's integers as arithmetic on its octets.
abbrev pub squitter : List ℕ → Squitter
squitter buf =
    let b = byte_at buf in
    record {
      gs_data0 = record {
        freqs_in_use = b 54 / 16 + b 55 * 16 + b 56 * 4096;
        id = b 1 % 128;
        utc_sync = has_bit (b 1) 7;
      };
      gs_data1 = record {
        freqs_in_use = b 58 + b 59 * 256 + b 60 % 16 * 65536;
        id = b 57 % 128;
        utc_sync = has_bit (b 57) 7;
      };
      gs_data2 = record {
        freqs_in_use = b 61 / 16 + b 62 * 16 + b 63 * 4096;
        id = b 60 / 16 + b 61 % 8 * 16;
        utc_sync = has_bit (b 61) 3;
      };
      frame_index = b 2 + b 3 % 16 * 256;
      frame_offset = b 3 / 16;
      version = b 0 / 4 % 4;
      change_note = b 0 / 64;
      min_priority = b 52 % 16;
      systable_version = b 53;
      rls_in_use = has_bit (b 0) 1;
      iso8208_supported = has_bit (b 0) 5;
    }

squitter_fields_lem :
    (buf : List ℕ) → IsOctets buf → 66 ≤ length buf → squitter_fields buf ≡ some (squitter buf)
unfolding squitter_fields
squitter_fields_lem buf octets h =
    let at : (i : ℕ) → i < length buf → peek buf i ≡ some (byte_at buf i) = peek-lt buf in
    let lt : (i : ℕ) → byte_at buf i < 256 = λ i. byte_at-lt buf i octets in
    let version : bit_or (byte_at buf 53) (byte_at buf 54 % 2 ^ 4 * 2 ^ 8) % 2 ^ 8
        ≡ byte_at buf 53 =
      omega (arith, bit_or-low 8 (byte_at buf 53) (byte_at buf 54 % 2 ^ 4) (lt 53), lt 53) in
    let note : byte_at buf 0 % 2 ^ 8 / 2 ^ 6 ≡ byte_at buf 0 / 64 = omega (arith, lt 0) in
    rw
      (
        at 0 (omega arith),
        at 1 (omega arith),
        at 2 (omega arith),
        at 3 (omega arith),
        at 52 (omega arith),
        at 53 (omega arith),
        at 54 (omega arith),
        at 55 (omega arith),
        at 56 (omega arith),
        at 57 (omega arith),
        at 58 (omega arith),
        at 59 (omega arith),
        at 60 (omega arith),
        at 61 (omega arith),
        at 62 (omega arith),
        at 63 (omega arith),
        high_field_sum (byte_at buf 54) (byte_at buf 55) (byte_at buf 56) (lt 54) (lt 55),
        low_field_sum (byte_at buf 58) (byte_at buf 59) (byte_at buf 60) (lt 58) (lt 59),
        high_field_sum (byte_at buf 61) (byte_at buf 62) (byte_at buf 63) (lt 61) (lt 62),
        bit_or-low 4 (byte_at buf 60 / 2 ^ 4) (byte_at buf 61 % 2 ^ 3) (omega (arith, lt 60)),
        bit_or-low 8 (byte_at buf 2) (byte_at buf 3 % 2 ^ 4) (lt 2),
        version,
        note,
      )
      refl

-- The parser passes its ASSERTs and reads nothing outside a PDU of at least one octet, however short
-- it is, and returns as follows: a PDU of fewer than 66 octets, or whose sum over 64 octets does not match, is listed as faulty or, by
-- default, not at all; any other is listed with the integers of its octets. The version of the
-- system table among them is octet 53 alone: the four high bits in octet 54 do not show.
pub spdu_parse_result :
    (config : Config) (pdu : List ℕ)
    → IsOctets pdu
    → 0 < length pdu
    → (((length pdu < 66) ⊎ (hfdl_pdu_fcs_check pdu 64 ≡ some false))
        × (spdu_parse config pdu
            ≡ some (if config.output_corrupted_pdus then some (bad_spdu pdu) else none)))
      ⊎ ((66 ≤ length pdu)
          × (hfdl_pdu_fcs_check pdu 64 ≡ some true)
          × (spdu_parse config pdu
              ≡ some (
                  some (record {
                    pdu = pdu;
                    crc_ok = true;
                    src_id = byte_at pdu 1 % 128;
                    fields = some (squitter pdu);
                  }))))
unfolding spdu_parse
spdu_parse_result config pdu octets some_octets =
    let filled : (length pdu == 0) ≡ false = ground (arith, some_octets) in
    elim (Bool-cases (ltb (length pdu) 66)) [
      | inl short ↦ inl (inl (ground (arith, short)), rw (filled, short) refl)
      | inr long ↦
          let (ok, checked) = fcs_check-total pdu 64 (ground (arith, long)) in
          elim (Bool-cases ok) [
            | inl good ↦
                let good' : hfdl_pdu_fcs_check pdu 64 ≡ some true = checked ∙ ap some good in
                let f = squitter_fields_lem pdu octets (ground (arith, long)) in
                inr (ground (arith, long), good', rw (filled, long, good', f) refl)
            | inr bad ↦
                let bad' : hfdl_pdu_fcs_check pdu 64 ≡ some false = checked ∙ ap some bad in
                inl (inr bad', rw (filled, long, bad') refl)
          ]
    ]
