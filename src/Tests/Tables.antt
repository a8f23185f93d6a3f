-- ===== src/Tests/Tables.antt =====
-- Runs of the system table and of the squitter parser.
use dumphfdl.Common.{
  ℕ, zero, suc, ◌+◌, ◌%◌, ◌≤◌, ◌<◌, ◌≡◌, ◌≢◌, ◌↔◌, ◌⊎◌, true, false, none, some, List, [], ◌∷◌,
  ◌++◌, length, replicate, arith, IsOctets, byte_at, if◌then◌else◌,
}
use dumphfdl.Pdu.{hfdl_pdu_fcs_check}
use dumphfdl.Util.{plus}
use dumphfdl.Spdu.{bad_spdu, spdu_parse}
use dumphfdl.Spdu.Fields.{squitter, spdu_parse_result}
use dumphfdl.Systable.{reassemble, Decoded, systable_decode, systable_is_newer}
use dumphfdl.Systable.PduSets.{store_all, occurs, reassemble-store_all}
use dumphfdl.Systable.Decoding.{AllStations, systable_decode-total}
use dumphfdl.Systable.Versions.{systable_is_newer_iff}
use dumphfdl.Tests.Instance.{config}

abbrev fragments : List (List ℕ)
fragments = (1 ∷ 2 ∷ []) ∷ (3 ∷ []) ∷ []

both_there : (i : ℕ) → i < 2 → occurs i (1 ∷ 0 ∷ 1 ∷ []) ≡ true
both_there i h = ground arith

-- Another version was stored before.
reassemble-store_all_example :
    reassemble (
      store_all 51 fragments
        (1 ∷ 0 ∷ 1 ∷ [])
        (some (record { version = 50; pdus = none ∷ some (9 ∷ []) ∷ [] })))
    ≡ some (1 ∷ 2 ∷ 3 ∷ [])
reassemble-store_all_example =
    reassemble-store_all 51 fragments (1 ∷ 0 ∷ 1 ∷ [])
      (some (record { version = 50; pdus = none ∷ some (9 ∷ []) ∷ [] })) (omega arith)
      (omega arith, (omega arith, (omega arith, _))) both_there

systable_decode-total_example :
    (r : Decoded) × (systable_decode (7 ∷ 0 ∷ 0 ∷ 0 ∷ 0 ∷ 0 ∷ 8 ∷ 0x40 ∷ 0x38 ∷ 0x11 ∷ 2 ∷ [])
      ≡ some r)
    × AllStations r.gs_list
systable_decode-total_example =
    systable_decode-total (7 ∷ 0 ∷ 0 ∷ 0 ∷ 0 ∷ 0 ∷ 8 ∷ 0x40 ∷ 0x38 ∷ 0x11 ∷ 2 ∷ []) (omega arith)

abbrev last : ℕ
last = 4095

abbrev first : ℕ
first = 1

systable_is_newer_iff_example :
    ((systable_is_newer (plus last) (plus first) ≡ true) ↔ ((last < first) ⊎ (first + 2048 ≤ last)))
    × (last ≢ first
        → (systable_is_newer (plus last) (plus first) ≡ true)
          ⊎ (systable_is_newer (plus first) (plus last) ≡ true))
    × (last + 2048 ≤ first
        → (systable_is_newer (plus last) (plus first) ≡ true)
          × (systable_is_newer (plus first) (plus last) ≡ true))
systable_is_newer_iff_example = systable_is_newer_iff last first

abbrev pdu : List ℕ
pdu = replicate 64 0 ++ 148 ∷ 164 ∷ []

IsOctets-zeros : (n : ℕ) (l : List ℕ) → IsOctets l → IsOctets (replicate n 0 ++ l)
IsOctets-zeros zero l h = h
IsOctets-zeros (suc n) l h = (omega arith, IsOctets-zeros n l h)

spdu_parse_result_example :
    (((length pdu < 66) ⊎ (hfdl_pdu_fcs_check pdu 64 ≡ some false))
      × (spdu_parse config pdu
          ≡ some (if config.output_corrupted_pdus then some (bad_spdu pdu) else none)))
    ⊎ ((66 ≤ length pdu)
        × (hfdl_pdu_fcs_check pdu 64 ≡ some true)
        × (spdu_parse config pdu
            ≡ some (
                some (record {
                  pdu = pdu;
                  crc_ok = true;
                  src_id = byte_at pdu 1 % 128;
                  fields = some (squitter pdu);
                }))))
spdu_parse_result_example =
    spdu_parse_result config pdu
      (IsOctets-zeros 64 (148 ∷ 164 ∷ []) (omega arith, (omega arith, _))) (omega arith)
