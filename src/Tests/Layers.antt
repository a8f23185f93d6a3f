-- ===== src/Tests/Layers.antt =====
-- Runs of the LPDU, HFNPDU and MPDU parsers.
use dumphfdl.Common.{ℕ, Ensures, ◌≡◌, refl, true, some, ◌>>=◌, List, [], ◌∷◌, arith, Safe}
use dumphfdl.Crc.{crc16_ccitt}
use dumphfdl.Pdu.{uplink_pdu, HdrData, hfdl_pdu_fcs_check}
use dumphfdl.Pdu.Check.{frame}
use dumphfdl.Util.{reverse_byte}
use dumphfdl.Lpdu.Data.{logon_confirm, logoff_request}
use dumphfdl.Lpdu.{lpdu_parse}
use dumphfdl.Lpdu.Logon.{with_address, good_lpdu, lpdu_parse-logon, lpdu_parse-logoff}
use dumphfdl.Mpdu.{mpdu_parse, mpdu_end}
use dumphfdl.Mpdu.Safety.{mpdu_parse-Safe}
use dumphfdl.Mpdu.Layout.{downlink, downlink_header, parse_each, mpdu_parse-downlink}
use dumphfdl.Json.Nesting.{FillsOr}
use dumphfdl.Format.Nesting.{Unanswered}
use dumphfdl.Lpdu.Format.{lpdu_format_json}
use dumphfdl.Lpdu.Nesting.{IsShown, NodeFits, lpdu_parse-NodeFits, lpdu_parse-Fills}
use dumphfdl.Tests.Formats.{unknown}
use dumphfdl.Tests.Instance.{services, empty_world, config}

abbrev header : HdrData
header = record { freq = 11384000; src_id = 3; dst_id = 7; direction = uplink_pdu; crc_ok = true }

logon_passes :
    hfdl_pdu_fcs_check (frame (with_address services 0x9f 0x4b1234 (7 ∷ 0 ∷ 0 ∷ 0 ∷ [])) 59 2 []) 8
    ≡ some true
unfolding hfdl_pdu_fcs_check crc16_ccitt reverse_byte
logon_passes = refl

abbrev logon : List ℕ
logon = frame (with_address services 0x9f 0x4b1234 (7 ∷ 0 ∷ 0 ∷ 0 ∷ [])) 59 2 []

lpdu_parse-logon_example :
    lpdu_parse services config empty_world logon header
    ≡ some (
      services.ac_cache_entry_create empty_world 11384000 7 0x4b1234,
      some (good_lpdu services logon header 0x9f (logon_confirm 0x4b1234 7)),
    )
lpdu_parse-logon_example =
    lpdu_parse-logon services config empty_world header 0x9f 0x4b1234 7 0 0 0 59 2 refl
      (omega arith) logon_passes

logoff_passes :
    hfdl_pdu_fcs_check (frame (with_address services 0x3f 0x4b1234 (1 ∷ [])) 250 235 []) 5
    ≡ some true
unfolding hfdl_pdu_fcs_check crc16_ccitt reverse_byte
logoff_passes = refl

abbrev logoff : List ℕ
logoff = frame (with_address services 0x3f 0x4b1234 (1 ∷ [])) 250 235 []

lpdu_parse-logoff_example :
    lpdu_parse services config empty_world logoff header
    ≡ some (
      services.ac_cache_entry_delete empty_world 11384000 0x4b1234,
      some (good_lpdu services logoff header 0x3f (logoff_request 0x4b1234 1)),
    )
lpdu_parse-logoff_example =
    lpdu_parse-logoff services config empty_world header 0x3f 0x4b1234 1 250 235 refl (omega arith)
      logoff_passes

-- An uplink for two aircraft that ends within its header.
mpdu_parse-Safe_example :
    Safe (mpdu_parse services config empty_world (0x10 ∷ 3 ∷ 7 ∷ 0x20 ∷ []) 11384000)
mpdu_parse-Safe_example =
    mpdu_parse-Safe services config empty_world (0x10 ∷ 3 ∷ 7 ∷ 0x20 ∷ []) 11384000
      (omega arith, (omega arith, (omega arith, (omega arith, _)))) (omega arith)

abbrev lpdus : List (List ℕ)
lpdus = (63 ∷ 210 ∷ 72 ∷ 44 ∷ 1 ∷ 250 ∷ 235 ∷ []) ∷ (143 ∷ 210 ∷ 72 ∷ 44 ∷ 54 ∷ 58 ∷ []) ∷ []

mpdu_passes :
    hfdl_pdu_fcs_check (downlink services config 10 5 7 0 0 0 175 74 lpdus []) 8 ≡ some true
unfolding hfdl_pdu_fcs_check crc16_ccitt
mpdu_passes = refl

mpdu_parse-downlink_example :
    mpdu_parse services config empty_world
      (downlink services config 10 5 7 0 0 0 175 74 lpdus [])
      11384000
    ≡ (parse_each services config lpdus
          (downlink_header services config 11384000 5 7)
          empty_world
          []
        >>= λ r. some (
            mpdu_end services config
              (downlink services config 10 5 7 0 0 0 175 74 lpdus [])
              (record {
                world = r.0;
                header = downlink_header services config 11384000 5 7;
                dst_aircraft = [];
                lpdu_list = r.1;
              })))
mpdu_parse-downlink_example =
    mpdu_parse-downlink services config empty_world 11384000 10 5 7 0 0 0 175 74 lpdus [] refl refl
      (omega arith, (omega arith, _)) mpdu_passes

lpdu_parse-Fills_example :
    FillsOr
      (Unanswered unknown
        (IsShown unknown (good_lpdu services logon header 0x9f (logon_confirm 0x4b1234 7)).msg))
      []
      []
      (lpdu_format_json unknown
        (good_lpdu services logon header 0x9f (logon_confirm 0x4b1234 7)).msg)
lpdu_parse-Fills_example =
    lpdu_parse-Fills unknown services config empty_world _ logon header _ [] (
      lpdu_parse-logon services config empty_world header 0x9f 0x4b1234 7 0 0 0 59 2 refl
        (omega arith) logon_passes)

lpdu_parse-NodeFits_example :
    Ensures (NodeFits services) (lpdu_parse services config empty_world logon header)
lpdu_parse-NodeFits_example = lpdu_parse-NodeFits services config empty_world logon header
