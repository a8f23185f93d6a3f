-- ===== src/Tests/Formats.antt =====
-- Runs of the JSON formatters, with no aircraft and no ground station known.
use dumphfdl.Common.{ℕ, ◌≡◌, refl, true, false, none, some, List, [], ◌∷◌, ◌++◌, replicate}
use dumphfdl.Pdu.{hfdl_pdu_fcs_check, downlink_pdu}
use dumphfdl.Json.Nesting.{Fills}
use dumphfdl.Format.{Lookups, ac_details_verbose}
use dumphfdl.AcData.{no_entry}
use dumphfdl.Hfnpdu.Data.{HfnpduMsg, hfnpdu}
use dumphfdl.Hfnpdu.{
  hfnpdu_parse, hfnpdu_switch, frequency_data_parse, location_at, prop_freqs_loop,
}
use dumphfdl.Hfnpdu.Fitting.{is_indexed, hfnpdu_parse-Fills}
use dumphfdl.Util.{copy_octets, extract_uint16_t}
use dumphfdl.Hfnpdu.Format.{hfnpdu_format_json}
use dumphfdl.Crc.{crc16_ccitt}
use dumphfdl.Spdu.{HfdlSpdu, squitter_fields, spdu_parse}
use dumphfdl.Spdu.Format.{spdu_format_json}
use dumphfdl.Spdu.Nesting.{spdu_parse-Fills}
use dumphfdl.Tests.Instance.{config, services, empty_world}

abbrev pub unknown : Lookups
unknown = record {
  World = Unit;
  Double = Unit;
  is_positive = λ d. false;
  systable_get_station_name = λ w gs_id. none;
  systable_get_station_frequency = λ w gs_id i. _;
  ac_cache_entry_lookup = λ w freq id. (w, some 0x4b1234);
  ac_data_entry_lookup = λ w addr. (w, some no_entry);
  la_dict_search = λ dict code. none;
  ac_data_available = true;
  ac_data_details = ac_details_verbose;
}

-- Frequency data with one propagating station.
abbrev freqs : List ℕ
freqs = 0xff ∷ 0xd5 ∷ replicate 13 0x41 ++ 7 ∷ 3 ∷ 0 ∷ 0x10 ∷ 0 ∷ 1 ∷ []

freqs_parsed :
    (msg : HfnpduMsg) × (hfnpdu_parse services empty_world freqs downlink_pdu
      ≡ some (empty_world, some (hfnpdu msg none)))
    × (is_indexed msg.contents ≡ true)
unfolding hfnpdu_parse hfnpdu_switch frequency_data_parse copy_octets location_at extract_uint16_t
    prop_freqs_loop
freqs_parsed = (_, refl, refl)

hfnpdu_parse-Fills_example : Fills [] [] (hfnpdu_format_json unknown freqs_parsed.0)
hfnpdu_parse-Fills_example =
    hfnpdu_parse-Fills services unknown empty_world empty_world freqs downlink_pdu freqs_parsed.0
      none [] freqs_parsed.1 freqs_parsed.2

abbrev squitter : List ℕ
squitter = replicate 64 0 ++ 148 ∷ 164 ∷ []

squitter_parsed : (spdu : HfdlSpdu) × (spdu_parse config squitter ≡ some (some spdu))
unfolding spdu_parse squitter_fields hfdl_pdu_fcs_check crc16_ccitt
squitter_parsed = (_, refl)

spdu_parse-Fills_example : Fills [] [] (spdu_format_json unknown squitter_parsed.0)
spdu_parse-Fills_example =
    spdu_parse-Fills unknown [] config squitter squitter_parsed.0 squitter_parsed.1
