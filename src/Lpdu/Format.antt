-- ===== src/Lpdu/Format.antt =====
-- src/lpdu.c: the JSON formatter.
use Prim.Native.String.{String}
use dumphfdl.Common.{ℕ, true, false, some, List, [], ◌∷◌, ◌==◌, if◌then◌else◌}
use dumphfdl.Pdu.{Direction, uplink_pdu, downlink_pdu, HdrData}
use dumphfdl.Json.{
  object_start, object_end, append_int64, append_bool, append_string, calls, ◌▸◌, fault,
}
use dumphfdl.Format.{
  Lookups, Format, described, gs_id_format_json, ac_id_format_json, ac_data_format_json,
}
use dumphfdl.Lpdu.{is_logoff, is_confirm, is_request}
use dumphfdl.Lpdu.Data.{LpduData, logon_request, logon_confirm, logoff_request, LpduMsg}

abbrev pub lpdu_type_descriptions : List (ℕ × String)
lpdu_type_descriptions =
    (0x0d, "Unnumbered data")
    ∷ (0x1d, "Unnumbered ack'ed data")
    ∷ (0x2f, "Logon denied")
    ∷ (0x3f, "Logoff request")
    ∷ (0x5f, "Logon resume confirm")
    ∷ (0x4f, "Logon resume")
    ∷ (0x8f, "Logon request (normal)")
    ∷ (0x9f, "Logon confirm")
    ∷ (0xbf, "Logon request (DLS)")
    ∷ []

abbrev pub logoff_request_reason_codes : List (ℕ × String)
logoff_request_reason_codes =
    (0x01, "Not within slot boundaries")
    ∷ (0x02, "Downlink set in uplink slot")
    ∷ (0x03, "RLS protocol error")
    ∷ (0x04, "Invalid aircraft ID")
    ∷ (0x05, "HFDL Ground Station subsystem does not support RLS")
    ∷ (0x06, "Other")
    ∷ []

abbrev pub logon_denied_reason_codes : List (ℕ × String)
logon_denied_reason_codes =
    (0x01, "Aircraft ID not available")
    ∷ (0x02, "HFDL Ground Station subsystem does not support RLS")
    ∷ []

abbrev pub reason_codes : ℕ → List (ℕ × String)
reason_codes type_id =
    if type_id == 0x2f then logon_denied_reason_codes else logoff_request_reason_codes

module _ (l : Lookups) where
  abbrev pub addresses_json : Direction → HdrData → Format l
  addresses_json uplink_pdu header =
      gs_id_format_json l "src" header.src_id ▸ ac_id_format_json l "dst" header.freq header.dst_id
  addresses_json downlink_pdu header =
      ac_id_format_json l "src" header.freq header.src_id ▸ gs_id_format_json l "dst" header.dst_id

  -- The members of the union, which the type selects. lpdu_parse fills in the one of the type; a
  -- read of another one is a fault.
  abbrev pub logoff_json : ℕ → LpduData → Format l
  logoff_json type_id (logoff_request icao_address reason_code) =
      ac_data_format_json l "ac_info" icao_address
      ▸ calls (
          object_start (some "reason")
          ∷ append_int64 "code" reason_code
          ∷ append_string "descr" (described l (reason_codes type_id) "Reserved" reason_code)
          ∷ object_end
          ∷ [])
  logoff_json type_id other = fault

  abbrev pub confirm_json : LpduData → Format l
  confirm_json (logon_confirm icao_address ac_id) =
      ac_data_format_json l "ac_info" icao_address
      ▸ calls (append_int64 "assigned_ac_id" ac_id ∷ [])
  confirm_json other = fault

  abbrev pub request_json : LpduData → Format l
  request_json (logon_request icao_address) = ac_data_format_json l "ac_info" icao_address
  request_json other = fault

  -- The switch on the type.
  abbrev pub contents_json : ℕ → LpduData → Format l
  contents_json type_id contents =
      if is_logoff type_id
      then logoff_json type_id contents
      else if is_confirm type_id
      then confirm_json contents
      else if is_request type_id
      then request_json contents
      else calls []

  unfoldable pub lpdu_format_json : LpduMsg → Format l
  lpdu_format_json msg =
      if msg.err
      then calls (append_bool "err" true ∷ [])
      else calls (append_bool "err" false ∷ [])
        ▸ addresses_json msg.mpdu_header.direction msg.mpdu_header
        ▸ calls (
            object_start (some "type")
            ∷ append_int64 "id" msg.type_id
            ∷ append_string "name" (described l lpdu_type_descriptions "unknown" msg.type_id)
            ∷ object_end
            ∷ [])
        ▸ contents_json msg.type_id msg.contents
