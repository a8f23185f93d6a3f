-- ===== src/Hfnpdu/Format.antt =====
-- src/hfnpdu.c: the JSON formatters.
use Prim.Native.String.{String}
use dumphfdl.Common.{
  ℕ, zero, suc, ◌+◌, true, false, none, some, List, [], ◌∷◌, ◌++◌, ◌==◌, if◌then◌else◌,
}
use dumphfdl.Json.{
  octets, degrees, Event, object_start, object_end, array_start, array_end, append_int64,
  append_bool, append_double, append_string, calls, ◌▸◌, ask, defined, fault,
}
use dumphfdl.Util.{shift_left}
use dumphfdl.Format.{
  Lookups, Format, described, gs_id_format_json, freq_json, freq_list_format_json,
}
use dumphfdl.Hfnpdu.Data.{
  Time, Location, MpduStats, PerfData, PropFreqs, FreqData, SystableData, HfnpduData, perf_data,
  freq_data, systable_request_data, systable_data, HfnpduMsg,
}

abbrev pub hfnpdu_type_descriptions : List (ℕ × String)
hfnpdu_type_descriptions =
    (0xd0, "System table (partial)")
    ∷ (0xd1, "Performance data")
    ∷ (0xd2, "System table request")
    ∷ (0xd5, "Frequency data")
    ∷ (0xde, "Delayed echo")
    ∷ (0xff, "Enveloped data")
    ∷ []

abbrev pub freq_change_code_descriptions : List (ℕ × String)
freq_change_code_descriptions =
    (0, "First freq. search in this flight leg")
    ∷ (1, "Too many NACKs")
    ∷ (2, "SPDUs no longer received")
    ∷ (3, "HFDL disabled")
    ∷ (4, "GS frequency change")
    ∷ (5, "GS down / channel down")
    ∷ (6, "Poor uplink channel quality")
    ∷ (7, "No change")
    ∷ []

-- An entry of the array that was not filled in.
abbrev pub zero_prop_freqs : PropFreqs
zero_prop_freqs = record { gs_id = 0; prop_freqs = 0; tuned_freqs = 0 }

module _ (l : Lookups) where
  unfoldable pub mpdu_stats_format_json : MpduStats → String → List (Event l.Double)
  mpdu_stats_format_json stats label =
      object_start (some label)
      ∷ append_int64 "300bps" stats.cnt_300bps
      ∷ append_int64 "600bps" stats.cnt_600bps
      ∷ append_int64 "1200bps" stats.cnt_1200bps
      ∷ append_int64 "1800bps" stats.cnt_1800bps
      ∷ object_end
      ∷ []

  -- The position and the time, which performance and frequency data share.
  abbrev pub pos_json : Location → List (Event l.Double)
  pos_json location =
      object_start (some "pos")
      ∷ append_double "lat" (degrees location.lat)
      ∷ append_double "lon" (degrees location.lon)
      ∷ object_end
      ∷ []

  abbrev pub time_json : String → Time → List (Event l.Double)
  time_json label t =
      object_start (some label)
      ∷ append_int64 "hour" t.hour
      ∷ append_int64 "min" t.min
      ∷ append_int64 "sec" t.sec
      ∷ object_end
      ∷ []

  abbrev pub frequency_json : ℕ → ℕ → Format l
  frequency_json gs_id freq_id =
      calls (object_start (some "frequency") ∷ [])
      ▸ defined (shift_left 1 freq_id) (λ id. calls (append_int64 "id" id ∷ []))
      ▸ ask (λ w. (w, l.systable_get_station_frequency w gs_id freq_id))
          (λ f. calls (freq_json l f) ▸ calls (object_end ∷ []))

  unfoldable pub performance_data_format_json : PerfData → Format l
  unfolding mpdu_stats_format_json
  performance_data_format_json pdu =
      calls (
        append_int64 "version" pdu.version
          ∷ append_string "flight_id" (octets pdu.flight_id)
          ∷ pos_json pdu.location
        ++ (time_json "time" pdu.utc_time ++ append_int64 "flight_leg_num" pdu.flight_leg ∷ []))
      ▸ gs_id_format_json l "gs" pdu.gs_id
      ▸ frequency_json pdu.gs_id pdu.freq_id
      ▸ calls (
          object_start (some "freq_search_cnt")
            ∷ append_int64 "cur_leg" pdu.cur_leg.freq_search_cnt
            ∷ append_int64 "prev_leg" pdu.prev_leg.freq_search_cnt
            ∷ object_end
            ∷ object_start (some "hfdl_disabled_duration")
            ∷ append_int64 "this_leg" pdu.cur_leg.hf_data_disabled_duration
            ∷ append_int64 "prev_leg" pdu.prev_leg.hf_data_disabled_duration
            ∷ object_end
            ∷ object_start (some "pdu_stats")
            ∷ mpdu_stats_format_json pdu.mpdus_rx "mpdus_rx_ok_cnt"
          ++ (mpdu_stats_format_json pdu.mpdus_rx_errs "mpdus_rx_err_cnt"
              ++ (mpdu_stats_format_json pdu.mpdus_tx "mpdus_tx_cnt"
                  ++ (mpdu_stats_format_json pdu.mpdus_delivered "mpdus_delivered_cnt"
                      ++ append_int64 "spdus_rx_ok_cnt" pdu.spdus_rx
                        ∷ append_int64 "spdus_missed_cnt" pdu.spdus_rx_errs
                        ∷ object_end
                        ∷ object_start (some "last_freq_change_cause")
                        ∷ append_int64 "code" pdu.freq_change_code
                        ∷ append_string "descr" (
                            described l freq_change_code_descriptions "unknown"
                              pdu.freq_change_code)
                        ∷ object_end
                        ∷ []))))

  unfoldable pub systable_format_json : SystableData → Format l
  systable_format_json d = calls (
      append_int64 "version" d.systable_version
      ∷ object_start (some "systable_partial")
      ∷ append_int64 "part_num" (d.pdu_seq_num + 1)
      ∷ append_int64 "parts_cnt" d.total_pdu_cnt
      ∷ object_end
      ∷ [])

  unfoldable pub systable_request_format_json : ℕ → Format l
  systable_request_format_json request_data = calls (append_int64 "request_data" request_data ∷ [])

  -- An element of an array: the label is NULL.
  unfoldable pub propagating_freqs_format_json : PropFreqs → Format l
  propagating_freqs_format_json d =
      calls (object_start none ∷ [])
      ▸ gs_id_format_json l "gs" d.gs_id
      ▸ freq_list_format_json l "listening_on_freqs" d.gs_id d.tuned_freqs
      ▸ freq_list_format_json l "heard_on_freqs" d.gs_id d.prop_freqs
      ▸ calls (object_end ∷ [])

  -- The loop over the array, with the rounds left.
  unfoldable pub propagating_freqs_loop : ℕ → List PropFreqs → Format l
  unfolding propagating_freqs_format_json
  propagating_freqs_loop zero entries = calls []
  propagating_freqs_loop (suc n) [] =
      propagating_freqs_format_json zero_prop_freqs ▸ propagating_freqs_loop n []
  propagating_freqs_loop (suc n) (entry ∷ entries) =
      propagating_freqs_format_json entry ▸ propagating_freqs_loop n entries

  unfoldable pub frequency_data_format_json : FreqData → Format l
  unfolding propagating_freqs_loop
  frequency_data_format_json pdu =
      calls (
        append_string "flight_id" (octets pdu.flight_id) ∷ pos_json pdu.location
        ++ (time_json "utc_time" pdu.utc_time ++ array_start "freq_data" ∷ []))
      ▸ propagating_freqs_loop pdu.propagating_freqs_cnt pdu.propagating_freqs
      ▸ calls (array_end ∷ [])

  -- The members of the union, which the type selects. hfnpdu_parse fills in the one of the type;
  -- a read of another one is a fault.
  abbrev pub as_systable_data : HfnpduData → Format l
  as_systable_data (systable_data d) = systable_format_json d
  as_systable_data other = fault

  abbrev pub as_perf_data : HfnpduData → Format l
  as_perf_data (perf_data d) = performance_data_format_json d
  as_perf_data other = fault

  abbrev pub as_systable_request_data : HfnpduData → Format l
  as_systable_request_data (systable_request_data d) = systable_request_format_json d
  as_systable_request_data other = fault

  abbrev pub as_freq_data : HfnpduData → Format l
  as_freq_data (freq_data d) = frequency_data_format_json d
  as_freq_data other = fault

  -- The switch on the type.
  abbrev pub contents_json : ℕ → HfnpduData → Format l
  contents_json type_id contents =
      if type_id == 0xd0
      then as_systable_data contents
      else if type_id == 0xd1
      then as_perf_data contents
      else if type_id == 0xd2
      then as_systable_request_data contents
      else if type_id == 0xd5
      then as_freq_data contents
      else calls []

  unfoldable pub hfnpdu_format_json : HfnpduMsg → Format l
  hfnpdu_format_json msg =
      if msg.err
      then calls (append_bool "err" true ∷ [])
      else calls (
          append_bool "err" false
          ∷ object_start (some "type")
          ∷ append_int64 "id" msg.type_id
          ∷ append_string "name" (described l hfnpdu_type_descriptions "unknown" msg.type_id)
          ∷ object_end
          ∷ [])
        ▸ contents_json msg.type_id msg.contents
