-- ===== src/Hfnpdu.antt =====
-- src/hfnpdu.c: the parsers of HFNPDUs, and acars_parse of src/acars.c. Its child
-- Format is the JSON formatter.
pub mod Data
pub mod Safety
pub mod Format
pub mod Nesting
pub mod Fitting
use dumphfdl.Common.{
  ℕ, zero, suc, ◌+◌, ◌-◌, ◌*◌, ◌/◌, ◌%◌, ◌^◌, bit_or, Bool, true, false, ◌&&◌, Option, none, some,
  ◌>>=◌, peek, List, [], ◌∷◌, ◌++◌, length, drop, ◌==◌, ltb, leb, if◌then◌else◌, not,
}
use dumphfdl.Util.{coordinate, low_field, high_field, extract_uint16_t, copy_octets}
use dumphfdl.Pdu.{Direction}
use dumphfdl.Services.{Services}
use Data.{
  Time, Location, MpduStats, PerfData, PropFreqs, FreqData, SystableData, HfnpduData, no_data,
  perf_data, freq_data, systable_request_data, systable_data, Parsed, too_short, parsed, HfnpduMsg,
  zero_perf_data, zero_freq_data, zero_systable_data, Next, systable_complete, acars, unknown_data,
  HfnpduNode, unknown_proto, hfnpdu,
}

unfoldable pub parse_utc_time : ℕ → Time
parse_utc_time t = record {
  hour = t / (60 * 60) % 2 ^ 8;
  min = t % (60 * 60) / 60 % 2 ^ 8;
  sec = t % 60 % 2 ^ 8;
}

unfoldable pub systable_parse : List ℕ → Option (Parsed SystableData)
systable_parse buf = if ltb (length buf) 5 then some too_short else do
  b2 ← peek buf 2
  b3 ← peek buf 3
  b4 ← peek buf 4
  some (
      parsed
        (record {
          systable_version = bit_or (b3 / 2 ^ 4) (b4 * 2 ^ 4);
          total_pdu_cnt = b2 / 2 ^ 4 + 1;
          pdu_seq_num = b2 % 2 ^ 4;
        })
        5)

unfoldable pub systable_request_parse : List ℕ → Option (Parsed ℕ)
systable_request_parse buf =
    if ltb (length buf) 4
    then some too_short
    else do request_data ← extract_uint16_t buf 2; some (parsed request_data 4)

-- The coordinates at octets 8 to 12, which performance and frequency data share.
unfoldable pub location_at : List ℕ → ℕ → Option Location
location_at buf pos = do
  b0 ← peek buf pos
  b1 ← peek buf (pos + 1)
  b2 ← peek buf (pos + 2)
  b3 ← peek buf (pos + 3)
  b4 ← peek buf (pos + 4)
  some (record { lat = coordinate (low_field b0 b1 b2); lon = coordinate (high_field b2 b3 b4) })

unfoldable pub mpdu_stats_at : List ℕ → ℕ → Option MpduStats
mpdu_stats_at buf pos = do
  a ← peek buf pos
  b ← peek buf (pos + 1)
  c ← peek buf (pos + 2)
  d ← peek buf (pos + 3)
  some (record { cnt_1800bps = a; cnt_1200bps = b; cnt_600bps = c; cnt_300bps = d })

-- The fields of performance data, behind its length check.
unfoldable pub performance_data_fields : List ℕ → Option PerfData
performance_data_fields buf = do
  flight_id ← copy_octets 6 buf 2
  location ← location_at buf 8
  time ← extract_uint16_t buf 13
  version ← peek buf 15
  flight_leg ← peek buf 16
  gs_id ← peek buf 17
  freq_id ← peek buf 18
  prev_search ← extract_uint16_t buf 19
  cur_search ← extract_uint16_t buf 21
  prev_disabled ← extract_uint16_t buf 23
  cur_disabled ← extract_uint16_t buf 25
  mpdus_rx ← mpdu_stats_at buf 27
  mpdus_rx_errs ← mpdu_stats_at buf 31
  spdus_rx ← extract_uint16_t buf 35
  spdus_rx_errs ← peek buf 37
  mpdus_tx ← mpdu_stats_at buf 38
  mpdus_delivered ← mpdu_stats_at buf 42
  freq_change_code ← peek buf 46
  some (record {
    flight_id = flight_id ++ 0 ∷ [];
    location = location;
    utc_time = parse_utc_time (2 * time);
    version = version;
    flight_leg = flight_leg;
    gs_id = gs_id % 2 ^ 7;
    freq_id = freq_id;
    prev_leg = record { freq_search_cnt = prev_search; hf_data_disabled_duration = prev_disabled };
    cur_leg = record { freq_search_cnt = cur_search; hf_data_disabled_duration = cur_disabled };
    mpdus_rx = mpdus_rx;
    mpdus_rx_errs = mpdus_rx_errs;
    mpdus_tx = mpdus_tx;
    mpdus_delivered = mpdus_delivered;
    spdus_rx = spdus_rx;
    spdus_rx_errs = spdus_rx_errs;
    freq_change_code = freq_change_code % 2 ^ 4;
  })

unfoldable pub performance_data_parse : List ℕ → Option (Parsed PerfData)
unfolding performance_data_fields
performance_data_parse buf =
    if ltb (length buf) 47
    then some too_short
    else (do result ← performance_data_fields buf; some (parsed result 47))

unfoldable pub prop_freqs_at : List ℕ → ℕ → Option PropFreqs
prop_freqs_at buf pos = do
  b0 ← peek buf pos
  b1 ← peek buf (pos + 1)
  b2 ← peek buf (pos + 2)
  b3 ← peek buf (pos + 3)
  b4 ← peek buf (pos + 4)
  b5 ← peek buf (pos + 5)
  some (record {
    gs_id = b0 % 2 ^ 7;
    prop_freqs = low_field b1 b2 b3;
    tuned_freqs = high_field b3 b4 b5;
  })

-- The loop, with the rounds left: the entries from `pos` on, and consumed_len after them.
unfoldable pub prop_freqs_loop : ℕ → List ℕ → ℕ → Option (List PropFreqs × ℕ)
unfolding prop_freqs_at
prop_freqs_loop zero buf pos = some ([], pos)
prop_freqs_loop (suc rounds) buf pos =
    let more : Option (List PropFreqs × ℕ) = (do
      entry ← prop_freqs_at buf pos
      (entries, consumed_len) ← prop_freqs_loop rounds buf (pos + 6)
      some (entry ∷ entries, consumed_len)) in
    if leb (pos + 6) (length buf) then more else some ([], pos)

unfoldable pub frequency_data_parse : List ℕ → Option (Parsed FreqData)
frequency_data_parse buf = if ltb (length buf) 15 then some too_short else do
  flight_id ← copy_octets 6 buf 2
  location ← location_at buf 8
  time ← extract_uint16_t buf 13
  (entries, consumed_len) ← prop_freqs_loop 6 buf 15
  some (
      parsed
        (record {
          flight_id = flight_id ++ 0 ∷ [];
          propagating_freqs_cnt = length entries;
          location = location;
          utc_time = parse_utc_time (2 * time);
          propagating_freqs = entries;
        })
        consumed_len)

-- `hfnpdu->data` and `hfnpdu->err` from what a field parser returned. A parser that returns -1
-- leaves the zeroed structure as it was.
abbrev pub filled : {A : Type 0} → ℕ → A → (A → HfnpduData) → Parsed A → HfnpduMsg
filled type_id zeroed f too_short = record { type_id = type_id; err = true; contents = f zeroed }
filled type_id zeroed f (parsed a consumed_len) = record {
  type_id = type_id;
  err = false;
  contents = f a;
}

module _ (s : Services) where
  -- acars_parse of src/acars.c
  unfoldable pub acars_parse : s.World → List ℕ → Direction → s.World × Option s.AcarsMsg
  acars_parse w [] direction = (w, none)
  acars_parse w (b ∷ bytes) direction =
      if b == 1 then s.la_acars_parse_and_reassemble w bytes direction else (w, none)

  abbrev pub Node : Type 0
  Node = HfnpduNode s.SystableMsg s.AcarsMsg

  -- case SYSTEM_TABLE
  unfoldable pub system_table_case : s.World → List ℕ → Option (s.World × Option Node)
  system_table_case w buf = do
    r ← systable_parse buf
    some (elim r [
      | too_short ↦ (w, some (hfnpdu (filled 0xd0 zero_systable_data systable_data too_short) none))
      | parsed d consumed_len ↦
          let msg = filled 0xd0 zero_systable_data systable_data (parsed d consumed_len) in
          if ltb consumed_len (length buf)
          then (let w1 =
                s.systable_store_pdu w d.systable_version d.pdu_seq_num d.total_pdu_cnt
                  (drop consumed_len buf) in
              let (w2, table) = s.systable_process_pdu_set w1 in
              (
                w2,
                some
                    (hfnpdu msg (elim table [ none ↦ none | some t ↦ some (systable_complete t) ])),
              ))
          else (w, some (hfnpdu msg none))
    ])

  -- case ENVELOPED_DATA
  unfoldable pub enveloped_case : s.World → List ℕ → Direction → s.World × Option Node
  unfolding acars_parse
  enveloped_case w buf direction =
      let msg : HfnpduMsg = record { type_id = 0xff; err = false; contents = no_data } in
      let (w', node) = acars_parse w (drop 2 buf) direction in
      (
        w',
        some (
            hfnpdu msg
              (elim node [ none ↦ some (unknown_data (drop 2 buf)) | some a ↦ some (acars a) ])),
      )

  -- The switch on the HFNPDU type.
  unfoldable pub hfnpdu_switch : s.World → List ℕ → Direction → ℕ → Option (s.World × Option Node)
  unfolding system_table_case enveloped_case
  hfnpdu_switch w buf direction type_id =
      if type_id == 0xd0
      then system_table_case w buf
      else if type_id == 0xd1
      then (do
        r ← performance_data_parse buf
        some (w, some (hfnpdu (filled type_id zero_perf_data perf_data r) none)))
      else if type_id == 0xd2
      then (do
        r ← systable_request_parse buf
        some (w, some (hfnpdu (filled type_id 0 systable_request_data r) none)))
      else if type_id == 0xd5
      then (do
        r ← frequency_data_parse buf
        some (w, some (hfnpdu (filled type_id zero_freq_data freq_data r) none)))
      else if type_id == 0xff
      then some (enveloped_case w buf direction)
      else some
          (w, some (hfnpdu (record { type_id = type_id; err = false; contents = no_data }) none))

  unfoldable pub hfnpdu_parse : s.World → List ℕ → Direction → Option (s.World × Option Node)
  hfnpdu_parse w [] direction = some (w, none)
  hfnpdu_parse w (b0 ∷ rest) direction =
      let buf = b0 ∷ rest in
      if not (b0 == 0xff)
      then some (w, some (unknown_proto buf))
      else if ltb (length buf) 2
      then some (w, none)
      else (do type_id ← peek buf 1; hfnpdu_switch w buf direction type_id)
