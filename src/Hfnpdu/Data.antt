-- ===== src/Hfnpdu/Data.antt =====
-- The structures of src/hfnpdu.c. An unsigned field of w bits is a number; a location holds the
-- integers from which parse_coordinate computes degrees.
use dumphfdl.Common.{ℕ, Bool, Option, List, [], replicate}
use dumphfdl.Util.{Signed, plus}

pub record Time : Type 0 where
  pub hour : ℕ
  pub min : ℕ
  pub sec : ℕ

pub record Location : Type 0 where
  pub lat : Signed
  pub lon : Signed

pub record FlightLegStats : Type 0 where
  pub freq_search_cnt : ℕ
  pub hf_data_disabled_duration : ℕ

pub record MpduStats : Type 0 where
  pub cnt_1800bps : ℕ
  pub cnt_1200bps : ℕ
  pub cnt_600bps : ℕ
  pub cnt_300bps : ℕ

pub record PerfData : Type 0 where
  pub flight_id : List ℕ
  pub location : Location
  pub utc_time : Time
  pub version : ℕ
  pub flight_leg : ℕ
  pub gs_id : ℕ
  pub freq_id : ℕ
  pub prev_leg : FlightLegStats
  pub cur_leg : FlightLegStats
  pub mpdus_rx : MpduStats
  pub mpdus_rx_errs : MpduStats
  pub mpdus_tx : MpduStats
  pub mpdus_delivered : MpduStats
  pub spdus_rx : ℕ
  pub spdus_rx_errs : ℕ
  pub freq_change_code : ℕ

pub record PropFreqs : Type 0 where
  pub gs_id : ℕ
  pub prop_freqs : ℕ
  pub tuned_freqs : ℕ

-- `propagating_freqs` holds the entries that were filled in, the array's first ones.
pub record FreqData : Type 0 where
  pub flight_id : List ℕ
  pub propagating_freqs_cnt : ℕ
  pub location : Location
  pub utc_time : Time
  pub propagating_freqs : List PropFreqs

pub record SystableData : Type 0 where
  pub systable_version : ℕ
  pub total_pdu_cnt : ℕ
  pub pdu_seq_num : ℕ

-- The zeroed structures that XCALLOC gives; an empty flight ID is seven zero octets.
abbrev zero_location : Location
zero_location = record { lat = plus 0; lon = plus 0 }

abbrev zero_time : Time
zero_time = record { hour = 0; min = 0; sec = 0 }

abbrev zero_leg : FlightLegStats
zero_leg = record { freq_search_cnt = 0; hf_data_disabled_duration = 0 }

abbrev zero_stats : MpduStats
zero_stats = record { cnt_1800bps = 0; cnt_1200bps = 0; cnt_600bps = 0; cnt_300bps = 0 }

abbrev pub zero_perf_data : PerfData
zero_perf_data = record {
  flight_id = replicate 7 0;
  location = zero_location;
  utc_time = zero_time;
  version = 0;
  flight_leg = 0;
  gs_id = 0;
  freq_id = 0;
  prev_leg = zero_leg;
  cur_leg = zero_leg;
  mpdus_rx = zero_stats;
  mpdus_rx_errs = zero_stats;
  mpdus_tx = zero_stats;
  mpdus_delivered = zero_stats;
  spdus_rx = 0;
  spdus_rx_errs = 0;
  freq_change_code = 0;
}

abbrev pub zero_freq_data : FreqData
zero_freq_data = record {
  flight_id = replicate 7 0;
  propagating_freqs_cnt = 0;
  location = zero_location;
  utc_time = zero_time;
  propagating_freqs = [];
}

abbrev pub zero_systable_data : SystableData
zero_systable_data = record { systable_version = 0; total_pdu_cnt = 0; pdu_seq_num = 0 }

-- The union; `no_data` is that of a type with no structure.
pub data HfnpduData : Type 0 where
  no_data : HfnpduData
  perf_data : PerfData → HfnpduData
  freq_data : FreqData → HfnpduData
  systable_request_data : ℕ → HfnpduData
  systable_data : SystableData → HfnpduData

pub record HfnpduMsg : Type 0 where
  pub type_id : ℕ
  pub err : Bool
  pub contents : HfnpduData

-- What a field parser returns: -1, or the number of octets consumed beside its result.
pub data Parsed (A : Type 0) : Type 0 where
  too_short : Parsed A
  parsed : A → ℕ → Parsed A

-- The protocol node after an HFNPDU.
pub data Next (S A : Type 0) : Type 0 where
  systable_complete : S → Next S A
  acars : A → Next S A
  unknown_data : List ℕ → Next S A

-- The protocol tree that hfnpdu_parse returns.
pub data HfnpduNode (S A : Type 0) : Type 0 where
  unknown_proto : List ℕ → HfnpduNode S A
  hfnpdu : HfnpduMsg → Option (Next S A) → HfnpduNode S A
