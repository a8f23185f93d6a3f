-- ===== src/Fmtr.antt =====
-- The output formatters of src/fmtr-json.c, src/fmtr-text.c and src/fmtr-basestation.c: what they add
-- to the text of a tree of PDUs, and which positions they report. What printf and strftime
-- print of it is not modelled.
pub mod Timestamps
pub mod Lines
pub mod Reports
use Prim.Native.String.{String}
use dumphfdl.Common.{
  ℕ, ◌+◌, ◌-◌, ◌*◌, ◌/◌, Bool, true, false, ◌&&◌, Option, none, some, ◌>>=◌, List, [], ◌∷◌, ltb,
  if◌then◌else◌,
}
use dumphfdl.LaHash.{LaHash}
use dumphfdl.Cache.{Entry}
use dumphfdl.AcCache.{FwdKey, AcCacheEntry, InvEntry, AcCache}
use dumphfdl.Hfnpdu.Data.{Location, HfnpduNode}
use dumphfdl.Lpdu.Data.{LpduNode}
use dumphfdl.Position.{Tm, Calendar, PositionInfo, position_info_extract}
use dumphfdl.Json.{
  literal, octets, double, object_start, object_end, append_int64, append_double, append_string,
  append_char, Out, calls, ◌▸◌,
}

-- struct timeval
pub record Timeval : Type 0 where
  pub tv_sec : ℕ
  pub tv_usec : ℕ

-- struct hfdl_pdu_metadata of src/pdu.h, with the numbers that the demodulator measured.
pub record HfdlPduMetadata (D : Type 0) : Type 0 where
  pub rx_timestamp : Timeval
  pub freq : ℕ
  pub bit_rate : ℕ
  pub freq_err_hz : D
  pub rssi : D
  pub noise_floor : D
  pub slot : ℕ

module _ {W D : Type 0} where
  -- `version` is DUMPHFDL_VERSION, which the build generates.
  unfoldable pub hfdl_format_json : String → Option (List ℕ) → HfdlPduMetadata D → Out W D
  hfdl_format_json version station_id m =
      calls (
        object_start (some "app")
        ∷ append_string "name" (literal "dumphfdl")
        ∷ append_string "ver" (literal version)
        ∷ object_end
        ∷ [])
      ▸ calls (elim station_id [
        | none ↦ []
        | some station ↦ append_string "station" (octets station) ∷ []
      ])
      ▸ calls (
          object_start (some "t")
          ∷ append_int64 "sec" m.rx_timestamp.tv_sec
          ∷ append_int64 "usec" m.rx_timestamp.tv_usec
          ∷ object_end
          ∷ append_int64 "freq" m.freq
          ∷ append_int64 "bit_rate" m.bit_rate
          ∷ append_double "sig_level" (double m.rssi)
          ∷ append_double "noise_level" (double m.noise_floor)
          ∷ append_double "freq_skew" (double m.freq_err_hz)
          ∷ append_char "slot" m.slot
          ∷ [])

-- round(tv_usec / 1000.0): the nearest integer, a half upwards.
abbrev pub round_millis : ℕ → ℕ
round_millis tv_usec = (tv_usec + 500) / 1000

-- The seconds and milliseconds that format_timestamp of src/fmtr-text.c prints.
unfoldable pub rounded_time : Bool → Timeval → ℕ × ℕ
rounded_time false tv = (tv.tv_sec, 0)
rounded_time true tv =
    let millis = round_millis tv.tv_usec in
    if ltb 999 millis then (tv.tv_sec + 1, millis - 1000) else (tv.tv_sec, millis)

-- What printf is given for a message of Basestation.
pub record BasestationMsg (D : Type 0) : Type 0 where
  pub icao_address : Option ℕ
  pub timestamp : Tm D
  pub flight_id : List ℕ
  pub location : Location
  pub frequency : ℕ

abbrev pub position_max_age : ℕ
position_max_age = 300

module _ (c : Calendar) where
  -- The message for a position that is neither in the future nor too old.
  unfoldable pub basestation_msg :
      Bool → ℕ → ℕ → PositionInfo c.Date → Option (BasestationMsg c.Date)
  basestation_msg freq_as_squawk freq now pos_info =
      if ltb now pos_info.timestamp.t
      then none
      else if ltb (pos_info.timestamp.t + position_max_age) now
      then none
      else some (record {
        icao_address = pos_info.icao_address;
        timestamp = pos_info.timestamp.tm;
        flight_id = if pos_info.flight_id_present then pos_info.flight_id else [];
        location = pos_info.location;
        frequency = if freq_as_squawk then freq / 1000 else 0;
      })

  module _ (f : LaHash FwdKey (Entry AcCacheEntry)) (i : LaHash ℕ (Entry InvEntry)) where
    -- `now1` to `now3` are the times that the extraction reads, `now` the one read after it.
    unfoldable pub fmtr_basestation_format_decoded_msg :
        {S A : Type 0}
        → AcCache f i
        → c.Date
        → (HfnpduNode S A → Option (PositionInfo c.Date))
        → Bool
        → ℕ
        → LpduNode (HfnpduNode S A)
        → ℕ
        → ℕ
        → ℕ
        → ℕ
        → Option (AcCache f i × Option (BasestationMsg c.Date))
    fmtr_basestation_format_decoded_msg cache zero_date extract freq_as_squawk freq root now1 now2
          now3 now =
        do
          (cache', found) ← position_info_extract c f i cache zero_date extract root now1 now2 now3
          some (
            cache',
            elim found [
              | none ↦ none
              | some pos_info ↦ basestation_msg freq_as_squawk freq now pos_info
            ],
          )
