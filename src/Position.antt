-- ===== src/Position.antt =====
-- src/position.c, and the extraction of positions from the protocol trees in src/hfnpdu.c and
-- src/lpdu.c. The calendar of the C library is a parameter, with a date left opaque. A time before
-- the epoch is not represented: the subtractions of date_yesterday stop at 0.
pub mod Timestamps
pub mod Extraction
use dumphfdl.Common.{
  ℕ, ◌+◌, ◌-◌, ◌*◌, ◌≡◌, ◌≤◌, ◌<◌, Bool, true, false, ◌&&◌, ◌||◌, not, Option, none, some, ◌>>=◌,
  List, get_or, ◌==◌, ltb, leb, if◌then◌else◌,
}
use dumphfdl.LaHash.{LaHash}
use dumphfdl.Cache.{Entry}
use dumphfdl.AcCache.{FwdKey, AcCacheEntry, InvEntry, AcCache, ac_cache_entry_lookup}
use dumphfdl.Util.{Signed, plus, minus}
use dumphfdl.Pdu.{Direction, uplink_pdu, downlink_pdu}
use dumphfdl.Hfnpdu.Data.{
  Time, Location, HfnpduMsg, perf_data, freq_data, HfnpduNode, unknown_proto, hfnpdu,
}
use dumphfdl.Lpdu.Data.{LpduData, logon_request, LpduNode}
use dumphfdl.Lpdu.{is_request}

-- struct tm, with the year, the month and the day as one date.
pub record Tm (D : Type 0) : Type 0 where
  pub date : D
  pub hour : ℕ
  pub min : ℕ
  pub sec : ℕ

-- gmtime_r, timegm and mktime, and what the first two are documented to do.
pub record Calendar : Type 1 where
  pub Date : Type 0
  -- The days from the epoch to a date.
  pub day : Date → ℕ
  pub gmtime : ℕ → Tm Date
  pub timegm : Tm Date → ℕ
  pub mktime : Tm Date → ℕ
  pub timegm_lem :
      (t : Tm Date) → timegm t ≡ day t.date * 86400 + t.hour * 3600 + t.min * 60 + t.sec
  pub timegm-gmtime : (t : ℕ) → timegm (gmtime t) ≡ t
  pub hour-gmtime : (t : ℕ) → (gmtime t).hour < 24
  pub min-gmtime : (t : ℕ) → (gmtime t).min < 60
  pub sec-gmtime : (t : ℕ) → (gmtime t).sec < 60

-- struct timestamp
pub record Timestamp (D : Type 0) : Type 0 where
  pub t : ℕ
  pub tm : Tm D
  pub tm_sec_present : Bool
  pub tm_min_present : Bool
  pub tm_hour_present : Bool
  pub tm_date_present : Bool

-- struct ac_info and struct position, of struct position_info; an absent address is none, and
-- flight_id_present tells of the octets in flight_id.
pub record PositionInfo (D : Type 0) : Type 0 where
  pub flight_id : List ℕ
  pub flight_id_present : Bool
  pub icao_address : Option ℕ
  pub timestamp : Timestamp D
  pub location : Location

module _ (c : Calendar) where
  unfoldable pub date_yesterday : Tm c.Date → Tm c.Date
  date_yesterday now =
      let day_seconds_elapsed = now.hour * 3600 + now.min * 60 + now.sec in
      c.gmtime (c.mktime now - day_seconds_elapsed - 10)

  -- The hour that is filled in: this one, or the one before.
  unfoldable pub fixup_hour : Tm c.Date → Tm c.Date → ℕ
  fixup_hour tm_pos tm_now =
      if ltb tm_pos.min tm_now.min || (tm_pos.min == tm_now.min && leb tm_pos.sec tm_now.sec)
      then tm_now.hour
      else if ltb 0 tm_now.hour
      then tm_now.hour - 1
      else 23

  -- The missing fields, before the result is compared with the time.
  unfoldable pub filled_in : Timestamp c.Date → Tm c.Date → Tm c.Date
  unfolding fixup_hour
  filled_in ts tm_now =
      let tm0 = if ts.tm_sec_present then ts.tm else record ts.tm { sec = 0 } in
      let tm1 = if ts.tm_hour_present then tm0 else record tm0 { hour = fixup_hour tm0 tm_now } in
      if ts.tm_date_present then tm1 else record tm1 { date = tm_now.date }

  abbrev pub stamped : Tm c.Date → Timestamp c.Date
  stamped tm = record {
    t = c.timegm tm;
    tm = tm;
    tm_sec_present = true;
    tm_min_present = true;
    tm_hour_present = true;
    tm_date_present = true;
  }

  -- `now` is what time(NULL) returns. None is the failed assertion that minutes are present.
  unfoldable pub fixup_timestamp : Timestamp c.Date → ℕ → Option (Timestamp c.Date)
  fixup_timestamp ts now =
      let tm_now = c.gmtime now in
      let tm_pos = filled_in ts tm_now in
      let tm' =
        if ltb now (c.timegm tm_pos)
        then record tm_pos { date = (date_yesterday tm_now).date }
        else tm_pos in
      if ts.tm_min_present then some (stamped tm') else none

  -- The timestamp of a performance or frequency data message; the date is as allocated, zeroed.
  abbrev pub time_of : c.Date → Time → Timestamp c.Date
  time_of zero_date utc = record {
    t = 0;
    tm = record { date = zero_date; hour = utc.hour; min = utc.min; sec = utc.sec };
    tm_sec_present = true;
    tm_min_present = true;
    tm_hour_present = true;
    tm_date_present = false;
  }

  abbrev pub reported : c.Date → List ℕ → Time → Location → PositionInfo c.Date
  reported zero_date flight_id utc location = record {
    flight_id = flight_id;
    flight_id_present = not (get_or flight_id 0 0 == 0);
    icao_address = none;
    timestamp = time_of zero_date utc;
    location = location;
  }

  -- The search in the tree that libacars parsed is a parameter.
  unfoldable pub hfnpdu_position_info_extract :
      {S A : Type 0}
      → c.Date
      → (HfnpduNode S A → Option (PositionInfo c.Date))
      → HfnpduNode S A
      → Option (PositionInfo c.Date)
  hfnpdu_position_info_extract zero_date acars_position_info_extract (unknown_proto buf) = none
  hfnpdu_position_info_extract zero_date acars_position_info_extract (hfnpdu msg next) =
      elim msg.contents [
        | perf_data d ↦ some (reported zero_date d.flight_id d.utc_time d.location)
        | freq_data d ↦ some (reported zero_date d.flight_id d.utc_time d.location)
        | _ ↦ if msg.type_id == 0xff then acars_position_info_extract (hfnpdu msg next) else none
      ]

  -- fabs(lat) <= 90.0 and fabs(lon) <= 180.0, where a degree is 0x7ffff / 180: half a circle is
  -- exact, and 90 degrees lie between 262143 and 262144.
  abbrev pub magnitude : Signed → ℕ
  magnitude (plus n) = n
  magnitude (minus n) = n + 1

  unfoldable pub location_is_valid : Location → Bool
  location_is_valid loc = leb (magnitude loc.lat) 262143 && leb (magnitude loc.lon) 524287

  module _ (f : LaHash FwdKey (Entry AcCacheEntry)) (i : LaHash ℕ (Entry InvEntry)) where
    -- The switch that fills in the address, and the cache, in which the lookup may expire entries;
    -- `now1` and `now2` are the times that the lookup reads.
    unfoldable pub find_address :
        {N : Type 0} → AcCache f i → LpduNode N → ℕ → ℕ → AcCache f i × Option ℕ
    find_address cache node now1 now2 =
        if is_request node.msg.type_id
        then (
          cache,
          elim node.msg.contents [ logon_request icao_address ↦ some icao_address | _ ↦ some 0 ],
        )
        else (let hdr = node.msg.mpdu_header in
            let (cache', entry) =
              ac_cache_entry_lookup f i cache (record { freq = hdr.freq; id = hdr.src_id }) now1
                now2 in
            (cache', elim entry [ none ↦ none | some e ↦ some e.icao_address ]))

    unfoldable pub lpdu_position_info_extract :
        {S A : Type 0}
        → AcCache f i
        → c.Date
        → (HfnpduNode S A → Option (PositionInfo c.Date))
        → LpduNode (HfnpduNode S A)
        → ℕ
        → ℕ
        → AcCache f i × Option (PositionInfo c.Date)
    unfolding find_address hfnpdu_position_info_extract
    lpdu_position_info_extract cache zero_date acars_position_info_extract node now1 now2 =
        elim node.msg.mpdu_header.direction [
          | uplink_pdu ↦ (cache, none)
          | downlink_pdu ↦ elim node.next [
            | none ↦ (cache, none)
            | some next ↦
                elim (hfnpdu_position_info_extract zero_date acars_position_info_extract next) [
                  | none ↦ (cache, none)
                  | some pos_info ↦ elim pos_info.icao_address [
                    | some a ↦ (cache, some pos_info)
                    | none ↦
                        let (cache', found) = find_address cache node now1 now2 in
                        (
                          cache',
                          elim found [
                            | none ↦ none
                            | some a ↦ some (record pos_info { icao_address = some a })
                          ],
                        )
                  ]
                ]
          ]
        ]

    -- `now` is the time that fixup_timestamp reads; the outer none is its failed assertion.
    unfoldable pub position_info_extract :
        {S A : Type 0}
        → AcCache f i
        → c.Date
        → (HfnpduNode S A → Option (PositionInfo c.Date))
        → LpduNode (HfnpduNode S A)
        → ℕ
        → ℕ
        → ℕ
        → Option (AcCache f i × Option (PositionInfo c.Date))
    unfolding lpdu_position_info_extract
    position_info_extract cache zero_date acars_position_info_extract node now1 now2 now =
        let (cache', found) =
          lpdu_position_info_extract cache zero_date acars_position_info_extract node now1 now2 in
        elim found [
          | none ↦ some (cache', none)
          | some pos_info ↦
              if location_is_valid pos_info.location
              then (fixup_timestamp pos_info.timestamp now >>= λ ts.
                  some (cache', some (record pos_info { timestamp = ts })))
              else some (cache', none)
        ]
