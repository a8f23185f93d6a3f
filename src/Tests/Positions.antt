-- ===== src/Tests/Positions.antt =====
-- Runs of the extraction of positions, with a calendar that counts days and keeps UTC.
use dumphfdl.Common.{ℕ, ◌+◌, ◌*◌, ◌/◌, ◌%◌, ◌≡◌, ◌<◌, refl, true, false, none, some, [], arith}
use dumphfdl.Pdu.{downlink_pdu}
use dumphfdl.Hfnpdu.Data.{HfnpduNode, hfnpdu, perf_data, zero_perf_data}
use dumphfdl.Lpdu.Data.{logon_request, LpduNode}
use dumphfdl.AcCache.{AcCache, ac_cache_create}
use dumphfdl.Position.{Calendar, Timestamp}
use dumphfdl.Position.Timestamps.{IsRecent, fixup_timestamp-date}
use dumphfdl.Fmtr.Timestamps.{rounded_time_lem}
use dumphfdl.Fmtr.{Timeval, rounded_time, BasestationMsg}
use dumphfdl.Tests.Instance.{fwd_hash, inv_hash}

-- A time zone is the seconds by which local time is behind UTC.
abbrev calendar : ℕ → Calendar
calendar west = record {
  Date = ℕ;
  day = λ d. d;
  gmtime =
      λ t. record { date = t / 86400; hour = t % 86400 / 3600; min = t % 3600 / 60; sec = t % 60 };
  timegm = λ t. t.date * 86400 + t.hour * 3600 + t.min * 60 + t.sec;
  mktime = λ t. t.date * 86400 + t.hour * 3600 + t.min * 60 + t.sec + west;
  timegm_lem = λ t. refl;
  timegm-gmtime = λ t. omega arith;
  hour-gmtime = λ t. omega arith;
  min-gmtime = λ t. omega arith;
  sec-gmtime = λ t. omega arith;
}

-- Ten to midnight, reported at ten past.
abbrev late : Timestamp ℕ
late = record {
  t = 0;
  tm = record { date = 0; hour = 23; min = 50; sec = 0 };
  tm_sec_present = true;
  tm_min_present = true;
  tm_hour_present = true;
  tm_date_present = false;
}

fixup_timestamp-date_example : IsRecent (calendar 0) late 864600 23 50 0 86400
fixup_timestamp-date_example =
    fixup_timestamp-date (calendar 0) late 864600 0 refl refl refl (omega arith) (omega arith)
      (omega arith) (omega arith) (omega arith) (omega arith)

abbrev cache : AcCache fwd_hash inv_hash
cache = ac_cache_create fwd_hash inv_hash 14400 0 0

abbrev report : HfnpduNode Unit Unit
report = hfnpdu (record { type_id = 0xd1; err = false; contents = perf_data zero_perf_data }) none

abbrev node : LpduNode (HfnpduNode Unit Unit)
node = record {
  msg = record {
    pdu = [];
    mpdu_header = record {
      freq = 11384000;
      src_id = 7;
      dst_id = 3;
      direction = downlink_pdu;
      crc_ok = true;
    };
    type_id = 0x8f;
    crc_ok = true;
    err = false;
    contents = logon_request 0x4b1234;
  };
  next = some report;
}

abbrev message : BasestationMsg ℕ
message = record {
  icao_address = some 0x4b1234;
  timestamp = (calendar 0).gmtime 0;
  flight_id = [];
  location = zero_perf_data.location;
  frequency = 11384;
}

-- 1.9996 seconds
abbrev almost_two : Timeval
almost_two = record { tv_sec = 1; tv_usec = 999600 }

rounded_time_lem_example :
    ((rounded_time true almost_two).0 * 1000 + (rounded_time true almost_two).1
      ≡ (1 * 1000000 + 999600 + 500) / 1000)
    × ((rounded_time true almost_two).1 < 1000)
rounded_time_lem_example = rounded_time_lem almost_two (omega arith)
