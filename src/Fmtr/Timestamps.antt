-- ===== src/Fmtr/Timestamps.antt =====
-- The time that format_timestamp of src/fmtr-text.c prints.
use dumphfdl.Common.{◌+◌, ◌*◌, ◌/◌, ◌<◌, ◌≡◌, true, ltb, Bool-cases, inl, inr, arith}
use dumphfdl.Fmtr.{Timeval, round_millis, rounded_time}

-- With milliseconds, the time printed is the time of reception to the nearest millisecond, with a
-- carry into the seconds, and the milliseconds have three digits at most.
pub rounded_time_lem :
    (tv : Timeval)
    → tv.tv_usec < 1000000
    → ((rounded_time true tv).0 * 1000 + (rounded_time true tv).1
        ≡ (tv.tv_sec * 1000000 + tv.tv_usec + 500) / 1000)
      × ((rounded_time true tv).1 < 1000)
unfolding rounded_time
rounded_time_lem tv h = elim (Bool-cases (ltb 999 (round_millis tv.tv_usec))) [
  | inl carry ↦ rw carry (grind arith, grind arith)
  | inr fits ↦ rw fits (grind arith, grind arith)
]
