-- ===== src/Position/Timestamps.antt =====
-- What fixup_timestamp of src/position.c makes of a time of day.
use dumphfdl.Common.{
  ℕ, ◌+◌, ◌-◌, ◌*◌, ◌≡◌, ◌≤◌, ◌<◌, refl, ap, true, false, some, ltb, Bool-cases, inl, inr, arith,
  if◌then◌else◌, ◌∙◌,
}
use dumphfdl.Position.{Tm, Calendar, Timestamp, date_yesterday, filled_in, stamped, fixup_timestamp}

module _ (c : Calendar) where
  seconds : Tm c.Date → ℕ
  seconds t = t.hour * 3600 + t.min * 60 + t.sec

  gmtime_parts :
      (t : ℕ)
      → (t ≡ c.day (c.gmtime t).date * 86400 + seconds (c.gmtime t))
        × (seconds (c.gmtime t) < 86400)
  unfolding seconds
  gmtime_parts t = (
    omega (arith, c.timegm-gmtime t, c.timegm_lem (c.gmtime t)),
    omega (arith, c.hour-gmtime t, c.min-gmtime t, c.sec-gmtime t),
  )

  -- Where local time is UTC or ahead of it by less than a day less ten seconds, the date is that of
  -- the day before.
  day-date_yesterday :
      (now east : ℕ)
      → 172800 ≤ now
      → east < 86390
      → c.mktime (c.gmtime now) + east ≡ c.timegm (c.gmtime now)
      → c.day (date_yesterday c (c.gmtime now)).date + 1 ≡ c.day (c.gmtime now).date
  unfolding date_yesterday seconds
  day-date_yesterday now east h le zone =
      let (e, lt) = gmtime_parts now in
      let before =
        c.mktime (c.gmtime now)
        - ((c.gmtime now).hour * 3600 + (c.gmtime now).min * 60 + (c.gmtime now).sec)
        - 10 in
      let (e', lt') = gmtime_parts before in
      omega (arith, e, lt, e', lt', zone, c.timegm-gmtime now)

  -- West of Greenwich, local time is behind UTC, and the date is not that of the day before but
  -- today's: the ten seconds are taken from local midnight.
  pub day-date_yesterday_west :
      (now west : ℕ)
      → 172800 ≤ now
      → 10 ≤ west
      → west < 86400
      → c.mktime (c.gmtime now) ≡ c.timegm (c.gmtime now) + west
      → c.day (date_yesterday c (c.gmtime now)).date ≡ c.day (c.gmtime now).date
  unfolding date_yesterday seconds
  day-date_yesterday_west now west h ge lt zone =
      let (e, small) = gmtime_parts now in
      let before =
        c.mktime (c.gmtime now)
        - ((c.gmtime now).hour * 3600 + (c.gmtime now).min * 60 + (c.gmtime now).sec)
        - 10 in
      let (e', small') = gmtime_parts before in
      omega (arith, e, small, e', small', zone, c.timegm-gmtime now)

  -- The same time of day, a day earlier.
  timegm-yesterday :
      (now east : ℕ) (tm : Tm c.Date)
      → 172800 ≤ now
      → east < 86390
      → c.mktime (c.gmtime now) + east ≡ c.timegm (c.gmtime now)
      → tm.date ≡ (c.gmtime now).date
      → c.timegm (record tm { date = (date_yesterday c (c.gmtime now)).date }) + 86400 ≡ c.timegm tm
  timegm-yesterday now east tm h le zone today =
      let before = record tm { date = (date_yesterday c (c.gmtime now)).date } in
      let same : c.day tm.date ≡ c.day (c.gmtime now).date = ap c.day today in
      let earlier = day-date_yesterday now east h le zone in
      omega (arith, same, earlier, c.timegm_lem tm, c.timegm_lem before)

  -- What fixup_timestamp made of `ts` has the time of day that was filled in, and is no later than
  -- `now` and less than a span before it.
  abbrev pub IsRecent : Timestamp c.Date → ℕ → ℕ → ℕ → ℕ → ℕ → Type 0
  IsRecent ts now hour min sec span =
      (r : Timestamp c.Date) × (fixup_timestamp c ts now ≡ some r)
      × (r.tm.hour ≡ hour)
      × (r.tm.min ≡ min)
      × (r.tm.sec ≡ sec)
      × (r.t ≡ c.timegm r.tm)
      × (r.t ≤ now)
      × (now < r.t + span)

  -- Whatever the fields filled in are, if they fall on this day and less than a span before or
  -- after, at the same time of day, then the result is recent.
  recent :
      (ts : Timestamp c.Date) (now east span : ℕ)
      → ts.tm_min_present ≡ true
      → 172800 ≤ now
      → east < 86390
      → c.mktime (c.gmtime now) + east ≡ c.timegm (c.gmtime now)
      → (filled_in c ts (c.gmtime now)).date ≡ (c.gmtime now).date
      → now < c.timegm (filled_in c ts (c.gmtime now)) + span
      → (now < c.timegm (filled_in c ts (c.gmtime now))
          → (c.timegm (filled_in c ts (c.gmtime now)) ≤ now + 86400)
            × (now + 86400 < c.timegm (filled_in c ts (c.gmtime now)) + span))
      → let tm = filled_in c ts (c.gmtime now) in IsRecent ts now tm.hour tm.min tm.sec span
  unfolding fixup_timestamp
  recent ts now east span minutes h le zone today near late =
      let tm = filled_in c ts (c.gmtime now) in
      elim (Bool-cases (ltb now (c.timegm tm))) [
        | inl future ↦
            let y = timegm-yesterday now east tm h le zone today in
            let (a, b) = late (ground (arith, future)) in
            (
              stamped c (record tm { date = (date_yesterday c (c.gmtime now)).date }),
              rw (future, minutes) refl,
              refl,
              refl,
              refl,
              refl,
              omega (arith, y, a),
              omega (arith, y, b),
            )
        | inr past ↦ (
          stamped c tm,
          rw (past, minutes) refl,
          refl,
          refl,
          refl,
          refl,
          ground (arith, past),
          near,
        )
      ]

  -- A time of day without a date, as in performance data, becomes its latest occurrence: the result
  -- keeps the hour, the minute and the second, or second 0 if none was given, and is not in the future
  -- and less than a day old. The calendar's local time is UTC or ahead of it by less than a day less
  -- ten seconds, and the present is two days or more after the epoch.
  pub fixup_timestamp-date :
      (ts : Timestamp c.Date) (now east : ℕ)
      → ts.tm_min_present ≡ true
      → ts.tm_hour_present ≡ true
      → ts.tm_date_present ≡ false
      → ts.tm.hour < 24
      → ts.tm.min < 60
      → ts.tm.sec < 60
      → 172800 ≤ now
      → east < 86390
      → c.mktime (c.gmtime now) + east ≡ c.timegm (c.gmtime now)
      → IsRecent ts now ts.tm.hour ts.tm.min (if ts.tm_sec_present then ts.tm.sec else 0) 86400
  unfolding filled_in seconds
  fixup_timestamp-date ts now east minutes hours date hour min sec h le zone =
      let tm = filled_in c ts (c.gmtime now) in
      let (e, small) = gmtime_parts now in
      let today : tm.date ≡ (c.gmtime now).date = rw (hours, date) refl in
      let same : c.day tm.date ≡ c.day (c.gmtime now).date = ap c.day today in
      let t_hour : tm.hour < 24 =
        rw (hours, date)
          (elim (Bool-cases ts.tm_sec_present) [
            | inl there ↦ rw there hour
            | inr missing ↦ rw missing hour
          ]) in
      let t_min : tm.min < 60 =
        rw (hours, date)
          (elim (Bool-cases ts.tm_sec_present) [
            | inl there ↦ rw there min
            | inr missing ↦ rw missing min
          ]) in
      let t_sec : tm.sec < 60 =
        rw (hours, date)
          (elim (Bool-cases ts.tm_sec_present) [
            | inl there ↦ rw there sec
            | inr missing ↦ rw missing (omega arith)
          ]) in
      let t = c.timegm_lem tm in
      let the_hour : tm.hour ≡ ts.tm.hour = rw (hours, date) (ground arith) in
      let the_min : tm.min ≡ ts.tm.min = rw (hours, date) (ground arith) in
      let the_sec : tm.sec ≡ (if ts.tm_sec_present then ts.tm.sec else 0) =
        rw (hours, date) (ground arith) in
      let (r, is, hour_is, min_is, sec_is, stamp, past, near) =
        recent ts now east 86400 minutes h le zone today
          (omega (arith, e, small, t, same, t_hour, t_min, t_sec))
          (λ future.
            (omega (arith, e, small, t, same, t_hour, t_min, t_sec), omega (arith, future))) in
      (r, is, hour_is ∙ the_hour, min_is ∙ the_min, sec_is ∙ the_sec, stamp, past, near)
