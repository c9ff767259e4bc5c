-- ===== src/Quota/Schedule.antt =====
-- internal/quota/tracker.go: reset schedules. Times are nanoseconds since Go's zero time, which
-- is 0, and durations are nanoseconds; one that is not positive is 0.
pub mod Bounds
use Prim.Native.Char.{code}
use syrogo.Base.{
  ℕ, suc, ◌+◌, ◌-◌, ◌*◌, ◌/◌, ◌%◌, String, Bool, true, false, not, ◌&&◌, List, [], ◌∷◌, Option,
  none, some, if◌then◌else◌, ltb, leb, ◌==◌, nat_eq, text_eq, is_empty, min,
}

-- What the code asks of Go's `time` package. A location is known by its name. The clock of a
-- time is hour, minute and second.
pub record TimeLib : Type 0 where
  pub load_location : String → Option String
  pub weekday : String → ℕ → ℕ
  -- `t.AddDate(0, 0, -n)` and `t.AddDate(0, 0, n)` in a location.
  pub days_before : String → ℕ → ℕ → ℕ
  pub days_after : String → ℕ → ℕ → ℕ
  -- `time.Date` on the local day of a time.
  pub at_clock : String → ℕ → ℕ × ℕ × ℕ → ℕ
  -- `time.Parse` of a layout, as a clock.
  pub parse_layout : String → String → Option (ℕ × ℕ × ℕ)
  -- `t.UTC().Format(time.RFC3339Nano)` and its parser.
  pub format : ℕ → String
  pub parse : String → Option ℕ
  pub duration_text : ℕ → String

pub record Schedule : Type 0 where
  pub period : String
  pub duration : ℕ
  pub anchor : ℕ
  pub clock : String
  pub location : Option String
  pub weekday : ℕ

-- `schedule{}`.
abbrev pub no_schedule : Schedule
no_schedule = record {
  period = "";
  duration = 0;
  anchor = 0;
  clock = "";
  location = none;
  weekday = 0;
}

-- A signed count of intervals, or a signed duration.
pub data Signed : Type 0 where
  forward backward : ℕ → Signed

-- `time.Unix(0, 0)`, counted from Go's zero time.
abbrev pub unix_epoch : ℕ
unix_epoch = 62135596800 * 1000000000

-- `strings.Count(value, ":")`.
unfoldable pub colons : String → ℕ
colons String.[] = 0
colons (String.◌∷◌ c s) = if code c == b':' then suc (colons s) else colons s

-- 2 ^ 63, just above the greatest `time.Duration`, which is an int64.
abbrev pub duration_range : ℕ
duration_range = 9223372036854775808

-- `now.Sub(anchor)`, which stays at the least or the greatest duration where it is out of range.
unfoldable pub since : ℕ → ℕ → Signed
since now anchor =
    if leb anchor now
    then forward (min (now - anchor) (duration_range - 1))
    else backward (min (anchor - now) duration_range)

-- Go's division drops the remainder, so a negative quotient that is not exact goes one down.
unfoldable pub floor_duration : Signed → ℕ → Signed
floor_duration (forward d) interval = forward (d / interval)
floor_duration (backward d) interval =
    backward (if d % interval == 0 then d / interval else suc (d / interval))

-- `anchor.Add(steps * duration)`, whose product wraps below the least duration; above the greatest
-- one it cannot be. Times before Go's zero time are not modelled.
unfoldable pub add_steps : ℕ → Signed → ℕ → ℕ
add_steps anchor (forward k) interval = anchor + k * interval
add_steps anchor (backward k) interval =
    if leb (k * interval) duration_range
    then anchor - k * interval
    else anchor + (2 * duration_range - k * interval)

module _ (lib : TimeLib) where
  unfoldable pub new_schedule : String → ℕ → ℕ → String → String → ℕ → Schedule
  new_schedule period duration anchor clock timezone weekday = record {
    period = period;
    duration = duration;
    anchor = anchor;
    clock = clock;
    location = some (
        if not (is_empty timezone)
        then elim (lib.load_location timezone) [ none ↦ "UTC" | some loaded ↦ loaded ]
        else "UTC");
    weekday = weekday;
  }

  unfoldable pub parse_clock : String → ℕ × ℕ × ℕ
  unfolding colons
  parse_clock value =
      let layout : String = if colons value == 2 then "15:04:05" else "15:04" in
      elim (lib.parse_layout layout value) [ none ↦ (0, 0, 0) | some clock ↦ clock ]

  unfoldable pub civil_bounds : Schedule → ℕ → ℕ → Bool → ℕ × ℕ
  unfolding parse_clock
  civil_bounds s now days weekly =
      let loc : String = elim s.location [ none ↦ "UTC" | some l ↦ l ] in
      let delta : ℕ = (lib.weekday loc now + 7 - s.weekday) % 7 in
      let date : ℕ = if weekly then lib.days_before loc now delta else now in
      let at_clock : ℕ = lib.at_clock loc date (parse_clock s.clock) in
      let start : ℕ = if ltb now at_clock then lib.days_before loc at_clock days else at_clock in
      (start, lib.days_after loc start days)

  unfoldable pub interval_bounds : Schedule → ℕ → ℕ × ℕ
  unfolding since floor_duration add_steps
  interval_bounds s now =
      if s.duration == 0
      then (0, 0)
      else (let anchor : ℕ = if s.anchor == 0 then unix_epoch else s.anchor in
          let start : ℕ =
            add_steps anchor (floor_duration (since now anchor) s.duration) s.duration in
          (start, start + s.duration))

  unfoldable pub bounds : Schedule → ℕ → ℕ × ℕ
  unfolding civil_bounds interval_bounds
  bounds s now =
      if s.period == "daily"
      then civil_bounds s now 1 false
      else if s.period == "weekly"
      then civil_bounds s now 7 true
      else interval_bounds s now
