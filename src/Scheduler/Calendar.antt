-- ===== src/Scheduler/Calendar.antt =====
-- What TaskScheduler calls of the C library: local times. A time_t counts seconds, and a time point of
-- the system clock nanoseconds, both from the epoch.
use claw.Base.{ℕ, suc, ◌+◌, ◌-◌, ◌*◌, ◌/◌, ◌≤◌, ◌<◌, ◌≡◌, Option, leb, if◌then◌else◌}
use claw.Base.Int.{ℤ, pos, negsuc, ◌+ℤ◌}
use claw.Base.Bytes.{Bytes}

-- struct tm
pub record Tm : Type 0 where
  pub tm_sec : ℤ
  pub tm_min : ℤ
  pub tm_hour : ℤ
  pub tm_mday : ℤ
  pub tm_mon : ℤ
  pub tm_year : ℤ
  pub tm_wday : ℤ
  pub tm_yday : ℤ
  pub tm_isdst : ℤ

pub record Calendar : Type 0 where
  pub localtime : ℤ → Tm
  -- the time, or -1 where it cannot be represented, and the argument in normal form
  pub mktime : Tm → ℤ × Tm
  -- strptime with "%Y-%m-%d %H:%M"
  pub strptime : Bytes → Option Tm

abbrev pub from_time_t : ℤ → ℤ
from_time_t (pos t) = pos (t * 1000000000)
from_time_t (negsuc t) = negsuc (suc t * 1000000000 - 1)

-- The conversion cuts towards zero.
abbrev pub to_time_t : ℤ → ℤ
to_time_t (pos t) = pos (t / 1000000000)
to_time_t (negsuc t) = if leb (suc t) 999999999 then pos 0 else negsuc (suc t / 1000000000 - 1)

abbrev pub at_time : Tm → ℤ → ℤ → Tm
at_time tm hour minute = record tm {
  tm_hour = hour;
  tm_min = minute;
  tm_sec = pos 0;
  tm_isdst = negsuc 0;
}

abbrev pub later_by : Tm → ℤ → Tm
later_by tm days = record tm { tm_mday = tm.tm_mday +ℤ days; tm_isdst = negsuc 0 }

-- What the C library promises of local times after the epoch in a time zone whose clocks are never
-- changed: a day has 86400 seconds, a week seven days, and the time h:m of the day of `t` is in normal
-- form but for tm_isdst.
pub record IsRegular (c : Calendar) : Type 0 where
  pub midnight : ℕ → ℕ
  pub day_of_week : ℕ → ℕ
  pub midnight-le : (t : ℕ) → midnight t ≤ t
  pub lt-midnight : (t : ℕ) → t < midnight t + 86400
  pub day_of_week-lt : (t : ℕ) → day_of_week t < 7
  pub tm_wday-localtime : (t : ℕ) → (c.localtime (pos t)).tm_wday ≡ pos (day_of_week t)
  pub mktime-later_by :
      (t h m d : ℕ)
      → h < 24
      → m < 60
      → (c.mktime (later_by (at_time (c.localtime (pos t)) (pos h) (pos m)) (pos d))).0
        ≡ pos (midnight t + d * 86400 + h * 3600 + m * 60)
  pub mktime-normal :
      (t h m : ℕ)
      → h < 24
      → m < 60
      → (c.mktime (at_time (c.localtime (pos t)) (pos h) (pos m))).1
        ≡ record (at_time (c.localtime (pos t)) (pos h) (pos m)) { tm_isdst = pos 0 }
