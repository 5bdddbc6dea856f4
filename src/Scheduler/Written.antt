-- ===== src/Scheduler/Written.antt =====
-- The forms of a schedule that ParseSchedule documents, written out and read back.
use claw.Base.{
  ℕ, zero, suc, ◌*◌, ◌≤◌, String, ◌⧺◌, ◌≡◌, refl, ap, ◌∙◌, Bool, true, false, ◌&&◌, some, [], ◌∷◌,
  ◌++◌, map, arith, ltb, decimal, if◌then◌else◌, ◌==◌, nat_eq,
}
use claw.Base.Int.{pos, int32}
use claw.Base.Bytes.{Bytes, codes, bytes_eq}
use claw.Base.Dict.{lookup}
use claw.Base.Text.Decimal.{codes-append}
use claw.Scheduler.Calendar.{Calendar}
use claw.Scheduler.Defs.{ScheduleType, ScheduledTask, daily, weekly, interval}
use claw.Scheduler.Files.Rows.{stoi-decimal}
use claw.Scheduler.Words.{
  clock, next_word-clock, parse_time-clock, parse_interval-append, next_word-number,
}
use claw.Scheduler.Parse.{
  is_blank, next_word, int_max, parse_time, times, seconds_in, set_interval, parse_interval,
  parse_weekly, parse_schedule, parse_once, tolower, with_type,
}

pub data Day : Type 0 where
  sunday : Day
  monday : Day
  tuesday : Day
  wednesday : Day
  thursday : Day
  friday : Day
  saturday : Day

pub data TimeUnit : Type 0 where
  seconds : TimeUnit
  minutes : TimeUnit
  hours : TimeUnit

pub data Schedule : Type 0 where
  daily_at : ℕ → ℕ → Schedule
  weekly_on : Day → ℕ → ℕ → Schedule
  every : ℕ → TimeUnit → Schedule

abbrev pub day_name : Day → String
day_name sunday = "sun"
day_name monday = "mon"
day_name tuesday = "tue"
day_name wednesday = "wed"
day_name thursday = "thu"
day_name friday = "fri"
day_name saturday = "sat"

-- tm_wday counts from Sunday on.
abbrev pub number_of : Day → ℕ
number_of sunday = 0
number_of monday = 1
number_of tuesday = 2
number_of wednesday = 3
number_of thursday = 4
number_of friday = 5
number_of saturday = 6

abbrev pub symbol : TimeUnit → ℕ
symbol seconds = 0x73
symbol minutes = 0x6d
symbol hours = 0x68

abbrev pub symbol_text : TimeUnit → String
symbol_text seconds = "s"
symbol_text minutes = "m"
symbol_text hours = "h"

abbrev pub length_of : TimeUnit → ℕ
length_of seconds = 1
length_of minutes = 60
length_of hours = 60 * 60

abbrev pub write : Schedule → String
write (daily_at h m) = "daily " ⧺ clock h m
write (weekly_on d h m) = "weekly " ⧺ (day_name d ⧺ (" " ⧺ clock h m))
write (every n unit) = "interval " ⧺ (decimal n ⧺ symbol_text unit)

-- Numbers that std::stoi reads.
abbrev pub IsReadable : Schedule → Type 0
IsReadable (daily_at h m) = (h ≤ int_max) × (m ≤ int_max)
IsReadable (weekly_on d h m) = (h ≤ int_max) × (m ≤ int_max)
IsReadable (every n unit) = n ≤ int_max

abbrev pub fits : Schedule → Bool
fits (daily_at h m) = ltb h 24 && ltb m 60
fits (weekly_on d h m) = ltb h 24 && ltb m 60
fits (every n unit) = ltb 0 n

-- The task with the type of the schedule, and what the schedule sets.
abbrev pub accepted : Schedule → ScheduledTask → ScheduledTask
accepted (daily_at h m) task = record task { hour = pos h; minute = pos m; schedule_type = daily }
accepted (weekly_on d h m) task = record task {
  weekday = pos (number_of d);
  hour = pos h;
  minute = pos m;
  schedule_type = weekly;
}
accepted (every n unit) task = record task {
  interval_seconds = int32 (n * length_of unit);
  schedule_type = interval;
}

-- What a schedule out of range leaves: its members are set, the type is not.
abbrev pub refused : Schedule → ScheduledTask → ScheduledTask
refused (daily_at h m) task = record task { hour = pos h; minute = pos m }
refused (weekly_on d h m) task = record task {
  weekday = pos (number_of d);
  hour = pos h;
  minute = pos m;
}
refused (every n unit) task = task

if-with_type :
    (k : ScheduleType) (task : ScheduledTask) (b : Bool)
    → with_type k (task, b)
      ≡ (if b then (record task { schedule_type = k }, true) else (task, false))
if-with_type k task true = refl
if-with_type k task false = refl

abbrev result : Schedule → ScheduledTask → ScheduledTask × Bool
result s task = if fits s then (accepted s task, true) else (refused s task, false)

positive_fits : (n : ℕ) → ltb 0 (suc n) ≡ true
positive_fits n = ground arith

set_interval-times :
    (n : ℕ) (unit : TimeUnit) (task : ScheduledTask)
    → set_interval task (times (some (pos n)) (seconds_in (symbol unit)))
      ≡ result (every n unit) task
set_interval-times zero unit task = refl
set_interval-times (suc n) seconds task = rw (positive_fits n) refl
set_interval-times (suc n) minutes task = rw (positive_fits n) refl
set_interval-times (suc n) hours task = rw (positive_fits n) refl

parse_interval-every :
    (n : ℕ) (unit : TimeUnit) (task : ScheduledTask)
    → n ≤ int_max
    → set_interval task (parse_interval (codes (decimal n) ++ (symbol unit ∷ [])))
      ≡ result (every n unit) task
parse_interval-every n unit task l =
    ap (set_interval task) (parse_interval-append (codes (decimal n)) (symbol unit))
    ∙ ap (λ o. set_interval task (times o (seconds_in (symbol unit)))) (stoi-decimal n l)
    ∙ set_interval-times n unit task

symbol-solid : (unit : TimeUnit) → is_blank (symbol unit) ≡ false
symbol-solid seconds = refl
symbol-solid minutes = refl
symbol-solid hours = refl

codes-symbol : (unit : TimeUnit) → codes (symbol_text unit) ≡ symbol unit ∷ []
codes-symbol seconds = refl
codes-symbol minutes = refl
codes-symbol hours = refl

codes-every :
    (n : ℕ) (unit : TimeUnit)
    → codes (decimal n ⧺ symbol_text unit) ≡ codes (decimal n) ++ (symbol unit ∷ [])
codes-every n unit =
    codes-append (decimal n) (symbol_text unit) ∙ ap (◌++◌ (codes (decimal n))) (codes-symbol unit)

weekly-clock :
    (d : Day) (h m : ℕ) (task : ScheduledTask)
    → h ≤ int_max
    → m ≤ int_max
    → with_type weekly (
        parse_time
          (next_word (0x20 ∷ codes (clock h m))).0
          (record task { weekday = pos (number_of d) }))
      ≡ result (weekly_on d h m) task
weekly-clock d h m task lh lm =
    let old = record task { weekday = pos (number_of d) } in
    ap (λ (p : Bytes × Bytes). with_type weekly (parse_time p.0 old)) (next_word-clock h m)
    ∙ ap (with_type weekly) (parse_time-clock h m old lh lm)
    ∙ if-with_type weekly (record old { hour = pos h; minute = pos m }) (ltb h 24 && ltb m 60)

parse_weekly-on :
    (d : Day) (h m : ℕ) (task : ScheduledTask)
    → h ≤ int_max
    → m ≤ int_max
    → parse_weekly (0x20 ∷ (codes (day_name d) ++ (0x20 ∷ codes (clock h m)))) task
      ≡ result (weekly_on d h m) task
unfolding parse_weekly next_word lookup
parse_weekly-on sunday h m task lh lm = weekly-clock sunday h m task lh lm
parse_weekly-on monday h m task lh lm = weekly-clock monday h m task lh lm
parse_weekly-on tuesday h m task lh lm = weekly-clock tuesday h m task lh lm
parse_weekly-on wednesday h m task lh lm = weekly-clock wednesday h m task lh lm
parse_weekly-on thursday h m task lh lm = weekly-clock thursday h m task lh lm
parse_weekly-on friday h m task lh lm = weekly-clock friday h m task lh lm
parse_weekly-on saturday h m task lh lm = weekly-clock saturday h m task lh lm

codes-weekly :
    (d : Day) (h m : ℕ)
    → codes (day_name d ⧺ (" " ⧺ clock h m)) ≡ codes (day_name d) ++ (0x20 ∷ codes (clock h m))
codes-weekly d h m =
    codes-append (day_name d) (" " ⧺ clock h m)
    ∙ ap (◌++◌ (codes (day_name d))) (codes-append " " (clock h m))

module _ (c : Calendar) where
  -- The tests of the keyword, on the bytes of the text.
  abbrev parse_bytes : Bytes → ScheduledTask → ScheduledTask × Bool
  parse_bytes text task =
      let (word, rest) = next_word text in
      let type = map tolower word in
      if type == codes "daily"
      then with_type daily (parse_time (next_word rest).0 task)
      else if type == codes "interval"
      then set_interval task (parse_interval (next_word rest).0)
      else if type == codes "once"
      then parse_once c rest task
      else if type == codes "weekly"
      then parse_weekly rest task
      else (task, false)

  read_daily :
      (x : Bytes) (task : ScheduledTask)
      → parse_bytes (codes "daily " ++ x) task
        ≡ with_type daily (parse_time (next_word (0x20 ∷ x)).0 task)
  unfolding next_word
  read_daily x task = refl

  read_interval :
      (x : Bytes) (task : ScheduledTask)
      → parse_bytes (codes "interval " ++ x) task
        ≡ set_interval task (parse_interval (next_word (0x20 ∷ x)).0)
  unfolding next_word
  read_interval x task = refl

  read_weekly :
      (x : Bytes) (task : ScheduledTask)
      → parse_bytes (codes "weekly " ++ x) task ≡ parse_weekly (0x20 ∷ x) task
  unfolding next_word
  read_weekly x task = refl

  -- A schedule written as "daily H:M", "weekly DAY H:M" or "interval N" with the unit s, m or h,
  -- its numbers such as an int holds, is accepted exactly when the hour is below 24 and the minute
  -- below 60, or the number of the interval is positive; the task then has the type, the hour, the
  -- minute and the day of the text, or the seconds that the interval is long, wrapped around to an
  -- int. Otherwise its type is as it was.
  pub parse_schedule-write :
      (s : Schedule) (task : ScheduledTask)
      → IsReadable s
      → parse_schedule c (write s) task
        ≡ (if fits s then (accepted s task, true) else (refused s task, false))
  unfolding parse_schedule
  parse_schedule-write (daily_at h m) task (lh, lm) =
      ap (λ b. parse_bytes b task) (codes-append "daily " (clock h m))
      ∙ read_daily (codes (clock h m)) task
      ∙ ap (λ (p : Bytes × Bytes). with_type daily (parse_time p.0 task)) (next_word-clock h m)
      ∙ ap (with_type daily) (parse_time-clock h m task lh lm)
      ∙ if-with_type daily (record task { hour = pos h; minute = pos m }) (ltb h 24 && ltb m 60)
  parse_schedule-write (weekly_on d h m) task (lh, lm) =
      ap (λ b. parse_bytes b task) (codes-append "weekly " (day_name d ⧺ (" " ⧺ clock h m)))
      ∙ read_weekly (codes (day_name d ⧺ (" " ⧺ clock h m))) task
      ∙ ap (λ b. parse_weekly (0x20 ∷ b) task) (codes-weekly d h m)
      ∙ parse_weekly-on d h m task lh lm
  parse_schedule-write (every n unit) task l =
      ap (λ b. parse_bytes b task) (codes-append "interval " (decimal n ⧺ symbol_text unit))
      ∙ read_interval (codes (decimal n ⧺ symbol_text unit)) task
      ∙ ap (λ b. set_interval task (parse_interval (next_word (0x20 ∷ b)).0)) (codes-every n unit)
      ∙ ap (λ (p : Bytes × Bytes). set_interval task (parse_interval p.0))
          (next_word-number n (symbol unit) (symbol-solid unit))
      ∙ parse_interval-every n unit task l
