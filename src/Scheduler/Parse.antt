-- ===== src/Scheduler/Parse.antt =====
-- ParseSchedule: from the text of a schedule to the members of a task. What was written before a
-- failure stays written, and the caller LoadTasks goes on with it.
use claw.Base.{
  ℕ, zero, suc, ◌+◌, ◌*◌, String, Bool, true, false, ◌&&◌, ◌||◌, Option, none, some, [], ◌∷◌, ◌++◌,
  map, ◌==◌, nat_eq, string_eq, ltb, leb, if◌then◌else◌,
}
use claw.Base.Int.{ℤ, pos, negsuc, int32}
use claw.Base.Text.Decimal.{is_digit, digits}
use claw.Base.Bytes.{Bytes, codes, bytes_eq}
use claw.Base.Dict.{Dict, lookup}
use claw.Scheduler.Calendar.{Calendar, from_time_t}
use claw.Scheduler.Defs.{ScheduleType, ScheduledTask, once, daily, weekly, interval}

abbrev pub is_blank : ℕ → Bool
is_blank c = c == 0x20 || (leb 0x09 c && leb c 0x0d)

abbrev pub tolower : ℕ → ℕ
tolower c = if leb 0x41 c && leb c 0x5a then c + 32 else c

abbrev pub skip_space : Bytes → Bytes
skip_space [] = []
skip_space (c ∷ text) = if is_blank c then skip_space text else c ∷ text

abbrev pub split_word : Bytes → Bytes × Bytes
split_word [] = ([], [])
split_word (c ∷ text) =
    let later = split_word text in if is_blank c then ([], c ∷ text) else (c ∷ later.0, later.1)

-- iss >> word: the word, and what the stream still holds.
unfoldable pub next_word : Bytes → Bytes × Bytes
next_word text = split_word (skip_space text)

-- s.find(':'), with what stands before and after it.
abbrev pub split_at : ℕ → Bytes → Option (Bytes × Bytes)
split_at mark [] = none
split_at mark (c ∷ text) =
    let later = split_at mark text in
    if c == mark
    then some ([], text)
    else (elim later [ none ↦ none | some p ↦ some (c ∷ p.0, p.1) ])

abbrev pub int_max : ℕ
int_max = 2147483647

abbrev unsigned : Bytes → Option ℕ
unsigned [] = none
unsigned (c ∷ text) = if is_digit c then some (digits 0 (c ∷ text)) else none

abbrev positive : Option ℕ → Option ℤ
positive none = none
positive (some v) = if leb v int_max then some (pos v) else none

abbrev negative : Option ℕ → Option ℤ
negative none = none
negative (some zero) = some (pos 0)
negative (some (suc v)) = if leb v int_max then some (negsuc v) else none

abbrev signed : Bytes → Option ℤ
signed [] = none
signed (c ∷ text) =
    if c == 0x2d
    then negative (unsigned text)
    else if c == 0x2b
    then positive (unsigned text)
    else positive (unsigned (c ∷ text))

-- std::stoi: white space, a sign, digits, and anything after them; `none` where it throws.
unfoldable pub stoi : Bytes → Option ℤ
stoi text = signed (skip_space text)

abbrev pub in_day : ℤ → ℕ → Bool
in_day (pos n) limit = ltb n limit
in_day (negsuc n) limit = false

-- "HH:MM", for a daily and a weekly schedule.
abbrev pub set_time : ScheduledTask → Option ℤ → Option ℤ → ScheduledTask × Bool
set_time task none m = (task, false)
set_time task (some h) none = (record task { hour = h }, false)
set_time task (some h) (some m) = (record task { hour = h; minute = m }, in_day h 24 && in_day m 60)

unfoldable pub parse_time : Bytes → ScheduledTask → ScheduledTask × Bool
parse_time text task = elim (split_at 0x3a text) [
  | none ↦ (task, false)
  | some parts ↦ set_time task (stoi parts.0) (stoi parts.1)
]

-- The last character, and what stands before it.
abbrev pub split_last : ℕ → Bytes → Bytes × ℕ
split_last c [] = ([], c)
split_last c (d ∷ text) = let later = split_last d text in (c ∷ later.0, later.1)

abbrev pub seconds_in : ℕ → Option ℕ
seconds_in unit =
    if unit == 0x73
    then some 1
    else if unit == 0x6d
    then some 60
    else if unit == 0x68
    then some 3600
    else none

abbrev pub times : Option ℤ → Option ℕ → Option ℤ
times (some (pos (suc n))) (some k) = some (int32 (suc n * k))
times (some (pos (suc n))) none = none
times (some (pos zero)) k = none
times (some (negsuc n)) k = none
times none k = none

unfoldable pub parse_interval : Bytes → Option ℤ
parse_interval [] = none
parse_interval (c ∷ text) = times (stoi (split_last c text).0) (seconds_in (split_last c text).1)

abbrev pub set_interval : ScheduledTask → Option ℤ → ScheduledTask × Bool
set_interval task none = (task, false)
set_interval task (some s) = (record task { interval_seconds = s; schedule_type = interval }, true)

abbrev pub day_map : Dict Bytes ℕ
day_map =
    (codes "sun", 0)
    ∷ (codes "mon", 1)
    ∷ (codes "tue", 2)
    ∷ (codes "wed", 3)
    ∷ (codes "thu", 4)
    ∷ (codes "fri", 5)
    ∷ (codes "sat", 6)
    ∷ []

abbrev pub with_type : ScheduleType → ScheduledTask × Bool → ScheduledTask × Bool
with_type type (task, true) = (record task { schedule_type = type }, true)
with_type type (task, false) = (task, false)

unfoldable pub parse_weekly : Bytes → ScheduledTask → ScheduledTask × Bool
parse_weekly text task =
    let (day, rest) = next_word text in
    elim (lookup (map tolower day) day_map) [
      | none ↦ (task, false)
      | some d ↦ with_type weekly (parse_time (next_word rest).0 (record task { weekday = pos d }))
    ]

-- -1, which is `negsuc zero`, is the error of mktime.
abbrev pub set_once : ScheduledTask → ℤ → ScheduledTask × Bool
set_once task (negsuc zero) = (task, false)
set_once task (negsuc (suc n)) =
    (record task { next_run = from_time_t (negsuc (suc n)); schedule_type = once }, true)
set_once task (pos n) = (record task { next_run = from_time_t (pos n); schedule_type = once }, true)

module _ (c : Calendar) where
  unfoldable pub parse_once : Bytes → ScheduledTask → ScheduledTask × Bool
  parse_once text task =
      let (date, rest) = next_word text in
      elim (c.strptime (date ++ (0x20 ∷ (next_word rest).0))) [
        | none ↦ (task, false)
        | some tm ↦ set_once task (c.mktime (record tm { tm_isdst = negsuc 0 })).0
      ]

  unfoldable pub parse_schedule : String → ScheduledTask → ScheduledTask × Bool
  parse_schedule expr task =
      let (word, rest) = next_word (codes expr) in
      let type = map tolower word in
      if type == codes "daily"
      then with_type daily (parse_time (next_word rest).0 task)
      else if type == codes "interval"
      then set_interval task (parse_interval (next_word rest).0)
      else if type == codes "once"
      then parse_once rest task
      else if type == codes "weekly"
      then parse_weekly rest task
      else (task, false)
