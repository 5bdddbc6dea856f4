-- ===== src/Scheduler/Valid.antt =====
-- What the type of a task asks of its other members.
use claw.Base.{ℕ, ◌≡◌, ◌<◌}
use claw.Base.Int.{pos}
use claw.Scheduler.Defs.{ScheduleType, ScheduledTask, once, daily, weekly, interval}

abbrev pub HasTime : ScheduledTask → Type 0
HasTime task = (h : ℕ) × (m : ℕ) × (task.hour ≡ pos h) × (task.minute ≡ pos m) × (h < 24) × (m < 60)

-- The seconds of an interval are positive, and so fit into an int.
abbrev pub IsValid : ScheduleType → ScheduledTask → Type 0
IsValid once task = Unit {0}
IsValid daily task = HasTime task
IsValid weekly task = HasTime task × ((w : ℕ) × (task.weekday ≡ pos w) × (w < 7))
IsValid interval task = (s : ℕ) × (task.interval_seconds ≡ pos s) × (0 < s)
