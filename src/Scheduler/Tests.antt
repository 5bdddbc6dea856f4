-- ===== src/Scheduler/Tests.antt =====
-- TaskScheduler at concrete inputs.
use claw.Base.{
  ℕ, suc, ◌+◌, ◌-◌, ◌*◌, ◌/◌, ◌%◌, ◌≤◌, ◌<◌, String, ◌≡◌, refl, ap, Bool, true, false, Option, none,
  some, List, [], ◌∷◌, arith, length, take, leb, ◌==◌, string_eq, if◌then◌else◌,
}
use claw.Base.Int.{ℤ, pos, negsuc, pos_part, ◌+ℤ◌, +ℤ_pos}
use claw.Base.Dict.{lookup, insert}
use claw.Scheduler.Calendar.{Calendar, IsRegular, at_time, later_by}
use claw.Scheduler.Defs.{
  ScheduledTask, Tasks, answered, thrown, weekly, cancelled, failed, is_active, exec_entry,
  compute_next_run, run_task, write_back, cancel_task, scheduler_pass, advance,
}
use claw.Scheduler.Parse.{next_word, stoi, parse_interval, parse_once, parse_schedule}
use claw.Scheduler.Written.{weekly_on, monday, parse_schedule-write}
use claw.Scheduler.Create.{fresh_task, create_task}
use claw.Scheduler.NextRun.{NextRun, compute_next_run_lem}
use claw.Scheduler.Threads.{System, initial, create, pass, Reach, here, next}
use claw.Scheduler.Sound.{dispatched}
use claw.Scheduler.Once.{Reach-once}
use claw.Scheduler.Runs.{FailingRun, failing_runs, failing_runs-status}

-- UTC, in a first month that does not end.
abbrev pub utc : Calendar
utc = record {
  localtime = λ t. record {
    tm_sec = pos (pos_part t % 60);
    tm_min = pos (pos_part t / 60 % 60);
    tm_hour = pos (pos_part t / 3600 % 24);
    tm_mday = pos (pos_part t / 86400 + 1);
    tm_mon = pos 0;
    tm_year = pos 70;
    tm_wday = pos ((pos_part t / 86400 + 4) % 7);
    tm_yday = pos (pos_part t / 86400);
    tm_isdst = pos 0;
  };
  mktime = λ tm. (
    pos (
        (pos_part tm.tm_mday - 1) * 86400
        + pos_part tm.tm_hour * 3600
        + pos_part tm.tm_min * 60
        + pos_part tm.tm_sec),
    record tm { tm_isdst = pos 0 },
  );
  strptime = λ text. some (record {
    tm_sec = pos 0;
    tm_min = pos 0;
    tm_hour = pos 9;
    tm_mday = pos 3;
    tm_mon = pos 0;
    tm_year = pos 70;
    tm_wday = pos 0;
    tm_yday = pos 0;
    tm_isdst = pos 0;
  });
}

utc-mktime :
    (t h m d : ℕ)
    → (utc.mktime (later_by (at_time (utc.localtime (pos t)) (pos h) (pos m)) (pos d))).0
      ≡ pos (t / 86400 * 86400 + d * 86400 + h * 3600 + m * 60)
utc-mktime t h m d = rw (+ℤ_pos (t / 86400 + 1) d) (ap pos (omega arith))

utc-IsRegular : IsRegular utc
utc-IsRegular = record {
  midnight = λ t. t / 86400 * 86400;
  day_of_week = λ t. (t / 86400 + 4) % 7;
  midnight-le = λ t. omega arith;
  lt-midnight = λ t. omega arith;
  day_of_week-lt = λ t. omega arith;
  tm_wday-localtime = λ t. refl;
  mktime-later_by = λ t h m d hh hm. utc-mktime t h m d;
  mktime-normal = λ t h m hh hm. refl;
}

abbrev mondays : ScheduledTask
mondays = record (fresh_task "t1" "weekly mon 09:00" "report" "s" (pos 0)) {
  schedule_type = weekly;
  hour = pos 9;
  minute = pos 0;
  weekday = pos 1;
}

compute_next_run_lem_example :
    NextRun utc utc-IsRegular weekly mondays 1000000000000
      (compute_next_run utc mondays (pos 1000000000000)).next_run
compute_next_run_lem_example =
    compute_next_run_lem utc utc-IsRegular mondays 1000000000000
      ((9, 0, refl, refl, omega arith, omega arith), (1, refl, omega arith))

-- The next Monday after the first of January 1970 is the fifth.
mondays_next :
    (compute_next_run utc mondays (pos 1000000000000)).next_run ≡ pos (378000 * 1000000000)
unfolding compute_next_run claw.Base.Int.◌-ℤ◌ ◌+ℤ◌
mondays_next = refl

parse_schedule-write_example :
    parse_schedule utc "weekly mon 9:30" (fresh_task "t1" "" "report" "s" (pos 0)) ≡ (
      record (fresh_task "t1" "" "report" "s" (pos 0)) {
        weekday = pos 1;
        hour = pos 9;
        minute = pos 30;
        schedule_type = weekly;
      },
      true,
    )
unfolding claw.Base.decimal
parse_schedule-write_example =
    parse_schedule-write utc (weekly_on monday 9 30) (fresh_task "t1" "" "report" "s" (pos 0))
      (ground arith, ground arith)

half_hours :
    (parse_schedule utc "Interval 30m" (fresh_task "t1" "" "report" "s" (pos 0))).0.interval_seconds
    ≡ pos 1800
unfolding parse_schedule next_word parse_interval stoi claw.Base.Int.int32
half_hours = refl

-- 40 million minutes do not fit: the interval is negative.
too_long :
    (parse_schedule utc "interval 40000000m"
      (fresh_task "t1" "" "report" "s" (pos 0))).0.interval_seconds
    ≡ negsuc 1894967295
unfolding parse_schedule next_word parse_interval stoi claw.Base.Int.int32
too_long = refl

abbrev created_tasks : Tasks
created_tasks = (create_task utc [] "t1" "once 1970-01-03 09:00" "report" "s" (pos 0) (pos 0)).0

abbrev one_due : Tasks × List String
one_due = scheduler_pass utc (pos 300000000000000) (λ id. pos 0) created_tasks

abbrev after_pass : System
after_pass = record initial { tasks = one_due.0; exec_queue = one_due.1 }

created_and_due : Reach utc initial after_pass
unfolding lookup
created_and_due =
    next (next here (create "t1" "once 1970-01-03 09:00" "report" "s" (pos 0) (pos 0) refl))
      (pass (pos 300000000000000) (λ id. pos 0))

abbrev finished_task : ScheduledTask
finished_task = record (fresh_task "t1" "once 1970-01-03 09:00" "report" "s" (pos 0)) {
  status = claw.Scheduler.Defs.completed;
  next_run = pos 205200000000000;
}

found_done : lookup "t1" after_pass.tasks ≡ some finished_task
unfolding lookup insert scheduler_pass advance create_task parse_schedule next_word parse_once
    compute_next_run
found_done = refl

Reach-once_example :
    (dispatched "t1" after_pass ≤ 1)
    × (is_active finished_task.status ≡ true → dispatched "t1" after_pass ≡ 0)
Reach-once_example = Reach-once utc "t1" finished_task created_and_due found_done refl

abbrev failure : FailingRun
failure = record { timestamp = "t"; duration = 5; what = "no answer"; ended = pos 9 }

failing_runs-status_example :
    let runs = failure ∷ failure ∷ failure ∷ [] in
    let done = failing_runs runs mondays in
    (done.fail_count ≡ mondays.fail_count + length runs)
    × (done.status ≡ (
        if leb mondays.max_retries (mondays.fail_count + length runs)
        then failed
        else mondays.status))
failing_runs-status_example =
    failing_runs-status (failure ∷ failure ∷ failure ∷ []) mondays (omega arith)

abbrev table : Tasks
table = ("t1", mondays) ∷ []

in_table : lookup "t1" table ≡ some mondays
unfolding lookup
in_table = refl
