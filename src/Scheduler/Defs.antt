-- ===== src/Scheduler/Defs.antt =====
-- The tasks of TaskScheduler: what is kept of each, and the methods that change the table.
use claw.Base.{
  ℕ, zero, suc, ◌*◌, String, ◌⧺◌, Bool, true, false, ◌&&◌, Option, none, some, List, [], ◌∷◌,
  string_eq, ◌=ℕ◌, ltb, leb, length, take, if◌then◌else◌,
}
use claw.Base.Int.{ℤ, pos, negsuc, ◌-ℤ◌, ◌+ℤ◌, leb_ℤ, ltb_ℤ}
use claw.Base.Dict.{Dict, lookup, insert, member}
use claw.Scheduler.Calendar.{Tm, Calendar, from_time_t, to_time_t, at_time, later_by}

pub data ScheduleType : Type 0 where
  once daily weekly interval : ScheduleType

pub data TaskStatus : Type 0 where
  active paused completed failed cancelled : TaskStatus

abbrev pub is_active : TaskStatus → Bool
is_active active = true
is_active _ = false

abbrev pub is_cancelled : TaskStatus → Bool
is_cancelled cancelled = true
is_cancelled _ = false

abbrev pub is_once : ScheduleType → Bool
is_once once = true
is_once _ = false

pub record TaskExecEntry : Type 0 where
  pub timestamp : String
  pub status : String
  pub duration_ms : ℤ
  pub result_summary : String

pub record ScheduledTask : Type 0 where
  pub id : String
  pub schedule_type : ScheduleType
  pub schedule_expr : String
  pub prompt : String
  pub session_id : String
  pub status : TaskStatus
  pub next_run : ℤ
  pub created_at : ℤ
  pub last_run : ℤ
  pub run_count : ℕ
  pub fail_count : ℕ
  pub max_retries : ℕ
  pub interval_seconds : ℤ
  pub hour : ℤ
  pub minute : ℤ
  pub weekday : ℤ
  pub history : List TaskExecEntry

abbrev pub Tasks : Type 0
Tasks = Dict String ScheduledTask

abbrev pub max_history_entries : ℕ
max_history_entries = 50

-- The days until the weekday of a task.
abbrev pub days_ahead : ScheduledTask → Tm → ℤ
days_ahead task now_tm =
    let wait = task.weekday -ℤ now_tm.tm_wday in if ltb_ℤ wait (pos 0) then wait +ℤ pos 7 else wait

abbrev pub is_zero : ℤ → Bool
is_zero (pos n) = n =ℕ 0
is_zero (negsuc n) = false

abbrev pub is_due : ℤ → ScheduledTask → Bool
is_due now task = is_active task.status && leb_ℤ task.next_run now

module _ (c : Calendar) where
  abbrev pub next_daily : ScheduledTask → ℤ → ℤ
  next_daily task now_t =
      let next_t = (c.mktime (at_time (c.localtime now_t) task.hour task.minute)).0 in
      if leb_ℤ next_t now_t then next_t +ℤ pos (24 * 3600) else next_t

  abbrev pub next_weekly : ScheduledTask → ℤ → ℤ
  next_weekly task now_t =
      let now_tm = c.localtime now_t in
      let next = at_time now_tm task.hour task.minute in
      let days = days_ahead task now_tm in
      let (candidate, normal) = c.mktime next in
      if is_zero days
      then (c.mktime (later_by normal (if leb_ℤ candidate now_t then pos 7 else days))).0
      else (c.mktime (later_by next days)).0

  unfoldable pub compute_next_run : ScheduledTask → ℤ → ScheduledTask
  compute_next_run task now = elim task.schedule_type [
    | daily ↦ record task { next_run = from_time_t (next_daily task (to_time_t now)) }
    | interval ↦ record task { next_run = now +ℤ from_time_t task.interval_seconds }
    | once ↦ task
    | weekly ↦ record task { next_run = from_time_t (next_weekly task (to_time_t now)) }
  ]

  -- What a pass of SchedulerLoop makes of a task that is due; `then_` is the time that ComputeNextRun reads.
  unfoldable pub advance : ℤ → ScheduledTask → ScheduledTask
  advance then_ task =
      if is_once task.schedule_type
      then record task { status = completed }
      else compute_next_run task then_

  -- One pass of SchedulerLoop over the table: the table, and the identifiers that it queues.
  unfoldable pub scheduler_pass : ℤ → (String → ℤ) → Tasks → Tasks × List String
  scheduler_pass now clock [] = ([], [])
  scheduler_pass now clock ((id, task) ∷ rest) =
      let later = scheduler_pass now clock rest in
      if is_due now task
      then ((id, advance (clock id) task) ∷ later.0, id ∷ later.1)
      else ((id, task) ∷ later.0, later.1)

-- What ProcessPrompt did: its answer, or the text of an exception.
pub data Outcome : Type 0 where
  answered : String → Outcome
  thrown : String → Outcome

abbrev prefix : ℕ → String → String
prefix zero s = ""
prefix (suc n) String.[] = ""
prefix (suc n) (String.◌∷◌ c s) = String.◌∷◌ c (prefix n s)

abbrev text_size : String → ℕ
text_size String.[] = 0
text_size (String.◌∷◌ c s) = suc (text_size s)

-- A long answer is cut for the history.
abbrev pub summary : String → String
summary result = if ltb 200 (text_size result) then prefix 197 result ⧺ "..." else result

abbrev pub exec_entry : String → ℕ → Outcome → TaskExecEntry
exec_entry timestamp duration (answered result) = record {
  timestamp = timestamp;
  status = "success";
  duration_ms = pos duration;
  result_summary = summary result;
}
exec_entry timestamp duration (thrown what) = record {
  timestamp = timestamp;
  status = "failed";
  duration_ms = pos duration;
  result_summary = what;
}

abbrev pub counted : Outcome → ScheduledTask → ScheduledTask
counted (answered result) task = record task { fail_count = 0 }
counted (thrown what) task =
    let failing = record task { fail_count = suc task.fail_count } in
    if leb task.max_retries (suc task.fail_count)
    then record failing { status = failed }
    else failing

abbrev pub trim_entries : List TaskExecEntry → List TaskExecEntry
trim_entries entries =
    if ltb max_history_entries (length entries) then take max_history_entries entries else entries

-- ExecuteTask on its copy of the task.
unfoldable pub run_task : ScheduledTask → String → ℕ → Outcome → ℤ → ScheduledTask
run_task task timestamp duration outcome now =
    let done = counted outcome task in
    record done {
      last_run = now;
      run_count = suc task.run_count;
      history = trim_entries (exec_entry timestamp duration outcome ∷ task.history);
    }

-- The end of ExecuteTask: the copy is written over the table's entry.
unfoldable pub write_back : Tasks → ScheduledTask → Tasks
write_back tasks task = if member task.id tasks then insert task.id task tasks else tasks

-- ExecutorLoop with an identifier of its queue: the copy that it runs.
unfoldable pub task_to_run : Tasks → String → Option ScheduledTask
task_to_run tasks id = elim (lookup id tasks) [
  | none ↦ none
  | some task ↦ if is_cancelled task.status then none else some task
]

unfoldable pub cancel_task : Tasks → String → Tasks × Bool
cancel_task tasks id = elim (lookup id tasks) [
  | none ↦ (tasks, false)
  | some task ↦ (insert id (record task { status = cancelled }) tasks, true)
]
