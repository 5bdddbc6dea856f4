-- ===== src/Scheduler/Load.antt =====
-- LoadTasks and SaveTask themselves: the front matter, and what becomes of a file that is read.
mod Front
mod Fields
mod Lines
mod RoundTrip
mod Table
mod Uniform
mod Restart
mod Tests
use claw.Base.{
  ℕ, ◌-◌, String, Bool, true, false, not, ◌&&◌, Option, none, some, List, [], ◌∷◌, ◌++◌, ◌==◌,
  string_eq, ltb, if◌then◌else◌, length, drop, decimal,
}
use claw.Base.Int.{ℤ, pos, negsuc, leb_ℤ}
use claw.Base.Bytes.{Bytes, codes, bytes_eq, text_of}
use claw.Base.Find.{after, find, pieces}
use claw.Base.Dict.{insert}
use claw.Scheduler.Calendar.{Tm, Calendar, from_time_t, to_time_t}
use claw.Scheduler.Defs.{
  ScheduleType, TaskStatus, ScheduledTask, Tasks, active, paused, completed, failed, cancelled,
  is_once, compute_next_run,
}
use claw.Scheduler.Parse.{stoi, parse_schedule}
use claw.Scheduler.Views.{status_to_string, string_to_status}
use claw.Scheduler.Files.{Formats, blank_task, field, quoted, table_text, unquote, read_history}

abbrev pub set_count : (ℕ → ScheduledTask) → ScheduledTask → Option ℤ → Option ScheduledTask
set_count set task none = some task
set_count set task (some (pos v)) = some (set v)
set_count set task (some (negsuc v)) = none

abbrev pub delimiter : Bytes
delimiter = codes "---" ++ (0x0a ∷ [])

-- content.substr(0, 4) and the search from there.
abbrev pub front_of : Option (Bytes × Bytes) → Option Bytes
front_of none = none
front_of (some (front, rest)) = some front

abbrev pub front_after : Option Bytes → Option Bytes
front_after none = none
front_after (some rest) = front_of (find (0x0a ∷ delimiter) rest)

unfoldable pub front_matter : Bytes → Option Bytes
front_matter content = front_after (after delimiter content)

-- What becomes of a file: it is passed over, or gives a task. A negative count in it is `beyond` the
-- model, whose tasks count with natural numbers; SaveTask writes none.
pub data Loading : Type 0 where
  skipped : Loading
  beyond : Loading
  loaded : ScheduledTask → Loading

-- What the C++ program finds at the time of a file: a member that nothing sets, the clock where
-- ParseTime reads it for a key, where the task's next run is compared, and in ComputeNextRun.
pub record Moment : Type 0 where
  pub held : ScheduleType
  pub clock : Bytes → ℤ
  pub now : ℤ
  pub then_ : ℤ

pub record TaskFile : Type 0 where
  pub name : Bytes
  pub content : Option Bytes
  pub moment : Moment

abbrev pub is_kept : TaskStatus → Bool
is_kept active = true
is_kept paused = true
is_kept _ = false

-- name.size() < 4, and the last three characters.
abbrev pub is_task_name : Bytes → Bool
is_task_name name =
    if ltb (length name) 4 then false else (drop (length name - 3) name == codes ".md")

abbrev pub store_loaded : Tasks → Loading → Option Tasks
store_loaded tasks skipped = some tasks
store_loaded tasks beyond = none
store_loaded tasks (loaded task) = some (insert task.id task tasks)

module _ (c : Calendar) (f : Formats) where
  unfoldable pub format_time : ℤ → Bytes
  format_time t = f.strftime (c.localtime (to_time_t t))

  abbrev time_of : Tm → ℤ
  time_of tm = from_time_t (c.mktime (record tm { tm_isdst = negsuc 0 })).0

  abbrev pub time_or_now : ℤ → Option Tm → ℤ
  time_or_now now none = now
  time_or_now now (some tm) = time_of tm

  abbrev pub parsed_time : ℤ → Bytes → Tm × Bool → ℤ
  parsed_time now text (tm, true) = time_of tm
  parsed_time now text (tm, false) = time_or_now now (f.strptime_minutes text tm)

  unfoldable pub read_time : ℤ → Bytes → ℤ
  read_time now text = parsed_time now text (f.strptime_seconds text)

  -- The text of SaveTask. The last run is written where there is one.
  unfoldable pub save_task : ScheduledTask → Bytes
  save_task task =
      let counts = field "run_count" (codes (decimal task.run_count)) (
        field "fail_count" (codes (decimal task.fail_count)) (
          field "max_retries" (codes (decimal task.max_retries))
            (delimiter ++ (0x0a ∷ table_text (pos task.run_count) task.history)))) in
      delimiter
      ++ field "id" (codes task.id) (
          field "schedule" (codes task.schedule_expr) (
            field "prompt" (quoted (codes task.prompt)) (
              field "session_id" (codes task.session_id) (
                field "status" (codes (status_to_string task.status)) (
                  field "created_at" (format_time task.created_at) (
                    field "next_run" (format_time task.next_run) (
                      if ltb 0 task.run_count
                      then field "last_run" (format_time task.last_run) counts
                      else counts)))))))

  abbrev pub set_field : (Bytes → ℤ) → Bytes → Bytes → ScheduledTask → Option ScheduledTask
  set_field clock key val task =
      if key == codes "id"
      then some (record task { id = text_of val })
      else if key == codes "schedule"
      then some (record task { schedule_expr = text_of val })
      else if key == codes "prompt"
      then some (record task { prompt = text_of val })
      else if key == codes "session_id"
      then some (record task { session_id = text_of val })
      else if key == codes "status"
      then some (record task { status = string_to_status (text_of val) })
      else if key == codes "created_at"
      then some (record task { created_at = read_time (clock key) val })
      else if key == codes "next_run"
      then some (record task { next_run = read_time (clock key) val })
      else if key == codes "last_run"
      then some (record task { last_run = read_time (clock key) val })
      else if key == codes "run_count"
      then set_count (λ v. record task { run_count = v }) task (stoi val)
      else if key == codes "fail_count"
      then set_count (λ v. record task { fail_count = v }) task (stoi val)
      else if key == codes "max_retries"
      then set_count (λ v. record task { max_retries = v }) task (stoi val)
      else some task

  abbrev pub read_pair : (Bytes → ℤ) → Option (Bytes × Bytes) → ScheduledTask → Option ScheduledTask
  read_pair clock none task = some task
  read_pair clock (some (key, val)) task = set_field clock key (unquote val) task

  abbrev pub read_line : (Bytes → ℤ) → Bytes → ScheduledTask → Option ScheduledTask
  read_line clock line task = read_pair clock (find (codes ": ") line) task

  abbrev pub read_lines : (Bytes → ℤ) → List Bytes → ScheduledTask → Option ScheduledTask
  read_lines clock [] task = some task
  read_lines clock (line ∷ lines) task = elim (read_line clock line task) [
    | none ↦ none
    | some task' ↦ read_lines clock lines task'
  ]

  -- A recurring task that is due gets its next run.
  abbrev pub refreshed : Moment → ScheduledTask → ScheduledTask
  refreshed moment task =
      if not (is_once task.schedule_type) && leb_ℤ task.next_run moment.now
      then compute_next_run c task moment.then_
      else task

  abbrev pub keep_task : Moment → ScheduledTask → Loading
  keep_task moment task = if is_kept task.status then loaded (refreshed moment task) else skipped

  abbrev pub with_history : Bytes → ScheduledTask → ScheduledTask
  with_history content task = record (parse_schedule c task.schedule_expr task).0 {
    history = task.history ++ read_history content;
  }

  abbrev pub finish : Moment → Bytes → Option ScheduledTask → Loading
  finish moment content none = beyond
  finish moment content (some task) =
      if task.id == "" then skipped else keep_task moment (with_history content task)

  abbrev pub load_front : Moment → Bytes → Option Bytes → Loading
  load_front moment content none = skipped
  load_front moment content (some front) =
      finish moment content (read_lines moment.clock (pieces 0x0a front) (blank_task moment.held))

  unfoldable pub load_content : Moment → Bytes → Loading
  load_content moment content = load_front moment content (front_matter content)

  abbrev pub load_opened : Moment → Option Bytes → Loading
  load_opened moment none = skipped
  load_opened moment (some content) = load_content moment content

  unfoldable pub load_file : TaskFile → Loading
  load_file file = if is_task_name file.name then load_opened file.moment file.content else skipped

  -- LoadTasks over the files in the order of readdir; `none` where a file is beyond the model.
  unfoldable pub load_files : List TaskFile → Tasks → Option Tasks
  load_files [] tasks = some tasks
  load_files (file ∷ files) tasks = elim (store_loaded tasks (load_file file)) [
    | none ↦ none
    | some tasks' ↦ load_files files tasks'
  ]
