-- ===== src/Scheduler/Views.antt =====
-- The reports of TaskScheduler: ListTasks and GetTaskHistory, with the names of types and states.
use claw.Base.{
  String, ◌≡◌, refl, not, ◌&&◌, none, some, List, [], ◌∷◌, map, ltb, ◌==◌, string_eq, if◌then◌else◌,
}
use claw.Base.Int.{ℤ, pos}
use claw.Base.Dict.{lookup}
use claw.Json.{JsonLib}
use claw.Scheduler.Defs.{
  ScheduleType, once, daily, weekly, interval, TaskStatus, active, paused, completed, failed,
  cancelled, TaskExecEntry, ScheduledTask, Tasks,
}

unfoldable pub schedule_type_to_string : ScheduleType → String
schedule_type_to_string once = "once"
schedule_type_to_string daily = "daily"
schedule_type_to_string weekly = "weekly"
schedule_type_to_string interval = "interval"

unfoldable pub string_to_schedule_type : String → ScheduleType
string_to_schedule_type s =
    if s == "once"
    then once
    else if s == "daily"
    then daily
    else if s == "weekly"
    then weekly
    else if s == "interval"
    then interval
    else once

unfoldable pub status_to_string : TaskStatus → String
status_to_string active = "active"
status_to_string paused = "paused"
status_to_string completed = "completed"
status_to_string failed = "failed"
status_to_string cancelled = "cancelled"

unfoldable pub string_to_status : String → TaskStatus
string_to_status s =
    if s == "active"
    then active
    else if s == "paused"
    then paused
    else if s == "completed"
    then completed
    else if s == "failed"
    then failed
    else if s == "cancelled"
    then cancelled
    else active

pub string_to_status-to_string : (s : TaskStatus) → string_to_status (status_to_string s) ≡ s
unfolding string_to_status status_to_string
string_to_status-to_string active = refl
string_to_status-to_string paused = refl
string_to_status-to_string completed = refl
string_to_status-to_string failed = refl
string_to_status-to_string cancelled = refl

module _ (json : JsonLib) (format_time : ℤ → String) where
  open json use {Json, of_string, of_int, of_items, of_elements}

  -- The last run is shown where there is one.
  abbrev task_json : ScheduledTask → Json
  task_json task = of_items (
      ("id", of_string task.id)
      ∷ ("schedule", of_string task.schedule_expr)
      ∷ ("prompt", of_string task.prompt)
      ∷ ("session_id", of_string task.session_id)
      ∷ ("status", of_string (status_to_string task.status))
      ∷ ("next_run", of_string (format_time task.next_run))
      ∷ ("run_count", of_int (pos task.run_count))
      ∷ ("created_at", of_string (format_time task.created_at))
      ∷ (if ltb 0 task.run_count
          then ("last_run", of_string (format_time task.last_run)) ∷ []
          else []))

  abbrev listed : String → Tasks → List Json
  listed session_id [] = []
  listed session_id ((id, task) ∷ rest) =
      let later = listed session_id rest in
      if not (session_id == "") && not (task.session_id == session_id)
      then later
      else task_json task ∷ later

  -- An empty session lists all tasks.
  unfoldable pub list_tasks : Tasks → String → Json
  list_tasks tasks session_id = of_elements (listed session_id tasks)

  abbrev entry_json : TaskExecEntry → Json
  entry_json e = of_items (
      ("timestamp", of_string e.timestamp)
      ∷ ("status", of_string e.status)
      ∷ ("duration_ms", of_int e.duration_ms)
      ∷ ("result", of_string e.result_summary)
      ∷ [])

  unfoldable pub get_task_history : Tasks → String → Json
  get_task_history tasks task_id = elim (lookup task_id tasks) [
    | none ↦ of_items (("error", of_string "Task not found") ∷ [])
    | some task ↦ of_items (
        ("id", of_string task.id)
        ∷ ("schedule", of_string task.schedule_expr)
        ∷ ("status", of_string (status_to_string task.status))
        ∷ ("run_count", of_int (pos task.run_count))
        ∷ ("history", of_elements (map entry_json task.history))
        ∷ [])
  ]
