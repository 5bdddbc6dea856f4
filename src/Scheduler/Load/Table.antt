-- ===== src/Scheduler/Load/Table.antt =====
-- The table that LoadTasks leaves.
use claw.Base.{
  String, ◌≡◌, refl, sym, ap, ◌∙◌, true, not, ◌&&◌, Option, none, some, List, [], ◌∷◌, ◌==◌,
  string_eq, eq_iff, arith, if_cases, subst, Option-cases, inl, inr,
}
use mathlib.Core.Option.{some_inj, none-ne-some}
use claw.Base.Int.{ℤ, leb_ℤ}
use claw.Base.Bytes.{Bytes}
use claw.Base.Find.{pieces}
use claw.Base.Dict.{lookup, insert, lookup-insert, lookup-nil}
use claw.Scheduler.Calendar.{Calendar}
use claw.Scheduler.Defs.{
  ScheduleType, once, daily, weekly, interval, ScheduledTask, Tasks, is_once, compute_next_run,
}
use claw.Scheduler.Files.{Formats, blank_task}
use claw.Scheduler.Load.{
  Loading, skipped, beyond, loaded, Moment, TaskFile, is_kept, is_task_name, store_loaded,
  refreshed, keep_task, with_history, finish, load_front, load_content, load_opened, load_file,
  load_files, read_lines, front_matter,
}

-- The tasks of a table stand under their identifiers and are active or paused.
abbrev AllKept : Tasks → Type 0
AllKept tasks =
    (id : String) (task : ScheduledTask)
    → lookup id tasks ≡ some task
    → (task.id ≡ id) × (is_kept task.status ≡ true)

abbrev IsKept : Loading → Type 0
IsKept skipped = Unit
IsKept beyond = Unit
IsKept (loaded task) = is_kept task.status ≡ true

module _ (c : Calendar) (f : Formats) where
  status-compute_next_run :
      (task : ScheduledTask) (now : ℤ) → (compute_next_run c task now).status ≡ task.status
  unfolding compute_next_run
  status-compute_next_run task now = by_type task.schedule_type
    where
      by_type :
          (t : ScheduleType)
          → (compute_next_run c (record task { schedule_type = t }) now).status ≡ task.status
      by_type once = refl
      by_type daily = refl
      by_type weekly = refl
      by_type interval = refl

  IsKept-keep_task : (moment : Moment) (task : ScheduledTask) → IsKept (keep_task c f moment task)
  IsKept-keep_task moment task =
      if_cases IsKept (is_kept task.status) (loaded (refreshed c f moment task)) skipped
        (λ e.
          if_cases (λ t. is_kept t.status ≡ true)
            (not (is_once task.schedule_type) && leb_ℤ task.next_run moment.now)
            (compute_next_run c task moment.then_) task
            (λ due. ap is_kept (status-compute_next_run task moment.then_) ∙ e) (λ due. e))
        (λ e. tt)

  IsKept-finish :
      (moment : Moment) (content : Bytes) (o : Option ScheduledTask)
      → IsKept (finish c f moment content o)
  IsKept-finish moment content none = tt
  IsKept-finish moment content (some task) =
      if_cases IsKept (task.id == "") skipped (keep_task c f moment (with_history c f content task))
        (λ e. tt) (λ e. IsKept-keep_task moment (with_history c f content task))

  IsKept-load_front :
      (moment : Moment) (content : Bytes) (o : Option Bytes)
      → IsKept (load_front c f moment content o)
  IsKept-load_front moment content none = tt
  IsKept-load_front moment content (some front) =
      IsKept-finish moment content
        (read_lines c f moment.clock (pieces 0x0a front) (blank_task moment.held))

  IsKept-load_opened : (moment : Moment) (o : Option Bytes) → IsKept (load_opened c f moment o)
  unfolding load_content
  IsKept-load_opened moment none = tt
  IsKept-load_opened moment (some content) = IsKept-load_front moment content (front_matter content)

  IsKept-load_file : (file : TaskFile) → IsKept (load_file c f file)
  unfolding load_file
  IsKept-load_file file =
      if_cases IsKept (is_task_name file.name) (load_opened c f file.moment file.content) skipped
        (λ e. IsKept-load_opened file.moment file.content) (λ e. tt)

  AllKept-insert :
      (tasks : Tasks) (task : ScheduledTask)
      → AllKept tasks
      → is_kept task.status ≡ true
      → AllKept (insert task.id task tasks)
  AllKept-insert tasks task all h id t e =
      ground (arith, eq_iff task.id id, lookup-insert task.id id task tasks, all id t, e, h)

  AllKept-store_loaded :
      (tasks tasks' : Tasks) (l : Loading)
      → AllKept tasks
      → IsKept l
      → store_loaded tasks l ≡ some tasks'
      → AllKept tasks'
  AllKept-store_loaded tasks tasks' skipped all h e = subst AllKept (some_inj.0 e) all
  AllKept-store_loaded tasks tasks' beyond all h e = ground (arith, e)
  AllKept-store_loaded tasks tasks' (loaded task) all h e =
      subst AllKept (some_inj.0 e) (AllKept-insert tasks task all h)

  -- The rest of the files, from what a file made of the table.
  abbrev go_on : List TaskFile → Option Tasks → Option Tasks
  go_on files none = none
  go_on files (some tasks) = load_files c f files tasks

  AllKept-load_files :
      (files : List TaskFile) (tasks final : Tasks)
      → AllKept tasks
      → load_files c f files tasks ≡ some final
      → AllKept final
  unfolding load_files
  AllKept-load_files [] tasks final all e = subst AllKept (some_inj.0 e) all
  AllKept-load_files (file ∷ files) tasks final all e =
      let stored = store_loaded tasks (load_file c f file) in
      elim (Option-cases stored) [
        | inl e' ↦ absurd (none-ne-some final (ap (go_on files) (sym e') ∙ e))
        | inr (tasks', e') ↦
            AllKept-load_files files tasks' final
              (AllKept-store_loaded tasks tasks' (load_file c f file) all (IsKept-load_file file)
                e')
              (ap (go_on files) (sym e') ∙ e)
      ]

  -- LoadTasks at a start, whatever the files hold: every task of the table stands under its own
  -- identifier and is active or paused.
  pub load_files-kept :
      (files : List TaskFile) (tasks : Tasks) (id : String) (task : ScheduledTask)
      → load_files c f files [] ≡ some tasks
      → lookup id tasks ≡ some task
      → (task.id ≡ id) × (is_kept task.status ≡ true)
  load_files-kept files tasks id task e found =
      AllKept-load_files files [] tasks
        (λ j t h. ground (arith, lookup-nil {V = ScheduledTask} j, h)) e id task found
