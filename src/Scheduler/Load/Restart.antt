-- ===== src/Scheduler/Load/Restart.antt =====
-- A task that CreateTask makes and saves is the same after a restart of the daemon.
use claw.Base.{
  ◌≡◌, refl, sym, ap, ◌∙◌, subst, String, Bool, true, false, some, ◌==◌, string_eq, same_self,
  arith, if◌then◌else◌,
}
use mathlib.Core.Option.{some_inj}
use claw.Base.Int.{ℤ}
use claw.Base.Dict.{lookup, lookup-insert}
use claw.Scheduler.Calendar.{Calendar}
use claw.Scheduler.Defs.{
  ScheduleType, ScheduledTask, Tasks, once, daily, weekly, interval, is_once, compute_next_run,
}
use claw.Scheduler.Parse.{parse_schedule}
use claw.Scheduler.Create.{fresh_task, store_task, create_task}
use claw.Scheduler.Files.{Formats}
use claw.Scheduler.Load.{loaded, Moment, save_task, load_content, keep_task, refreshed}
use claw.Scheduler.Load.Fields.{IsReadable, IsSaveable, to_second, persisted}
use claw.Scheduler.Load.RoundTrip.{load_content-save_task}
use claw.Scheduler.Load.Uniform.{merge, IsSame, parse_schedule-Agrees}

-- A task after a restart: its times are cut to the second, but for the moment of a task that runs once,
-- which its schedule gives again.
abbrev pub reloaded : ScheduledTask → ScheduledTask
reloaded task = record task {
  created_at = to_second task.created_at;
  next_run = if is_once task.schedule_type then task.next_run else to_second task.next_run;
}

module _ (c : Calendar) (f : Formats) (moment : Moment) (id expr prompt session : String)
    (created now : ℤ) where
  abbrev first : ScheduledTask
  first = fresh_task id expr prompt session created

  -- The task whose schedule has set the members of `u`, as CreateTask stores it.
  abbrev stored : ScheduledTask → ScheduledTask
  stored u = compute_next_run c (merge first u) now

  first-IsSame : IsSame first first
  first-IsSame = record { interval_seconds = refl; hour = refl; minute = refl; weekday = refl }

  keep_stored :
      (u : ScheduledTask) (k : ScheduleType)
      → let v = record u { schedule_type = k } in
        keep_task c f moment (record (merge (persisted moment.held (stored v)) (merge first v)) {
          history = (stored v).history;
        })
        ≡ loaded (refreshed c f moment (reloaded (stored v)))
  unfolding compute_next_run
  keep_stored u once = refl
  keep_stored u daily = refl
  keep_stored u weekly = refl
  keep_stored u interval = refl

  stored-IsSame :
      (u : ScheduledTask) (k : ScheduleType)
      → let v = record u { schedule_type = k } in IsSame first (persisted moment.held (stored v))
  stored-IsSame u k = record { interval_seconds = refl; hour = refl; minute = refl; weekday = refl }

  expr-stored :
      (u : ScheduledTask) (k : ScheduleType)
      → let v = record u { schedule_type = k } in (stored v).schedule_expr ≡ expr
  unfolding compute_next_run
  expr-stored u once = refl
  expr-stored u daily = refl
  expr-stored u weekly = refl
  expr-stored u interval = refl

  load-stored :
      (u : ScheduledTask)
      → IsReadable c f
      → parse_schedule c expr first ≡ (merge first u, true)
      → IsSaveable (stored u)
      → load_content c f moment (save_task c f (stored u))
        ≡ loaded (refreshed c f moment (reloaded (stored u)))
  load-stored u readable accepted saveable =
      let y = persisted moment.held (stored u) in
      let agrees = parse_schedule-Agrees c first y (stored-IsSame u u.schedule_type) expr in
      let again = agrees (ap (λ (r : ScheduledTask × Bool). r.1) accepted) in
      load_content-save_task c f (stored u) moment readable saveable
      ∙ ap
          (λ e.
            keep_task c f moment (record (parse_schedule c e y).0 { history = (stored u).history }))
          (expr-stored u u.schedule_type)
      ∙ ap
          (λ (r : ScheduledTask × Bool).
            keep_task c f moment (record r.0 { history = (stored u).history }))
          (again ∙ ap (λ (r : ScheduledTask × Bool). (merge y r.0, true)) accepted)
      ∙ keep_stored u u.schedule_type

  -- The task that an accepted call of CreateTask leaves in the table.
  found_stored :
      (tasks : Tasks) (r : ScheduledTask × Bool) (task : ScheduledTask)
      → parse_schedule c expr first ≡ r
      → let made = store_task c tasks now r in
        (made.1 == "") ≡ false
        → lookup made.1 made.0 ≡ some task
        → (u : ScheduledTask) × (r ≡ (merge first u, true)) × (stored u ≡ task)
  found_stored tasks (t, false) task e ne found = absurd (ground (arith, ne))
  found_stored tasks (t, true) task e ne found =
      let again = parse_schedule-Agrees c first first first-IsSame expr in
      let is =
        sym e
        ∙ again (ap (λ (r : ScheduledTask × Bool). r.1) e)
        ∙ ap (λ (r : ScheduledTask × Bool). (merge first r.0, true)) e in
      (
        t,
        is,
        ap (λ s. compute_next_run c s now) (sym (ap (λ (r : ScheduledTask × Bool). r.0) is))
            ∙ some_inj.0 (
                sym (
                  lookup-insert t.id t.id (compute_next_run c t now) tasks
                  ∙ ap (λ b. if b then some (compute_next_run c t now) else lookup t.id tasks)
                      (same_self t.id))
                ∙ found),
      )

  -- If the C library reads back the texts of times that it writes: a task that CreateTask has accepted,
  -- with no line break in its texts, no value but the prompt in quotes and times after the epoch, which
  -- SaveTask saves as it is and LoadTasks reads at the next start, is the same task under the same
  -- schedule, whatever the schedule type holds before it is set. Its times are cut to the second, and
  -- if it repeats and its next run has passed meanwhile, it gets a new one.
  pub load_content-create_task :
      (tasks : Tasks) (task : ScheduledTask)
      → IsReadable c f
      → let made = create_task c tasks id expr prompt session created now in
        (made.1 == "") ≡ false
        → lookup made.1 made.0 ≡ some task
        → IsSaveable task
        → load_content c f moment (save_task c f task)
          ≡ loaded (refreshed c f moment (reloaded task))
  unfolding create_task
  load_content-create_task tasks task readable ne found saveable =
      let (u, accepted, is) = found_stored tasks (parse_schedule c expr first) task refl ne found in
      subst
        (λ t.
          IsSaveable t
          → load_content c f moment (save_task c f t) ≡ loaded (refreshed c f moment (reloaded t)))
        is (load-stored u readable accepted) saveable
