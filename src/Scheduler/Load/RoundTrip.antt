-- ===== src/Scheduler/Load/RoundTrip.antt =====
-- A task that SaveTask writes is the task that LoadTasks reads, to the second and but for the schedule.
use claw.Base.{◌≡◌, refl, sym, ap, ◌∙◌, subst, some, [], ◌∷◌, nat_eq, string_eq, ltb}
use claw.Base.Int.{pos}
use claw.Base.Bytes.{codes, bytes_eq}
use claw.Base.Find.{after}
use claw.Scheduler.Calendar.{Calendar}
use claw.Scheduler.Defs.{ScheduledTask}
use claw.Scheduler.Parse.{parse_schedule}
use claw.Scheduler.Files.{Formats, blank_task, read_history}
use claw.Scheduler.Files.Places.{Gives, table-Gives, line-Gives}
use claw.Scheduler.Load.{
  delimiter, front_of, front_after, front_matter, Moment, save_task, read_lines, load_content,
  keep_task, finish, load_front,
}
use claw.Scheduler.Load.Front.{
  joined, without→Without, find-with_lines, pieces-joined, with_lines-Gives,
}
use claw.Scheduler.Load.Lines.{
  first_line, table_part, next_lines, save_task-lines, lines-IsLine, read_front,
}
use claw.Scheduler.Load.Fields.{IsReadable, IsSaveable, persisted}

module _ (c : Calendar) (f : Formats) (task : ScheduledTask) where
  saved-Gives : IsReadable c f → IsSaveable task → Gives (save_task c f task) task.history
  saved-Gives readable h =
      let ran = ltb 0 task.run_count in
      let table = table-Gives (pos task.run_count) task.history h.history in
      let dashes = without→Without (codes "---") refl in
      subst (λ t. Gives t task.history) (sym (save_task-lines c f task))
        (line-Gives (codes "---") dashes refl (
          with_lines-Gives ((first_line c f task) ∷ next_lines c f task ran)
            (lines-IsLine c f task readable h ran)
            (line-Gives (codes "---") dashes refl (line-Gives [] tt tt table))))

  front_matter-save_task :
      IsReadable c f
      → IsSaveable task
      → front_matter (save_task c f task)
        ≡ some (joined (first_line c f task) (next_lines c f task (ltb 0 task.run_count)))
  unfolding front_matter
  front_matter-save_task readable h =
      let lines = next_lines c f task (ltb 0 task.run_count) in
      ap (λ t. front_after (after delimiter t)) (save_task-lines c f task)
      ∙ ap front_of (
          find-with_lines (first_line c f task) lines (table_part c f task)
            (lines-IsLine c f task readable h (ltb 0 task.run_count)))

  -- If the C library reads back the texts of times that it writes, and the task has no line break in its
  -- texts, no value but the prompt in quotes, counts that fit an int, times after the epoch and clean
  -- entries in its history: LoadTasks reads the file that SaveTask writes as the task with all of its
  -- texts, its status, its counts and its history, and its times to the second, and then sets the
  -- members of the schedule from its text. The prompt may hold anything else, the title of the history
  -- and quotes included.
  pub load_content-save_task :
      (moment : Moment)
      → IsReadable c f
      → IsSaveable task
      → load_content c f moment (save_task c f task)
        ≡ keep_task c f moment
            (record (parse_schedule c task.schedule_expr (persisted moment.held task)).0 {
              history = task.history;
            })
  unfolding load_content read_history
  load_content-save_task moment readable h =
      let content = save_task c f task in
      let kept = persisted moment.held task in
      let lines = next_lines c f task (ltb 0 task.run_count) in
      ap (load_front c f moment content) (front_matter-save_task readable h)
      ∙ ap
          (λ ls.
            finish c f moment content (read_lines c f moment.clock ls (blank_task moment.held)))
          (pieces-joined (first_line c f task) lines
            (lines-IsLine c f task readable h (ltb 0 task.run_count)))
      ∙ ap (finish c f moment content)
          (read_front c f task moment.clock readable h moment.held (ltb 0 task.run_count))
      ∙ rw h.id-ne (
          ap
            (λ entries.
              keep_task c f moment
                (record (parse_schedule c task.schedule_expr kept).0 { history = entries }))
            (saved-Gives readable h).found)
