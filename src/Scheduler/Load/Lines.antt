-- ===== src/Scheduler/Load/Lines.antt =====
-- The lines that SaveTask writes for a task, each read back by LoadTasks.
use claw.Base.{
  ℕ, ◌/◌, ◌≤◌, String, ◌≡◌, refl, sym, ap, ◌∙◌, subst, Bool, true, false, Bool-cases, inl, inr,
  Option, none, some, List, [], ◌∷◌, ◌++◌, ◌==◌, nat_eq, string_eq, All, All-append, ltb, decimal,
  if◌then◌else◌,
}
use claw.Base.Int.{ℤ, pos}
use claw.Base.Bytes.{Bytes, codes, bytes_eq, text_of, text_of-codes}
use claw.Base.Find.{Without, with_lines}
use claw.Base.Text.Decimal.{AllDigits-decimal, digits-Without}
use claw.Scheduler.Calendar.{Calendar, to_time_t}
use claw.Scheduler.Defs.{
  ScheduleType, TaskStatus, active, paused, completed, failed, cancelled, ScheduledTask,
}
use claw.Scheduler.Parse.{stoi, int_max}
use claw.Scheduler.Views.{status_to_string, string_to_status, string_to_status-to_string}
use claw.Scheduler.Files.{Formats, blank_task, quoted, unquote, table_text}
use claw.Scheduler.Load.{set_count, delimiter, format_time, save_task, read_lines}
use claw.Scheduler.Load.Front.{IsLine, without→Without, is_key→IsLine}
use claw.Scheduler.Load.Fields.{
  IsReadable, IsSaveable, to_second, persisted, unquote-quoted, unquote-status, text_of-unquote,
  stoi-unquote, read_time-format_time,
}

abbrev line_of : String → Bytes → Bytes
line_of key value = codes key ++ (0x3a ∷ 0x20 ∷ value)

abbrev count_lines : ScheduledTask → List Bytes
count_lines task =
    line_of "run_count" (codes (decimal task.run_count))
    ∷ line_of "fail_count" (codes (decimal task.fail_count))
    ∷ line_of "max_retries" (codes (decimal task.max_retries))
    ∷ []

quoted-Without : (x : Bytes) → Without 0x0a x → Without 0x0a (quoted x)
quoted-Without x h = (refl, All-append (λ c. (c == 0x0a) ≡ false) x (0x22 ∷ []) h (refl, tt))

status-Without : (s : TaskStatus) → Without 0x0a (codes (status_to_string s))
unfolding status_to_string
status-Without active = without→Without (codes "active") refl
status-Without paused = without→Without (codes "paused") refl
status-Without completed = without→Without (codes "completed") refl
status-Without failed = without→Without (codes "failed") refl
status-Without cancelled = without→Without (codes "cancelled") refl

module _ (c : Calendar) (f : Formats) (task : ScheduledTask) where
  abbrev late_lines : Bool → List Bytes
  late_lines true = line_of "last_run" (format_time c f task.last_run) ∷ count_lines task
  late_lines false = count_lines task

  abbrev pub first_line : Bytes
  first_line = line_of "id" (codes task.id)

  abbrev pub next_lines : Bool → List Bytes
  next_lines ran =
      line_of "schedule" (codes task.schedule_expr)
      ∷ line_of "prompt" (quoted (codes task.prompt))
      ∷ line_of "session_id" (codes task.session_id)
      ∷ line_of "status" (codes (status_to_string task.status))
      ∷ line_of "created_at" (format_time c f task.created_at)
      ∷ line_of "next_run" (format_time c f task.next_run)
      ∷ late_lines ran

  abbrev pub table_part : Bytes
  table_part = 0x0a ∷ table_text (pos task.run_count) task.history

  pub save_task-lines :
      save_task c f task
      ≡ delimiter
        ++ with_lines (first_line ∷ next_lines (ltb 0 task.run_count)) (delimiter ++ table_part)
  unfolding save_task
  save_task-lines = elim (Bool-cases (ltb 0 task.run_count)) [
    | inl e ↦ rw e refl
    | inr e ↦ rw e refl
  ]

  module _ (clock : Bytes → ℤ) where
    -- The rest of the lines, from what a line made of the task.
    abbrev go_on : List Bytes → Option ScheduledTask → Option ScheduledTask
    go_on lines none = none
    go_on lines (some t) = read_lines c f clock lines t

    count_line :
        (set : ℕ → ScheduledTask) (t : ScheduledTask) (lines : List Bytes) (n : ℕ)
        → n ≤ int_max
        → go_on lines (set_count set t (stoi (unquote (codes (decimal n)))))
          ≡ read_lines c f clock lines (set n)
    count_line set t lines n l = ap (λ o. go_on lines (set_count set t o)) (stoi-unquote n l)

    read_counts :
        (t : ScheduledTask)
        → IsSaveable task
        → read_lines c f clock (count_lines task) t
          ≡ some (record t {
            run_count = task.run_count;
            fail_count = task.fail_count;
            max_retries = task.max_retries;
          })
    read_counts t h =
        let fails = line_of "fail_count" (codes (decimal task.fail_count)) in
        let maxes = line_of "max_retries" (codes (decimal task.max_retries)) in
        let after_runs = record t { run_count = task.run_count } in
        let after_fails = record after_runs { fail_count = task.fail_count } in
        count_line (λ v. record t { run_count = v }) t (fails ∷ maxes ∷ []) task.run_count
          h.run_count-le
        ∙ count_line (λ v. record after_runs { fail_count = v }) after_runs (maxes ∷ [])
            task.fail_count h.fail_count-le
        ∙ count_line (λ v. record after_fails { max_retries = v }) after_fails [] task.max_retries
            h.max_retries-le

    abbrev persisted_as : ScheduleType → Bool → ScheduledTask
    persisted_as held ran = record (persisted held task) {
      last_run = if ran then to_second task.last_run else pos 0;
    }

    module _ (readable : IsReadable c f) (h : IsSaveable task) where
      read_late :
          (ran : Bool) (t : ScheduledTask)
          → read_lines c f clock (late_lines ran) t
            ≡ some (record t {
              last_run = if ran then to_second task.last_run else t.last_run;
              run_count = task.run_count;
              fail_count = task.fail_count;
              max_retries = task.max_retries;
            })
      read_late true t =
          let now = clock (codes "last_run") in
          ap (λ v. read_lines c f clock (count_lines task) (record t { last_run = v }))
            (read_time-format_time c f readable now task.last_run h.last h.last_run)
          ∙ read_counts (record t { last_run = to_second task.last_run }) h
      read_late false t = read_counts t h

      pub read_front :
          (held : ScheduleType) (ran : Bool)
          → read_lines c f clock (first_line ∷ next_lines ran) (blank_task held)
            ≡ some (persisted_as held ran)
      read_front held ran =
          let id = text_of-unquote task.id h.id_bare in
          let expr = text_of-unquote task.schedule_expr h.expr_bare in
          let prompt =
            ap text_of (unquote-quoted (codes task.prompt)) ∙ text_of-codes task.prompt in
          let session = text_of-unquote task.session_id h.session_bare in
          let status =
            ap string_to_status
              (text_of-unquote (status_to_string task.status) (unquote-status task.status))
            ∙ string_to_status-to_string task.status in
          let time = read_time-format_time c f readable in
          let created = time (clock (codes "created_at")) task.created_at h.created h.created_at in
          let next = time (clock (codes "next_run")) task.next_run h.next h.next_run in
          ap (read_lines c f clock (late_lines ran)) (λ i. record (blank_task held) {
            id = id i;
            schedule_expr = expr i;
            prompt = prompt i;
            session_id = session i;
            status = status i;
            created_at = created i;
            next_run = next i;
          })
          ∙ read_late ran _

  format_time-Without :
      IsReadable c f → (t : ℤ) (n : ℕ) → t ≡ pos n → Without 0x0a (format_time c f t)
  unfolding format_time
  format_time-Without readable t n e =
      subst (λ t. Without 0x0a (f.strftime (c.localtime (to_time_t t)))) (sym e)
        (readable.strftime-Without (n / 1000000000))

  pub lines-IsLine :
      IsReadable c f → IsSaveable task → (ran : Bool) → All IsLine (first_line ∷ next_lines ran)
  lines-IsLine readable h ran =
      let time = format_time-Without readable in
      (
        is_key→IsLine (codes "id") _ refl h.id-Without,
        (
          is_key→IsLine (codes "schedule") _ refl h.expr-Without,
          (
            is_key→IsLine (codes "prompt") (quoted (codes task.prompt)) refl
                (quoted-Without _ h.prompt-Without),
            (
              is_key→IsLine (codes "session_id") _ refl h.session-Without,
              (
                is_key→IsLine (codes "status") _ refl (status-Without task.status),
                (
                  is_key→IsLine (codes "created_at") _ refl (time _ h.created h.created_at),
                  (
                    is_key→IsLine (codes "next_run") _ refl (time _ h.next h.next_run),
                    late-IsLine ran,
                  ),
                ),
              ),
            ),
          ),
        ),
      )
    where
      number : (n : ℕ) → Without 0x0a (codes (decimal n))
      number n = digits-Without (codes (decimal n)) (AllDigits-decimal n)

      counts-IsLine : All IsLine (count_lines task)
      counts-IsLine = (
        is_key→IsLine (codes "run_count") _ refl (number task.run_count),
        (
          is_key→IsLine (codes "fail_count") _ refl (number task.fail_count),
          (is_key→IsLine (codes "max_retries") _ refl (number task.max_retries), tt),
        ),
      )

      late-IsLine : (ran : Bool) → All IsLine (late_lines ran)
      late-IsLine true = (
        is_key→IsLine (codes "last_run") _ refl (format_time-Without readable _ h.last h.last_run),
        counts-IsLine,
      )
      late-IsLine false = counts-IsLine
