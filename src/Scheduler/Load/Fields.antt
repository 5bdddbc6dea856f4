-- ===== src/Scheduler/Load/Fields.antt =====
-- Each value of a front matter, written by SaveTask and read back by LoadTasks.
use claw.Base.{
  ℕ, ◌/◌, ◌≤◌, String, ◌≡◌, refl, sym, ap, ◌∙◌, subst, true, false, some, [], ◌∷◌, ◌++◌, ◌==◌,
  nat_eq, string_eq, arith, All, ltb, decimal, if◌then◌else◌,
}
use claw.Base.Int.{ℤ, pos, negsuc}
use claw.Base.Bytes.{Bytes, codes, bytes_eq, text_of, text_of-codes}
use claw.Base.Find.{Without}
use claw.Base.Text.Decimal.{is_digit, AllDigits-decimal}
use claw.Scheduler.Calendar.{Tm, Calendar, from_time_t, to_time_t}
use claw.Scheduler.Defs.{
  ScheduleType, TaskStatus, active, paused, completed, failed, cancelled, ScheduledTask,
}
use claw.Scheduler.Parse.{split_last, stoi, int_max}
use claw.Scheduler.Views.{status_to_string}
use claw.Scheduler.Files.{Formats, blank_task, quoted, unquote}
use claw.Scheduler.Files.Cells.{IsClean}
use claw.Scheduler.Files.Rows.{stoi-decimal}
use claw.Scheduler.Load.{format_time, parsed_time, read_time}

-- What the C library promises of the texts of times: they are on one line, not in quotes, and read back.
pub record IsReadable (c : Calendar) (f : Formats) : Type 0 where
  pub read_tm : ℕ → Tm
  pub strftime-Without : (t : ℕ) → Without 0x0a (f.strftime (c.localtime (pos t)))
  pub unquote-strftime :
      (t : ℕ) → unquote (f.strftime (c.localtime (pos t))) ≡ f.strftime (c.localtime (pos t))
  pub strptime_seconds-strftime :
      (t : ℕ) → f.strptime_seconds (f.strftime (c.localtime (pos t))) ≡ (read_tm t, true)
  pub mktime-read_tm : (t : ℕ) → (c.mktime (record (read_tm t) { tm_isdst = negsuc 0 })).0 ≡ pos t

-- A task whose texts have no line break, whose values but the prompt have no quotes at both ends, and
-- whose numbers and times are those of an int and of a time after the epoch.
pub record IsSaveable (task : ScheduledTask) : Type 0 where
  pub id-ne : (task.id == "") ≡ false
  pub id-Without : Without 0x0a (codes task.id)
  pub id_bare : unquote (codes task.id) ≡ codes task.id
  pub expr-Without : Without 0x0a (codes task.schedule_expr)
  pub expr_bare : unquote (codes task.schedule_expr) ≡ codes task.schedule_expr
  pub prompt-Without : Without 0x0a (codes task.prompt)
  pub session-Without : Without 0x0a (codes task.session_id)
  pub session_bare : unquote (codes task.session_id) ≡ codes task.session_id
  pub created : ℕ
  pub created_at : task.created_at ≡ pos created
  pub next : ℕ
  pub next_run : task.next_run ≡ pos next
  pub last : ℕ
  pub last_run : task.last_run ≡ pos last
  pub run_count-le : task.run_count ≤ int_max
  pub fail_count-le : task.fail_count ≤ int_max
  pub max_retries-le : task.max_retries ≤ int_max
  pub history : All IsClean task.history

-- The second that a time falls in.
abbrev pub to_second : ℤ → ℤ
to_second t = from_time_t (to_time_t t)

-- What a file keeps of a task: neither its schedule nor its history is read from the front matter.
abbrev pub persisted : ScheduleType → ScheduledTask → ScheduledTask
persisted held task = record (blank_task held) {
  id = task.id;
  schedule_expr = task.schedule_expr;
  prompt = task.prompt;
  session_id = task.session_id;
  status = task.status;
  next_run = to_second task.next_run;
  created_at = to_second task.created_at;
  last_run = if ltb 0 task.run_count then to_second task.last_run else pos 0;
  run_count = task.run_count;
  fail_count = task.fail_count;
  max_retries = task.max_retries;
}

split_last-quoted : (c : ℕ) (text : Bytes) → split_last c (text ++ (0x22 ∷ [])) ≡ (c ∷ text, 0x22)
split_last-quoted c [] = refl
split_last-quoted c (d ∷ text) = ap (λ (r : Bytes × ℕ). (c ∷ r.0, r.1)) (split_last-quoted d text)

pub unquote-quoted : (text : Bytes) → unquote (quoted text) ≡ text
unquote-quoted [] = refl
unquote-quoted (c ∷ text) = rw (split_last-quoted c text) refl

unquote_digits : (x : Bytes) → All (λ c. is_digit c ≡ true) x → unquote x ≡ x
unquote_digits [] h = refl
unquote_digits (c ∷ []) h = refl
unquote_digits (c ∷ d ∷ x) h = rw (digit-ne-quote c h.0) refl
  where
    digit-ne-quote : (c : ℕ) → is_digit c ≡ true → (c == 0x22) ≡ false
    digit-ne-quote c h = ground (arith, h)

pub unquote-status :
    (s : TaskStatus) → unquote (codes (status_to_string s)) ≡ codes (status_to_string s)
unfolding status_to_string
unquote-status active = refl
unquote-status paused = refl
unquote-status completed = refl
unquote-status failed = refl
unquote-status cancelled = refl

-- Two reads of a value that is not in quotes.
pub text_of-unquote : (s : String) → unquote (codes s) ≡ codes s → text_of (unquote (codes s)) ≡ s
text_of-unquote s e = ap text_of e ∙ text_of-codes s

pub stoi-unquote : (n : ℕ) → n ≤ int_max → stoi (unquote (codes (decimal n))) ≡ some (pos n)
stoi-unquote n l =
    ap stoi (unquote_digits (codes (decimal n)) (AllDigits-decimal n)) ∙ stoi-decimal n l

module _ (c : Calendar) (f : Formats) (readable : IsReadable c f) where
  open readable use {
    read_tm, strftime-Without, unquote-strftime, strptime_seconds-strftime, mktime-read_tm,
  }

  read_time-seconds :
      (now : ℤ) (t : ℕ)
      → read_time c f now (unquote (f.strftime (c.localtime (pos t)))) ≡ from_time_t (pos t)
  unfolding read_time
  read_time-seconds now t =
      let text = f.strftime (c.localtime (pos t)) in
      ap (λ b. parsed_time c f now b (f.strptime_seconds b)) (unquote-strftime t)
      ∙ ap (parsed_time c f now text) (strptime_seconds-strftime t)
      ∙ ap from_time_t (mktime-read_tm t)

  -- A time after the epoch is read back to the second.
  pub read_time-format_time :
      (now t : ℤ) (n : ℕ)
      → t ≡ pos n
      → read_time c f now (unquote (format_time c f t)) ≡ to_second t
  unfolding format_time
  read_time-format_time now t n e =
      subst
        (λ t. read_time c f now (unquote (f.strftime (c.localtime (to_time_t t)))) ≡ to_second t)
        (sym e) (read_time-seconds now (n / 1000000000))
