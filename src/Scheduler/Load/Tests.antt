-- ===== src/Scheduler/Load/Tests.antt =====
-- SaveTask and LoadTasks at concrete inputs.
use claw.Base.{
  ℕ, zero, suc, ◌+◌, ◌*◌, ◌/◌, ◌%◌, String, ◌≡◌, refl, sym, ap, ◌∙◌, inl, inr, Bool, true, false,
  Option, none, some, List, [], ◌∷◌, ◌++◌, ◌==◌, nat_eq, string_eq, arith, length, replicate,
  length-replicate, All,
}
use claw.Base.Int.{pos, pos_part}
use claw.Base.Bytes.{codes}
use claw.Base.Find.{Without}
use claw.Base.Dict.{lookup}
use claw.Scheduler.Calendar.{Tm}
use claw.Scheduler.Defs.{ScheduledTask, TaskExecEntry, weekly, once, Tasks}
use claw.Scheduler.Parse.{parse_schedule}
use claw.Scheduler.Files.{Formats, unquote}
use claw.Scheduler.Files.Cells.{IsClean}
use claw.Scheduler.Load.{
  Moment, TaskFile, Loading, is_kept, load_content, load_files, save_task, keep_task,
}
use claw.Scheduler.Load.Front.{without→Without}
use claw.Scheduler.Load.Fields.{IsReadable, IsSaveable, persisted}
use claw.Scheduler.Load.RoundTrip.{load_content-save_task}
use claw.Scheduler.Load.Restart.{reloaded, load_content-create_task}
use claw.Scheduler.Create.{fresh_task, create_task}
use claw.Scheduler.Load.{refreshed, loaded}
use claw.Scheduler.Parse.{next_word, parse_interval, stoi}
use claw.Scheduler.Defs.{interval, compute_next_run}
use claw.Base.Dict.{insert}
use claw.Base.Int.{◌+ℤ◌}
use claw.Scheduler.Tests.{utc}

abbrev seconds : Tm → ℕ
seconds tm = pos_part (utc.mktime tm).0

-- Times as tally marks.
abbrev tally : Formats
tally = record {
  strftime = λ tm. replicate (seconds tm) 0x31;
  strptime_seconds = λ text. (utc.localtime (pos (length text)), true);
  strptime_minutes = λ text tm. none;
}

seconds-localtime : (t : ℕ) → seconds (utc.localtime (pos t)) ≡ t
seconds-localtime t = omega arith

replicate-Without : (n : ℕ) → Without 0x0a (replicate n 0x31)
replicate-Without zero = tt
replicate-Without (suc n) = (refl, replicate-Without n)

unquote-replicate : (n : ℕ) → unquote (replicate n 0x31) ≡ replicate n 0x31
unquote-replicate zero = refl
unquote-replicate (suc zero) = refl
unquote-replicate (suc (suc n)) = refl

tally-IsReadable : IsReadable utc tally
tally-IsReadable = record {
  read_tm = λ t. utc.localtime (pos t);
  strftime-Without = λ t. replicate-Without (seconds (utc.localtime (pos t)));
  unquote-strftime = λ t. unquote-replicate (seconds (utc.localtime (pos t)));
  strptime_seconds-strftime = λ t.
      ap (λ n. (utc.localtime (pos n), true))
        (length-replicate {A = ℕ} (seconds (utc.localtime (pos t))) 0x31 ∙ seconds-localtime t);
  mktime-read_tm = λ t. ap pos (omega arith);
}

abbrev last_entry : TaskExecEntry
last_entry = record {
  timestamp = "T2";
  status = "success";
  duration_ms = pos 15;
  result_summary = "all is well";
}

abbrev saved_task : ScheduledTask
saved_task = record {
  id = "t1";
  schedule_type = weekly;
  schedule_expr = "weekly mon 09:00";
  prompt = "say \"hi\"";
  session_id = "s";
  status = claw.Scheduler.Defs.paused;
  next_run = pos 5000000000;
  created_at = pos 1500000000;
  last_run = pos 2000000000;
  run_count = 12;
  fail_count = 0;
  max_retries = 3;
  interval_seconds = pos 0;
  hour = pos 9;
  minute = pos 0;
  weekday = pos 1;
  history = last_entry ∷ [];
}

last_entry-IsClean : IsClean last_entry
last_entry-IsClean = record {
  timestamp = (refl, refl, (refl, (refl, tt)), without→Without (codes "T2") refl);
  status = (
    refl,
    refl,
    (refl, (refl, (refl, (refl, (refl, (refl, (refl, tt))))))),
    without→Without (codes "success") refl,
  );
  duration = 15;
  duration_ms = refl;
  le-int_max = omega arith;
  result = inl (
    refl,
    refl,
    (refl, (refl, (refl, (refl, (refl, (refl, (refl, (refl, (refl, (refl, (refl, tt))))))))))),
    without→Without (codes "all is well") refl,
  );
}

saved_task-IsSaveable : IsSaveable saved_task
saved_task-IsSaveable = record {
  id-ne = refl;
  id-Without = without→Without (codes "t1") refl;
  id_bare = refl;
  expr-Without = without→Without (codes "weekly mon 09:00") refl;
  expr_bare = refl;
  prompt-Without = without→Without (codes "say \"hi\"") refl;
  session-Without = without→Without (codes "s") refl;
  session_bare = refl;
  created = 1500000000;
  created_at = refl;
  next = 5000000000;
  next_run = refl;
  last = 2000000000;
  last_run = refl;
  run_count-le = omega arith;
  fail_count-le = omega arith;
  max_retries-le = omega arith;
  history = (last_entry-IsClean, tt);
}

abbrev boot : Moment
boot = record { held = once; clock = λ key. pos 0; now = pos 0; then_ = pos 0 }

load_content-save_task_example :
    load_content utc tally boot (save_task utc tally saved_task)
    ≡ keep_task utc tally boot
        (record (parse_schedule utc "weekly mon 09:00" (persisted once saved_task)).0 {
          history = last_entry ∷ [];
        })
load_content-save_task_example =
    load_content-save_task utc tally saved_task boot tally-IsReadable saved_task-IsSaveable

abbrev made : Tasks × String
made = create_task utc [] "t1" "interval 5s" "hi" "s" (pos 1500000000) (pos 0)

abbrev made_task : ScheduledTask
made_task = record (fresh_task "t1" "interval 5s" "hi" "s" (pos 1500000000)) {
  schedule_type = interval;
  interval_seconds = pos 5;
  next_run = pos 5000000000;
}

made_one : made ≡ (("t1", made_task) ∷ [], "t1")
unfolding create_task parse_schedule next_word parse_interval stoi compute_next_run insert
    claw.Base.Int.int32 ◌+ℤ◌
made_one = refl

made_found : lookup made.1 made.0 ≡ some made_task
unfolding lookup
made_found = ap (λ (m : Tasks × String). lookup m.1 m.0) made_one

made_named : (made.1 == "") ≡ false
made_named = ap (λ (m : Tasks × String). m.1 == "") made_one

made_task-IsSaveable : IsSaveable made_task
made_task-IsSaveable = record {
  id-ne = refl;
  id-Without = without→Without (codes "t1") refl;
  id_bare = refl;
  expr-Without = without→Without (codes "interval 5s") refl;
  expr_bare = refl;
  prompt-Without = without→Without (codes "hi") refl;
  session-Without = without→Without (codes "s") refl;
  session_bare = refl;
  created = 1500000000;
  created_at = refl;
  next = 5000000000;
  next_run = refl;
  last = 0;
  last_run = refl;
  run_count-le = omega arith;
  fail_count-le = omega arith;
  max_retries-le = omega arith;
  history = tt;
}

load_content-create_task_example :
    load_content utc tally boot (save_task utc tally made_task)
    ≡ loaded (refreshed utc tally boot (reloaded made_task))
load_content-create_task_example =
    load_content-create_task utc tally boot "t1" "interval 5s" "hi" "s" (pos 1500000000) (pos 0) []
      made_task tally-IsReadable made_named made_found made_task-IsSaveable

abbrev one_file : List TaskFile
one_file =
    record {
      name = codes "task-t1.md";
      content =
          some (codes "---" ++ (0x0a ∷ codes "id: t1" ++ (0x0a ∷ codes "---" ++ (0x0a ∷ []))));
      moment = boot;
    }
    ∷ []

abbrev read_task : ScheduledTask
read_task = record (claw.Scheduler.Files.blank_task once) { id = "t1" }

abbrev loaded_tasks : Tasks
loaded_tasks = ("t1", read_task) ∷ []

one_loaded : load_files utc tally one_file [] ≡ some loaded_tasks
unfolding load_files claw.Scheduler.Load.load_file load_content claw.Scheduler.Load.front_matter
    parse_schedule claw.Scheduler.Parse.next_word claw.Scheduler.Files.read_history
    claw.Base.Dict.insert claw.Scheduler.Parse.stoi
one_loaded = refl

found_loaded : lookup "t1" loaded_tasks ≡ some read_task
unfolding lookup
found_loaded = refl
