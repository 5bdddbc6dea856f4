-- ===== src/Scheduler/Threads.antt =====
-- The two threads of TaskScheduler and its callers: what each section that holds the mutex does is a
-- step.
use claw.Base.{ℕ, String, ◌≡◌, Option, none, some, List, [], ◌∷◌, ◌++◌, string_eq}
use claw.Base.Int.{ℤ}
use claw.Base.Dict.{lookup}
use claw.Scheduler.Calendar.{Calendar}
use claw.Scheduler.Defs.{
  ScheduledTask, Tasks, Outcome, scheduler_pass, run_task, write_back, task_to_run, cancel_task,
}
use claw.Scheduler.Create.{create_task}

pub record System : Type 0 where
  pub tasks : Tasks
  pub exec_queue : List String
  -- the copy that ExecuteTask is at work on
  pub running : Option ScheduledTask
  -- what the executor has taken from the queue so far
  pub taken : List String

abbrev pub initial : System
initial = record { tasks = []; exec_queue = []; running = none; taken = [] }

module _ (c : Calendar) where
  pub data Step (s : System) : System → Type 0 where
    -- GenerateTaskId draws the identifier; that no task has it, which the code does not check, is
    -- assumed.
    create :
        (id expr prompt session : String) (created now : ℤ)
        → lookup id s.tasks ≡ none
        → Step s (record s { tasks = (create_task c s.tasks id expr prompt session created now).0 })
    cancel : (id : String) → Step s (record s { tasks = (cancel_task s.tasks id).0 })
    pass :
        (now : ℤ) (clock : String → ℤ)
        → Step s (record s {
          tasks = (scheduler_pass c now clock s.tasks).0;
          exec_queue = s.exec_queue ++ (scheduler_pass c now clock s.tasks).1;
        })
    take_task :
        (id : String) (rest : List String)
        → s.exec_queue ≡ id ∷ rest
        → s.running ≡ none
        → Step s (record s {
          exec_queue = rest;
          running = task_to_run s.tasks id;
          taken = s.taken ++ (id ∷ []);
        })
    finish :
        (task : ScheduledTask) (timestamp : String) (duration : ℕ) (outcome : Outcome) (now : ℤ)
        → s.running ≡ some task
        → Step s (record s {
          tasks = write_back s.tasks (run_task task timestamp duration outcome now);
          running = none;
        })

  pub data Reach (s : System) : System → Type 0 where
    here : Reach s s
    next : {t u : System} → Reach s t → Step t u → Reach s u
