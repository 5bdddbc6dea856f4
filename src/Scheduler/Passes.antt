-- ===== src/Scheduler/Passes.antt =====
-- That a pass of the scheduler keeps what holds of it.
use claw.Base.{
  ℕ, ◌+◌, String, ◌≡◌, ap, ◌∙◌, Option, none, some, ◌++◌, arith, string_eq, if◌then◌else◌,
}
use claw.Base.Int.{ℤ}
use claw.Base.Dict.{Distinct, lookup}
use claw.Scheduler.Calendar.{Calendar}
use claw.Scheduler.Defs.{ScheduledTask, Tasks, is_due, advance, scheduler_pass}
use claw.Scheduler.Create.{compute_next_run-keeps}
use claw.Scheduler.Pass.{
  count, count-append, passed, queued, lookup-scheduler_pass, count-scheduler_pass,
  Distinct-scheduler_pass,
}
use claw.Scheduler.Threads.{System}
use claw.Scheduler.Sound.{Queued, Running, dispatched, IsSound}

module _ (c : Calendar) where
  Queued-passed :
      (now : ℤ) (clock : String → ℤ) (id : String) (n : ℕ) (o : Option ScheduledTask)
      → Queued id n o
      → Queued id (n + queued c now clock o) (passed c now clock id o)
  unfolding advance
  Queued-passed now clock id n none q = omega (arith, q)
  Queued-passed now clock id n (some task) q =
      ground (arith, q, compute_next_run-keeps c task (clock id))

  Running-passed :
      (now : ℤ) (clock : String → ℤ) (tasks : Tasks) (copy : Option ScheduledTask)
      → Running tasks copy
      → Running (scheduler_pass c now clock tasks).0 copy
  unfolding advance
  Running-passed now clock tasks none running = tt
  Running-passed now clock tasks (some copy) (task, found, type, still) = (
    if is_due now task then advance c (clock copy.id) task else task,
    lookup-scheduler_pass c now clock copy.id tasks ∙ ap (passed c now clock copy.id) found,
    ground (arith, type, compute_next_run-keeps c task (clock copy.id)),
    still,
  )

  dispatched-pass :
      (s : System) (now : ℤ) (clock : String → ℤ) (id : String)
      → Distinct s.tasks
      → count id (s.taken ++ (s.exec_queue ++ (scheduler_pass c now clock s.tasks).1))
        ≡ dispatched id s + queued c now clock (lookup id s.tasks)
  dispatched-pass s now clock id distinct =
      let new = (scheduler_pass c now clock s.tasks).1 in
      omega (
        arith,
        count-append id s.taken (s.exec_queue ++ new),
        count-append id s.exec_queue new,
        count-append id s.taken s.exec_queue,
        count-scheduler_pass c now clock id s.tasks distinct,
      )

  pub pass-IsSound :
      (s : System) (now : ℤ) (clock : String → ℤ)
      → IsSound s
      → IsSound (record s {
        tasks = (scheduler_pass c now clock s.tasks).0;
        exec_queue = s.exec_queue ++ (scheduler_pass c now clock s.tasks).1;
      })
  pass-IsSound s now clock sound = record {
    distinct = Distinct-scheduler_pass c now clock s.tasks sound.distinct;
    queued_once = λ id.
        rw
          (
            dispatched-pass s now clock id sound.distinct,
            lookup-scheduler_pass c now clock id s.tasks,
          )
          (Queued-passed now clock id (dispatched id s) (lookup id s.tasks) (sound.queued_once id));
    running_copy = Running-passed now clock s.tasks s.running sound.running_copy;
  }
