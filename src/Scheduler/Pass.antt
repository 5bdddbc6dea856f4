-- ===== src/Scheduler/Pass.antt =====
-- A pass of the scheduler over the table, one identifier at a time.
use claw.Base.{
  ℕ, suc, ◌+◌, String, ◌≡◌, refl, Option, none, some, List, [], ◌∷◌, ◌++◌, arith, ◌==◌, string_eq,
  eq_iff, if◌then◌else◌,
}
use claw.Base.Int.{ℤ}
use claw.Base.Dict.{lookup, Distinct}
use claw.Scheduler.Calendar.{Calendar}
use claw.Scheduler.Defs.{ScheduledTask, Tasks, is_due, advance, scheduler_pass}

abbrev pub count : String → List String → ℕ
count id [] = 0
count id (x ∷ xs) = if x == id then suc (count id xs) else count id xs

pub count-append :
    (id : String) (xs ys : List String) → count id (xs ++ ys) ≡ count id xs + count id ys
count-append id [] ys = omega arith
count-append id (x ∷ xs) ys = ground (arith, count-append id xs ys)

module _ (c : Calendar) (now : ℤ) (clock : String → ℤ) where
  -- What a pass leaves of a task, and how often it queues the task.
  abbrev pub passed : String → Option ScheduledTask → Option ScheduledTask
  passed id none = none
  passed id (some task) = some (if is_due now task then advance c (clock id) task else task)

  abbrev pub queued : Option ScheduledTask → ℕ
  queued none = 0
  queued (some task) = if is_due now task then 1 else 0

  pub lookup-scheduler_pass :
      (id : String) (tasks : Tasks)
      → lookup id (scheduler_pass c now clock tasks).0 ≡ passed id (lookup id tasks)
  unfolding scheduler_pass lookup
  lookup-scheduler_pass id [] = refl
  lookup-scheduler_pass id ((j, task) ∷ rest) =
      ground (arith, eq_iff j id, lookup-scheduler_pass id rest)

  lookup-none :
      (id : String) (tasks : Tasks)
      → lookup id tasks ≡ none
      → lookup id (scheduler_pass c now clock tasks).0 ≡ none
  lookup-none id tasks e = ground (arith, e, lookup-scheduler_pass id tasks)

  absent-count :
      (id : String) (tasks : Tasks)
      → lookup id tasks ≡ none
      → count id (scheduler_pass c now clock tasks).1 ≡ 0
  unfolding scheduler_pass lookup
  absent-count id [] e = refl
  absent-count id ((j, task) ∷ rest) e = ground (arith, e, absent-count id rest)

  pub count-scheduler_pass :
      (id : String) (tasks : Tasks)
      → Distinct tasks
      → count id (scheduler_pass c now clock tasks).1 ≡ queued (lookup id tasks)
  unfolding scheduler_pass lookup
  count-scheduler_pass id [] d = refl
  count-scheduler_pass id ((j, task) ∷ rest) d =
      ground (arith, eq_iff j id, absent-count id rest, d.0, count-scheduler_pass id rest d.1)

  pub Distinct-scheduler_pass :
      (tasks : Tasks) → Distinct tasks → Distinct (scheduler_pass c now clock tasks).0
  unfolding scheduler_pass
  Distinct-scheduler_pass [] d = tt
  Distinct-scheduler_pass ((j, task) ∷ rest) d =
      ground (arith, lookup-none j rest d.0, Distinct-scheduler_pass rest d.1)
