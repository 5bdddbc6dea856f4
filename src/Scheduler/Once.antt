-- ===== src/Scheduler/Once.antt =====
-- How often the scheduler queues a task that runs once.
use claw.Base.{
  ℕ, suc, ◌≤◌, String, ◌≡◌, refl, sym, ap, subst, ◌∙◌, true, false, Option, none, some, List, [],
  ◌∷◌, ◌++◌, arith, append_assoc, string_eq, eq_iff, if_cases, if◌then◌else◌,
}
use mathlib.Core.Option.{some_inj}
use claw.Base.Int.{ℤ}
use claw.Base.Dict.{lookup, insert, member}
use claw.Scheduler.Calendar.{Calendar}
use claw.Scheduler.Defs.{
  ScheduledTask, Tasks, Outcome, answered, thrown, is_active, is_once, is_cancelled, run_task,
  write_back, task_to_run,
}
use claw.Scheduler.Pass.{count}
use claw.Scheduler.Threads.{
  System, initial, Step, create, cancel, pass, take_task, finish, Reach, here, next,
}
use claw.Scheduler.Passes.{pass-IsSound}
use claw.Scheduler.Sound.{
  Queued, Running, dispatched, IsSound, insert-IsSound, stop-IsSound, create-IsSound,
  cancel-IsSound,
}

dispatched-take :
    (id x : String) (taken rest : List String)
    → count id ((taken ++ (x ∷ [])) ++ rest) ≡ count id (taken ++ (x ∷ rest))
dispatched-take id x taken rest = ap (count id) (append_assoc taken (x ∷ []) rest)

-- A task that is taken from the queue was queued.
Running-taken :
    (tasks : Tasks) (id : String) (n : ℕ)
    → Queued id (suc n) (lookup id tasks)
    → Running tasks (task_to_run tasks id)
unfolding task_to_run
Running-taken tasks id n q =
    (elim (lookup id tasks)
        as (λ o.
          lookup id tasks ≡ o
          → Queued id (suc n) o
          → Running tasks (elim o as (λ _. Option ScheduledTask) [
            | none ↦ none
            | some task ↦ if is_cancelled task.status then none else some task
          ])) [
            | none ↦ λ e q. tt
            | some task ↦ λ e q.
                if_cases (Running tasks) (is_cancelled task.status) none (some task) (λ _. tt)
                  (λ _. (
                    task,
                    subst (λ x. lookup x tasks ≡ some task) (sym q.0) e,
                    refl,
                    λ once. ground (arith, q.1 once),
                  ))
          ])
      refl q

count-head :
    (id : String) (taken rest : List String)
    → count id (taken ++ (id ∷ rest)) ≡ suc (count id (taken ++ rest))
count-head id [] rest = ground (arith, eq_iff id id)
count-head id (x ∷ taken) rest = ground (arith, count-head id taken rest)

take-IsSound :
    (s : System) (id : String) (rest : List String)
    → s.exec_queue ≡ id ∷ rest
    → IsSound s
    → IsSound (record s {
      exec_queue = rest;
      running = task_to_run s.tasks id;
      taken = s.taken ++ (id ∷ []);
    })
take-IsSound s id rest e sound =
    let counts = λ (j : String).
      dispatched-take j id s.taken rest ∙ ap (λ q. count j (s.taken ++ q)) (sym e) in
    record {
      distinct = sound.distinct;
      queued_once = λ j. rw (counts j) (sound.queued_once j);
      running_copy = Running-taken s.tasks id (count id (s.taken ++ rest)) (
          subst (λ n. Queued id n (lookup id s.tasks))
            (ap (λ q. count id (s.taken ++ q)) e ∙ count-head id s.taken rest)
            (sound.queued_once id));
    }

run_task-keeps :
    (task : ScheduledTask) (timestamp : String) (duration : ℕ) (outcome : Outcome) (now : ℤ)
    → let done = run_task task timestamp duration outcome now in
      (done.id ≡ task.id)
      × (done.schedule_type ≡ task.schedule_type)
      × (is_active task.status ≡ false → is_active done.status ≡ false)
unfolding run_task
run_task-keeps task timestamp duration (answered result) now = (refl, refl, λ h. h)
run_task-keeps task timestamp duration (thrown what) now = ground arith

-- The copy, run and written over its task.
Queued-run :
    (n : ℕ) (tasks : Tasks) (task done : ScheduledTask)
    → Running tasks (some task)
    → Queued task.id n (lookup task.id tasks)
    → done.id ≡ task.id
    → done.schedule_type ≡ task.schedule_type
    → (is_active task.status ≡ false → is_active done.status ≡ false)
    → Queued task.id n (some done)
Queued-run n tasks task done (old, found, type, still) q same kind status = (
  same,
  λ once.
      let runs_once : is_once task.schedule_type ≡ true = subst (λ k. is_once k ≡ true) kind once in
      let (_, bound) = subst (Queued task.id n) found q in
      (
        (bound (sym type ∙ runs_once)).0,
        λ active. absurd (ground (arith, active, status (still runs_once))),
      ),
)

finish-IsSound :
    (s : System) (task : ScheduledTask) (timestamp : String) (duration : ℕ) (outcome : Outcome)
    (now : ℤ)
    → s.running ≡ some task
    → IsSound s
    → IsSound (record s {
      tasks = write_back s.tasks (run_task task timestamp duration outcome now);
      running = none;
    })
unfolding write_back
finish-IsSound s task timestamp duration outcome now e sound =
    let done = run_task task timestamp duration outcome now in
    let s0 = record s { running = none } in
    let keeps = run_task-keeps task timestamp duration outcome now in
    let running : Running s.tasks (some task) = subst (Running s.tasks) e sound.running_copy in
    let stopped : IsSound s0 = stop-IsSound s sound in
    if_cases (λ t. IsSound (record s0 { tasks = t })) (member done.id s.tasks)
      (insert done.id done s.tasks) s.tasks
      (λ _.
        subst (λ x. IsSound (record s0 { tasks = insert x done s.tasks })) (sym keeps.0)
          (insert-IsSound s0 task.id done
            (Queued-run (dispatched task.id s) s.tasks task done running (sound.queued_once task.id)
              keeps.0 keeps.1 keeps.2)
            (λ old found.
              ap is_once keeps.1
              ∙ (running.2
                  ∙ ap (λ t. is_once t.schedule_type) (some_inj.0 (sym running.1 ∙ found))))
            stopped))
      (λ _. stopped)

module _ (c : Calendar) where
  Step-IsSound : {s t : System} → Step c s t → IsSound s → IsSound t
  Step-IsSound {s} (create id expr prompt session created now fresh) sound =
      create-IsSound c s id expr prompt session created now fresh sound
  Step-IsSound {s} (cancel id) sound = cancel-IsSound c s id sound
  Step-IsSound {s} (pass now clock) sound = pass-IsSound c s now clock sound
  Step-IsSound {s} (take_task id rest e idle) sound = take-IsSound s id rest e sound
  Step-IsSound {s} (finish task timestamp duration outcome now e) sound =
      finish-IsSound s task timestamp duration outcome now e sound

  initial-IsSound : IsSound initial
  unfolding lookup
  initial-IsSound = record { distinct = tt; queued_once = λ id. refl; running_copy = tt }

  Reach-IsSound : {s : System} → Reach c initial s → IsSound s
  Reach-IsSound here = initial-IsSound
  Reach-IsSound (next r step) = Step-IsSound step (Reach-IsSound r)

  -- From an empty scheduler, in every interleaving of its two threads with CreateTask and CancelTask: a
  -- task that runs once is queued at most once, and it is no longer active when it was queued. Nothing
  -- that ExecuteTask writes back makes it active again.
  pub Reach-once :
      {s : System} (id : String) (task : ScheduledTask)
      → Reach c initial s
      → lookup id s.tasks ≡ some task
      → is_once task.schedule_type ≡ true
      → (dispatched id s ≤ 1) × (is_active task.status ≡ true → dispatched id s ≡ 0)
  Reach-once {s} id task r found once =
      let (_, bound) =
        subst (Queued id (dispatched id s)) found ((Reach-IsSound r).queued_once id) in
      bound once
