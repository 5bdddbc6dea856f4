-- ===== src/Scheduler/Sound.antt =====
-- What holds of TaskScheduler at every step, and that the calls from outside keep it.
use claw.Base.{
  ℕ, ◌≤◌, String, ◌≡◌, inl, inr, refl, sym, subst, ◌∙◌, Bool, true, false, Option, none, some, ◌++◌,
  arith, ◌==◌, string_eq, eq_iff, if_cases,
}
use claw.Base.Int.{ℤ}
use claw.Base.Dict.{lookup, insert, Distinct, lookup-insert, Distinct-insert}
use claw.Scheduler.Calendar.{Calendar}
use claw.Scheduler.Defs.{ScheduledTask, Tasks, cancelled, is_active, is_once, cancel_task}
use claw.Scheduler.Create.{create_task, create_task-cases}
use claw.Scheduler.Pass.{count}
use claw.Scheduler.Threads.{System}

-- How often a task was queued, and what the table holds of it: a task that runs once is active only
-- before it is queued.
abbrev pub Queued : String → ℕ → Option ScheduledTask → Type 0
Queued id n none = n ≡ 0
Queued id n (some task) =
    (task.id ≡ id)
    × (is_once task.schedule_type ≡ true → (n ≤ 1) × (is_active task.status ≡ true → n ≡ 0))

-- The copy that runs has the type of its task, and if it runs once it is not active.
abbrev pub Running : Tasks → Option ScheduledTask → Type 0
Running tasks none = Unit {0}
Running tasks (some copy) =
    (task : ScheduledTask) × (lookup copy.id tasks ≡ some task)
    × (is_once copy.schedule_type ≡ is_once task.schedule_type)
    × (is_once copy.schedule_type ≡ true → is_active copy.status ≡ false)

abbrev pub dispatched : String → System → ℕ
dispatched id s = count id (s.taken ++ s.exec_queue)

pub record IsSound (s : System) : Type 0 where
  pub distinct : Distinct s.tasks
  pub queued_once : (id : String) → Queued id (dispatched id s) (lookup id s.tasks)
  pub running_copy : Running s.tasks s.running

-- Where a task is written over, the copy that runs still fits.
Running-insert :
    (tasks : Tasks) (id : String) (task : ScheduledTask) (copy : Option ScheduledTask)
    → ((old : ScheduledTask)
        → lookup id tasks ≡ some old
        → is_once task.schedule_type ≡ is_once old.schedule_type)
    → Running tasks copy
    → Running (insert id task tasks) copy
Running-insert tasks id task none same running = tt
Running-insert tasks id task (some copy) same (old, found, type, still) =
    (elim (id == copy.id)
        as (λ b. (id == copy.id) ≡ b → Running (insert id task tasks) (some copy)) [
          | true ↦ λ e.
              let here_ : id ≡ copy.id = (eq_iff id copy.id).0 e in
              (
                task,
                ground (arith, e, lookup-insert id copy.id task tasks),
                type ∙ sym (same old (subst (λ x. lookup x tasks ≡ some old) (sym here_) found)),
                still,
              )
          | false ↦
              λ e. (old, ground (arith, e, found, lookup-insert id copy.id task tasks), type, still)
        ])
      refl

pub insert-IsSound :
    (s : System) (id : String) (task : ScheduledTask)
    → Queued id (dispatched id s) (some task)
    → ((old : ScheduledTask)
        → lookup id s.tasks ≡ some old
        → is_once task.schedule_type ≡ is_once old.schedule_type)
    → IsSound s
    → IsSound (record s { tasks = insert id task s.tasks })
insert-IsSound s id task fits same sound = record {
  distinct = Distinct-insert id task s.tasks sound.distinct;
  queued_once = λ j. subst (Queued j (dispatched j s)) (sym (lookup-insert id j task s.tasks)) (
      if_cases (Queued j (dispatched j s)) (id == j) (some task) (lookup j s.tasks)
        (λ e. subst (λ x. Queued x (dispatched x s) (some task)) ((eq_iff id j).0 e) fits)
        (λ _. sound.queued_once j));
  running_copy = Running-insert s.tasks id task s.running same sound.running_copy;
}

pub stop-IsSound : (s : System) → IsSound s → IsSound (record s { running = none })
stop-IsSound s sound = record {
  distinct = sound.distinct;
  queued_once = sound.queued_once;
  running_copy = tt;
}

module _ (c : Calendar) where
  pub create-IsSound :
      (s : System) (id expr prompt session : String) (created now : ℤ)
      → lookup id s.tasks ≡ none
      → IsSound s
      → IsSound (record s { tasks = (create_task c s.tasks id expr prompt session created now).0 })
  create-IsSound s id expr prompt session created now fresh sound =
      elim (create_task-cases c s.tasks id expr prompt session created now) [
        | inl e ↦ subst (λ x. IsSound (record s { tasks = x })) (sym e) sound
        | inr (task, here_, e) ↦
            subst (λ x. IsSound (record s { tasks = x })) (sym e)
              (insert-IsSound s id task
                (
                  here_,
                  λ once. (
                    ground (arith, fresh, sound.queued_once id),
                    λ active. ground (arith, fresh, sound.queued_once id),
                  ),
                )
                (λ old found. ground (arith, fresh, found)) sound)
      ]

  pub cancel-IsSound :
      (s : System) (id : String)
      → IsSound s
      → IsSound (record s { tasks = (cancel_task s.tasks id).0 })
  unfolding cancel_task
  cancel-IsSound s id sound =
      (elim (lookup id s.tasks)
          as (λ o.
            lookup id s.tasks ≡ o
            → IsSound (record s {
              tasks =
                  (elim o as (λ _. Tasks × Bool) [
                    | none ↦ (s.tasks, false)
                    | some task ↦ (insert id (record task { status = cancelled }) s.tasks, true)
                  ]).0;
            })) [
              | none ↦ λ e. sound
              | some task ↦ λ e.
                  insert-IsSound s id (record task { status = cancelled })
                    (let (q, o) = subst (Queued id (dispatched id s)) e (sound.queued_once id) in
                      (q, λ once. ((o once).0, λ active. absurd (ground (arith, active)))))
                    (λ old found. ground (arith, e, found)) sound
            ])
        refl
