-- ===== src/Scheduler/Create.antt =====
-- CreateTask, and what it leaves of the identifier it is given.
use claw.Base.{
  String, zero, suc, ◌≡◌, refl, ap, ◌∙◌, ◌⊎◌, inl, inr, Bool, true, false, Option, none, some, [],
  ◌∷◌, ◌++◌, map, ◌==◌, string_eq, if_cases,
}
use claw.Base.Int.{ℤ, pos, negsuc, ◌+ℤ◌}
use claw.Base.Bytes.{Bytes, codes, bytes_eq}
use claw.Base.Dict.{lookup, insert}
use claw.Scheduler.Calendar.{Calendar, from_time_t, to_time_t}
use claw.Scheduler.Defs.{
  ScheduleType, ScheduledTask, Tasks, next_daily, next_weekly, compute_next_run, active, once,
  daily, weekly, interval,
}
use claw.Scheduler.Parse.{
  next_word, tolower, split_at, stoi, set_time, parse_time, with_type, set_interval, parse_interval,
  day_map, parse_weekly, set_once, parse_once, parse_schedule,
}

-- What CreateTask begins with. The schedule type has no default there: it is set before it is read.
abbrev pub fresh_task : String → String → String → String → ℤ → ScheduledTask
fresh_task id expr prompt session created = record {
  id = id;
  schedule_type = once;
  schedule_expr = expr;
  prompt = prompt;
  session_id = session;
  status = active;
  next_run = pos 0;
  created_at = created;
  last_run = pos 0;
  run_count = 0;
  fail_count = 0;
  max_retries = 3;
  interval_seconds = pos 0;
  hour = pos 0;
  minute = pos 0;
  weekday = negsuc 0;
  history = [];
}

module _ (c : Calendar) where
  abbrev pub store_task : Tasks → ℤ → ScheduledTask × Bool → Tasks × String
  store_task tasks now (task, false) = (tasks, "")
  store_task tasks now (task, true) = (insert task.id (compute_next_run c task now) tasks, task.id)

  -- CreateTask: the table, and the identifier, or an empty one where the schedule is not accepted.
  unfoldable pub create_task : Tasks → String → String → String → String → ℤ → ℤ → Tasks × String
  create_task tasks id expr prompt session created now =
      store_task tasks now (parse_schedule c expr (fresh_task id expr prompt session created))

  -- That the identifier is the one before.
  SameId : ScheduledTask → ScheduledTask × Bool → Type 0
  SameId old r = r.0.id ≡ old.id

  id-set_time : (task : ScheduledTask) (h m : Option ℤ) → SameId task (set_time task h m)
  unfolding SameId
  id-set_time task none m = refl
  id-set_time task (some h) none = refl
  id-set_time task (some h) (some m) = refl

  id-with_type :
      (k : ScheduleType) (old : ScheduledTask) (r : ScheduledTask × Bool)
      → SameId old r
      → SameId old (with_type k r)
  unfolding SameId
  id-with_type k old (task, true) e = e
  id-with_type k old (task, false) e = e

  id-parse_time : (text : Bytes) (task : ScheduledTask) → SameId task (parse_time text task)
  unfolding SameId parse_time
  id-parse_time text task =
      elim (split_at 0x3a text)
        as (λ o. SameId task (elim o as (λ _. ScheduledTask × Bool) [
          | none ↦ (task, false)
          | some parts ↦ set_time task (stoi parts.0) (stoi parts.1)
        ])) [ none ↦ refl | some parts ↦ id-set_time task (stoi parts.0) (stoi parts.1) ]

  id-parse_weekly : (text : Bytes) (task : ScheduledTask) → SameId task (parse_weekly text task)
  unfolding SameId parse_weekly
  id-parse_weekly text task =
      let (day, rest) = next_word text in
      elim (lookup (map tolower day) day_map)
        as (λ o. SameId task (elim o as (λ _. ScheduledTask × Bool) [
          | none ↦ (task, false)
          | some d ↦
              with_type weekly (parse_time (next_word rest).0 (record task { weekday = pos d }))
        ])) [
          | none ↦ refl
          | some d ↦
              let old = record task { weekday = pos d } in
              id-with_type weekly old (parse_time (next_word rest).0 old)
                (id-parse_time (next_word rest).0 old)
        ]

  id-set_interval : (task : ScheduledTask) (s : Option ℤ) → SameId task (set_interval task s)
  unfolding SameId
  id-set_interval task none = refl
  id-set_interval task (some s) = refl

  id-set_once : (task : ScheduledTask) (t : ℤ) → SameId task (set_once task t)
  unfolding SameId
  id-set_once task (negsuc zero) = refl
  id-set_once task (negsuc (suc n)) = refl
  id-set_once task (pos n) = refl

  id-parse_once : (text : Bytes) (task : ScheduledTask) → SameId task (parse_once c text task)
  unfolding SameId parse_once
  id-parse_once text task =
      let (date, rest) = next_word text in
      elim (c.strptime (date ++ (0x20 ∷ (next_word rest).0)))
        as (λ o. SameId task (elim o as (λ _. ScheduledTask × Bool) [
          | none ↦ (task, false)
          | some tm ↦ set_once task (c.mktime (record tm { tm_isdst = negsuc 0 })).0
        ])) [
          | none ↦ refl
          | some tm ↦ id-set_once task (c.mktime (record tm { tm_isdst = negsuc 0 })).0
        ]

  id-parse_schedule :
      (expr : String) (task : ScheduledTask) → SameId task (parse_schedule c expr task)
  unfolding parse_schedule SameId
  id-parse_schedule expr task =
      let (word, rest) = next_word (codes expr) in
      let type = map tolower word in
      let text = (next_word rest).0 in
      if_cases (SameId task) (type == codes "daily") _ _
        (λ _. id-with_type daily task (parse_time text task) (id-parse_time text task))
        (λ _.
          if_cases (SameId task) (type == codes "interval") _ _
            (λ _. id-set_interval task (parse_interval text))
            (λ _.
              if_cases (SameId task) (type == codes "once") _ _ (λ _. id-parse_once rest task)
                (λ _.
                  if_cases (SameId task) (type == codes "weekly") _ _
                    (λ _. id-parse_weekly rest task) (λ _. refl))))

  pub compute_next_run-keeps :
      (task : ScheduledTask) (now : ℤ)
      → ((compute_next_run c task now).id ≡ task.id)
        × ((compute_next_run c task now).schedule_type ≡ task.schedule_type)
  unfolding compute_next_run
  compute_next_run-keeps task now =
      elim task.schedule_type
        as (λ k.
          let r = elim k as (λ _. ScheduledTask) [
            | daily ↦ record task { next_run = from_time_t (next_daily c task (to_time_t now)) }
            | interval ↦ record task { next_run = now +ℤ from_time_t task.interval_seconds }
            | once ↦ task
            | weekly ↦ record task { next_run = from_time_t (next_weekly c task (to_time_t now)) }
          ] in
          (r.id ≡ task.id) × (r.schedule_type ≡ task.schedule_type)) [
            | daily ↦ (refl, refl)
            | interval ↦ (refl, refl)
            | once ↦ (refl, refl)
            | weekly ↦ (refl, refl)
          ]

  stored :
      (tasks : Tasks) (id : String) (now : ℤ) (r : ScheduledTask × Bool)
      → r.0.id ≡ id
      → ((store_task tasks now r).0 ≡ tasks)
        ⊎ ((task : ScheduledTask) × (task.id ≡ id)
            × ((store_task tasks now r).0 ≡ insert id task tasks))
  stored tasks id now (task, false) e = inl refl
  stored tasks id now (task, true) e = inr (
    compute_next_run c task now,
    (compute_next_run-keeps task now).0 ∙ e,
    ap (λ i. insert i (compute_next_run c task now) tasks) e,
  )

  pub create_task-cases :
      (tasks : Tasks) (id expr prompt session : String) (created now : ℤ)
      → ((create_task tasks id expr prompt session created now).0 ≡ tasks)
        ⊎ ((task : ScheduledTask) × (task.id ≡ id)
            × ((create_task tasks id expr prompt session created now).0 ≡ insert id task tasks))
  unfolding create_task SameId
  create_task-cases tasks id expr prompt session created now =
      stored tasks id now (parse_schedule c expr (fresh_task id expr prompt session created))
        (id-parse_schedule expr (fresh_task id expr prompt session created))
