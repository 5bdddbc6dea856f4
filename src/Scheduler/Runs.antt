-- ===== src/Scheduler/Runs.antt =====
-- What runs leave of a task, and of what happened to it meanwhile.
use claw.Base.{
  ℕ, suc, ◌+◌, ◌<◌, String, ◌≡◌, ap, ◌∙◌, Bool, List, [], ◌∷◌, arith, length, leb, ltb, ◌&&◌,
  string_eq, if◌then◌else◌,
}
use claw.Base.Int.{ℤ}
use claw.Scheduler.Defs.{ScheduledTask, TaskStatus, thrown, failed, run_task}

pub record FailingRun : Type 0 where
  pub timestamp : String
  pub duration : ℕ
  pub what : String
  pub ended : ℤ

-- Runs in which ProcessPrompt throws, one after the other.
abbrev pub failing_runs : List FailingRun → ScheduledTask → ScheduledTask
failing_runs [] task = task
failing_runs (r ∷ runs) task =
    failing_runs runs (run_task task r.timestamp r.duration (thrown r.what) r.ended)

failed_at : ℕ → ℕ → ℕ → Bool
failed_at max old n = ltb 0 n && leb max (old + n)

failed_at-suc :
    (max old n : ℕ) (status : TaskStatus)
    → (if failed_at max (suc old) n then failed else if leb max (suc old) then failed else status)
      ≡ (if failed_at max old (suc n) then failed else status)
unfolding failed_at
failed_at-suc max old n status = ground arith

first_run :
    (r : FailingRun) (task : ScheduledTask)
    → let done = run_task task r.timestamp r.duration (thrown r.what) r.ended in
      (done.fail_count ≡ suc task.fail_count)
      × (done.max_retries ≡ task.max_retries)
      × (done.status ≡ (if leb task.max_retries (suc task.fail_count) then failed else task.status))
unfolding run_task
first_run r task = ground arith

failing_runs-counts :
    (runs : List FailingRun) (task : ScheduledTask)
    → let done = failing_runs runs task in
      (done.fail_count ≡ task.fail_count + length runs)
      × (done.status ≡ (
          if failed_at task.max_retries task.fail_count (length runs) then failed else task.status))
unfolding failed_at
failing_runs-counts [] task = ground arith
failing_runs-counts (r ∷ runs) task =
    let t = run_task task r.timestamp r.duration (thrown r.what) r.ended in
    let (count, max, status) = first_run r task in
    let (counts, ends) = failing_runs-counts runs t in
    (
      omega (arith, counts, count),
      ends
          ∙ ap (λ m. if failed_at m t.fail_count (length runs) then failed else t.status) max
          ∙ ap (λ f. if failed_at task.max_retries f (length runs) then failed else t.status) count
          ∙ ap
              (λ st.
                if failed_at task.max_retries (suc task.fail_count) (length runs)
                then failed
                else st)
              status
          ∙ failed_at-suc task.max_retries task.fail_count (length runs) task.status,
    )

-- For a task whose count of failures is below max_retries: n failing runs in a row raise the count by
-- n, and the task is disabled as failed once the count has reached max_retries; until then its status
-- is what it was.
pub failing_runs-status :
    (runs : List FailingRun) (task : ScheduledTask)
    → task.fail_count < task.max_retries
    → let done = failing_runs runs task in
      (done.fail_count ≡ task.fail_count + length runs)
      × (done.status
          ≡ (if leb task.max_retries (task.fail_count + length runs) then failed else task.status))
unfolding failed_at
failing_runs-status runs task h = ground (arith, h, failing_runs-counts runs task)
