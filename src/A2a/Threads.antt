-- ===== src/A2a/Threads.antt =====
-- The threads that run TaskSend, TaskCancel and TaskGet at once: each section that holds the mutex
-- is a step.
use claw.Base.{
  String, ◌≡◌, ◌≢◌, refl, Option, none, some, arith, ◌==◌, string_eq, eq_iff, if◌then◌else◌,
}
use claw.Base.Dict.{Dict, lookup, insert, erase, lookup-insert, lookup-erase}
use claw.Json.{JsonLib}
use claw.A2a.Defs.{
  A2aTask, A2aHandler, working, completed, cancelled, new_task, entry_task, done_task, submit_task,
  work_task, complete_task, cancel_if_running,
}

-- How far a thread is in TaskSend.
pub data Phase : Type 0 where
  created : Phase
  asking : Phase

pub record System (J : Type 0) : Type 0 where
  pub handler : A2aHandler J
  -- the threads inside TaskSend, by the identifier of their task
  pub sends : Dict String Phase

module _ (json : JsonLib) where
  open json use {Json}

  -- GenerateTaskId gives an identifier that was never given before.
  pub data Step (s : System Json) : System Json → Type 0 where
    submit :
        (id now : String) (message : Json)
        → lookup id s.handler.tasks ≡ none
        → Step s (record s {
          handler = submit_task json s.handler id now message;
          sends = insert id created s.sends;
        })
    work :
        (id now : String)
        → lookup id s.sends ≡ some created
        → Step s (record s {
          handler = work_task json s.handler id now;
          sends = insert id asking s.sends;
        })
    -- ProcessPrompt returns
    finish :
        (id now result : String)
        → lookup id s.sends ≡ some asking
        → Step s (record s {
          handler = complete_task json s.handler id now result;
          sends = erase id s.sends;
        })
    -- ProcessPrompt throws, and TaskSend is left
    give_up :
        (id : String)
        → lookup id s.sends ≡ some asking
        → Step s (record s { sends = erase id s.sends })
    cancel :
        (id now : String) (task : A2aTask Json)
        → lookup id s.handler.tasks ≡ some task
        → Step s (record s { handler = (cancel_if_running json s.handler id task now).1 })

  pub data Reach (s : System Json) : System Json → Type 0 where
    here : Reach s s
    next : {t u : System Json} → Reach s t → Step t u → Reach s u

  -- What holds of one identifier: a thread in TaskSend has its task in the table, and the task is not
  -- completed.
  abbrev pub Fits : Option Phase → Option (A2aTask Json) → Type 0
  Fits none task = Unit {0}
  Fits (some phase) none = ⊥
  Fits (some phase) (some task) = task.status ≢ completed

  abbrev pub IsSound : System Json → Type 0
  IsSound s = (id : String) → Fits (lookup id s.sends) (lookup id s.handler.tasks)

  pub lookup-complete_task :
      (h : A2aHandler Json) (id now result j : String)
      → lookup j (complete_task json h id now result).tasks ≡ (
          if id == j
          then (elim (lookup id h.tasks) [
            | none ↦ none
            | some task ↦ some (done_task json task now result)
          ])
          else lookup j h.tasks)
  unfolding complete_task
  lookup-complete_task h id now result j =
      (elim (lookup id h.tasks)
          as (λ o.
            lookup id h.tasks ≡ o
            → lookup j
                (elim o as (λ x. A2aHandler Json) [
                  | none ↦ h
                  | some task ↦ record h {
                    tasks = insert id (done_task json task now result) h.tasks;
                  }
                ]).tasks
              ≡ (if id == j
                  then (elim o [ none ↦ none | some task ↦ some (done_task json task now result) ])
                  else lookup j h.tasks)) [
                    | none ↦ λ e. ground (arith, e, eq_iff id j)
                    | some task ↦ λ e. lookup-insert id j (done_task json task now result) h.tasks
                  ])
        refl

  pub Step-IsSound : {s t : System Json} → Step s t → IsSound s → IsSound t
  unfolding submit_task work_task cancel_if_running
  Step-IsSound {s} (submit id now message fresh) sound j = ground (
    arith,
    sound j,
    lookup-insert id j created s.sends,
    lookup-insert id j (new_task json id now message) s.handler.tasks,
  )
  Step-IsSound {s} (work id now mine) sound j =
      let task = record (entry_task json (lookup id s.handler.tasks)) {
        status = working;
        updated_at = now;
      } in
      ground
        (arith, sound j, lookup-insert id j asking s.sends, lookup-insert id j task s.handler.tasks)
  Step-IsSound {s} (finish id now result mine) sound j =
      ground
        (arith, sound j, lookup-erase id j s.sends, lookup-complete_task s.handler id now result j)
  Step-IsSound {s} (give_up id mine) sound j = ground (arith, sound j, lookup-erase id j s.sends)
  Step-IsSound {s} (cancel id now task found) sound j = ground (
    arith,
    sound j,
    found,
    eq_iff id j,
    lookup-insert id j (record task { status = cancelled; updated_at = now }) s.handler.tasks,
  )
