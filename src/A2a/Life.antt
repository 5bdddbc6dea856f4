-- ===== src/A2a/Life.antt =====
-- The life of a task: what completes it, and what no longer changes it.
use claw.Base.{String, ◌≡◌, some, [], arith, string_eq, eq_iff}
use claw.Base.Dict.{lookup, lookup-insert}
use claw.Json.{JsonLib}
use claw.A2a.Defs.{
  A2aTask, A2aHandler, working, completed, cancelled, new_task, entry_task, submit_task, work_task,
  cancel_if_running,
}
use claw.A2a.Threads.{
  System, Step, submit, work, finish, give_up, cancel, Reach, here, next, IsSound, Step-IsSound,
  lookup-complete_task,
}

module _ (json : JsonLib) where
  open json use {Json}

  Step-completed :
      {s t : System Json} (id : String) (task : A2aTask Json)
      → Step json s t
      → IsSound json s
      → lookup id s.handler.tasks ≡ some task
      → task.status ≡ completed
      → lookup id t.handler.tasks ≡ some task
  unfolding submit_task work_task cancel_if_running
  Step-completed {s} id task (submit other now message fresh) sound e c = ground (
    arith,
    fresh,
    e,
    eq_iff other id,
    lookup-insert other id (new_task json other now message) s.handler.tasks,
  )
  Step-completed {s} id task (work other now mine) sound e c =
      let x = record (entry_task json (lookup other s.handler.tasks)) {
        status = working;
        updated_at = now;
      } in
      ground
        (arith, e, c, sound other, mine, eq_iff other id, lookup-insert other id x s.handler.tasks)
  Step-completed {s} id task (finish other now result mine) sound e c = ground (
    arith,
    e,
    c,
    sound other,
    mine,
    eq_iff other id,
    lookup-complete_task json s.handler other now result id,
  )
  Step-completed {s} id task (give_up other mine) sound e c = e
  Step-completed {s} id task (cancel other now old found) sound e c = ground (
    arith,
    e,
    c,
    found,
    eq_iff other id,
    lookup-insert other id (record old { status = cancelled; updated_at = now }) s.handler.tasks,
  )

  start-IsSound : (h : A2aHandler Json) → IsSound json (record { handler = h; sends = [] })
  unfolding lookup
  start-IsSound h id = tt

  reached : {s t : System Json} → Reach json s t → IsSound json s → IsSound json t
  reached here sound = sound
  reached (next r step) sound = Step-IsSound json step (reached r sound)

  reached-completed :
      {s t : System Json} (id : String) (task : A2aTask Json)
      → Reach json s t
      → IsSound json s
      → lookup id s.handler.tasks ≡ some task
      → task.status ≡ completed
      → lookup id t.handler.tasks ≡ some task
  reached-completed id task here sound e c = e
  reached-completed id task (next r step) sound e c =
      Step-completed id task step (reached r sound) (reached-completed id task r sound e c) c

  -- From any table of tasks with no request being served, in any interleaving of requests: once a
  -- task is completed, nothing changes it any more, neither its artifacts nor its times.
  pub Reach-completed :
      {s t : System Json} (h : A2aHandler Json) (id : String) (task : A2aTask Json)
      → Reach json (record { handler = h; sends = [] }) s
      → lookup id s.handler.tasks ≡ some task
      → task.status ≡ completed
      → Reach json s t
      → lookup id t.handler.tasks ≡ some task
  Reach-completed h id task before e c after =
      reached-completed id task after (reached before (start-IsSound h)) e c
