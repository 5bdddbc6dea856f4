-- ===== src/A2a/Tests.antt =====
-- A2AHandler at concrete inputs.
use claw.Base.{String, ◌≡◌, refl, true, some, List, [], ◌∷◌, string_eq}
use claw.Base.Dict.{lookup, insert, erase}
use claw.TestJson.{Value, str, test_json}
use claw.A2a.Defs.{
  A2aTask, A2aHandler, working, new_task, done_task, submit_task, work_task, complete_task,
  cancel_if_running,
}
use claw.A2a.Threads.{System, Reach, here, next, submit, work, finish, cancel}
use claw.A2a.Life.{Reach-completed}
use claw.A2a.Replies.{Surroundings}

abbrev handler : List String → A2aHandler Value
handler tokens = record {
  tasks = [];
  bearer_tokens = tokens;
  agent_name = "TizenClaw Agent";
  agent_description = "";
  agent_url = "";
}

abbrev hello : Value
hello = test_json.of_items (("text", str "hello") ∷ [])

abbrev served : A2aTask Value
served = done_task test_json (new_task test_json "a2a-1" "t0" hello) "t2" "hi"

-- from the arrival of a message to its answer
abbrev h0 : A2aHandler Value
h0 = handler []

abbrev h1 : A2aHandler Value
h1 = submit_task test_json h0 "a2a-1" "t0" hello

abbrev h2 : A2aHandler Value
h2 = work_task test_json h1 "a2a-1" "t1"

abbrev h3 : A2aHandler Value
h3 = complete_task test_json h2 "a2a-1" "t2" "hi"

looked_up : lookup "a2a-1" h3.tasks ≡ some served
unfolding submit_task work_task complete_task lookup insert
looked_up = refl

answered :
    Reach test_json (record { handler = h0; sends = [] }) (record { handler = h3; sends = [] })
unfolding submit_task work_task complete_task lookup insert erase
answered =
    next (next (next here (submit "a2a-1" "t0" hello refl)) (work "a2a-1" "t1" refl))
      (finish "a2a-1" "t2" "hi" refl)

abbrev cancelled_later : System Value
cancelled_later = record {
  handler = (cancel_if_running test_json h3 "a2a-1" served "t3").1;
  sends = [];
}

Reach-completed_example : lookup "a2a-1" cancelled_later.handler.tasks ≡ some served
Reach-completed_example =
    Reach-completed test_json h0 "a2a-1" served answered looked_up refl
      (next here (cancel "a2a-1" "t3" served looked_up))

abbrev asked : A2aTask Value
asked = record (new_task test_json "a2a-1" "t0" hello) { status = working; updated_at = "t1" }

asked_now : lookup "a2a-1" h2.tasks ≡ some asked
unfolding submit_task work_task lookup insert
asked_now = refl

abbrev numbers : Value
numbers = test_json.of_elements (test_json.of_bool true ∷ str "secret" ∷ [])

abbrev file : Value
file = test_json.of_items (("bearer_tokens", numbers) ∷ [])

abbrev surroundings : Surroundings Value
surroundings = record {
  task_id = "a2a-2";
  created_at = "t0";
  worked_at = "t1";
  completed_at = "t2";
  replied_at = "t3";
  process_prompt = λ session text. some text;
  before_work = λ h. h;
  while_asked = λ h. h;
}

abbrev sending : Value
sending = test_json.of_items (
    ("jsonrpc", str "2.0")
    ∷ ("id", str "7")
    ∷ ("method", str "tasks/send")
    ∷ ("params", test_json.of_items (("message", hello) ∷ []))
    ∷ [])
