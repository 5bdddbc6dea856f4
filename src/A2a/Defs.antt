-- ===== src/A2a/Defs.antt =====
-- The tasks and the methods of A2AHandler. The clock and the source of identifiers are arguments. A
-- request that makes the JSON library throw has no reply: `none`.
use claw.Base.{
  String, ◌⧺◌, Bool, true, false, Option, none, some, List, [], ◌∷◌, any, ◌==◌, string_eq,
  if◌then◌else◌,
}
use claw.Base.Int.{ℤ}
use claw.Base.Dict.{Dict, lookup, insert}
use claw.Json.{JsonLib}

pub data A2aTaskStatus : Type 0 where
  submitted working input_required completed failed cancelled : A2aTaskStatus

abbrev pub task_status_to_string : A2aTaskStatus → String
task_status_to_string submitted = "submitted"
task_status_to_string working = "working"
task_status_to_string input_required = "input-required"
task_status_to_string completed = "completed"
task_status_to_string failed = "failed"
task_status_to_string cancelled = "cancelled"

pub record A2aTask (J : Type 0) : Type 0 where
  pub id : String
  pub status : A2aTaskStatus
  pub session_id : String
  pub message : J
  pub artifacts : J
  pub created_at : String
  pub updated_at : String

pub record A2aHandler (J : Type 0) : Type 0 where
  pub tasks : Dict String (A2aTask J)
  pub bearer_tokens : List String
  pub agent_name : String
  pub agent_description : String
  pub agent_url : String

abbrev pub is_terminal : A2aTaskStatus → Bool
is_terminal completed = true
is_terminal failed = true
is_terminal cancelled = true
is_terminal _ = false

module _ {J : Type 0} where
  -- No tokens: development mode, all are let in.
  unfoldable pub validate_bearer_token : A2aHandler J → String → Bool
  validate_bearer_token h token = elim h.bearer_tokens [
    | [] ↦ true
    | t ∷ rest ↦ any (λ x. x == token) (t ∷ rest)
  ]

module _ (json : JsonLib) where
  open json use {
    Json, at, is_object, is_array, is_string, equal, elements, get_string, of_string, of_int,
    of_items, of_elements, null,
  }

  abbrev any_json : Json → Option Json
  any_json j = some j

  abbrev error_reply : String → Json
  error_reply text = of_items (("error", of_string text) ∷ [])

  abbrev pub json_rpc_error : ℤ → String → Json → Json
  json_rpc_error code message id = of_items (
      ("jsonrpc", of_string "2.0")
      ∷ ("id", id)
      ∷ ("error", of_items (("code", of_int code) ∷ ("message", of_string message) ∷ []))
      ∷ [])

  abbrev pub json_rpc_result : Json → Json → Json
  json_rpc_result result id =
      of_items (("jsonrpc", of_string "2.0") ∷ ("id", id) ∷ ("result", result) ∷ [])

  text_of_parts : List Json → Option String
  text_of_parts [] = some ""
  text_of_parts (part ∷ rest) =
      let later = text_of_parts rest in
      elim (at part "text") [
        | none ↦ later
        | some t ↦ elim (get_string t) [
          | none ↦ none
          | some s ↦ elim later [ none ↦ none | some r ↦ some (s ⧺ r) ]
        ]
      ]

  abbrev parts_of : Json → Option Json
  parts_of message = elim (at message "parts") [
    | none ↦ none
    | some p ↦ if is_array p then some p else none
  ]

  -- The text of a message; `none` where get<std::string>() throws.
  unfoldable pub message_text : Json → Option String
  unfolding text_of_parts
  message_text message = elim (parts_of message) [
    | some parts ↦ text_of_parts (elements parts)
    | none ↦ elim (at message "text") [ none ↦ some "" | some t ↦ get_string t ]
  ]

  abbrev artifacts_of : String → Json
  artifacts_of result =
      of_elements (of_items (("type", of_string "text") ∷ ("text", of_string result) ∷ []) ∷ [])

  abbrev pub new_task : String → String → Json → A2aTask Json
  new_task id now message = record {
    id = id;
    status = submitted;
    session_id = "a2a_" ⧺ id;
    message = message;
    artifacts = of_elements [];
    created_at = now;
    updated_at = now;
  }

  abbrev with_task : A2aHandler Json → String → A2aTask Json → A2aHandler Json
  with_task h id task = record h { tasks = insert id task h.tasks }

  -- TaskSend: the first section that holds the mutex.
  unfoldable pub submit_task : A2aHandler Json → String → String → Json → A2aHandler Json
  submit_task h id now message = with_task h id (new_task id now message)

  -- tasks_[task.id], which creates a task where there is none.
  abbrev pub entry_task : Option (A2aTask Json) → A2aTask Json
  entry_task none = record (new_task "" "" null) { session_id = ""; artifacts = null }
  entry_task (some task) = task

  -- The second.
  unfoldable pub work_task : A2aHandler Json → String → String → A2aHandler Json
  work_task h id now =
      with_task h id
        (record (entry_task (lookup id h.tasks)) { status = working; updated_at = now })

  -- The third, with the answer of the agent.
  abbrev pub done_task : A2aTask Json → String → String → A2aTask Json
  done_task task now result = record task {
    status = completed;
    updated_at = now;
    artifacts = artifacts_of result;
  }

  unfoldable pub complete_task : A2aHandler Json → String → String → String → A2aHandler Json
  complete_task h id now result = elim (lookup id h.tasks) [
    | none ↦ h
    | some task ↦ with_task h id (done_task task now result)
  ]

  -- What TaskSend does before it creates a task: the message and its text, or a reply at once.
  pub data Accepted : Type 0 where
    refused : Json → Accepted
    accepted : Json → String → Accepted

  unfoldable pub check_message : Json → Option Accepted
  check_message params = elim (at params "message") [
    | none ↦ some (refused (error_reply "message is required"))
    | some message ↦ elim (message_text message) [
      | none ↦ none
      | some text ↦
          if text == ""
          then some (refused (error_reply "No text content in message"))
          else some (accepted message text)
    ]
  ]

  abbrev pub sent_reply : String → String → String → String → Json
  sent_reply id result created now = of_items (
      ("id", of_string id)
      ∷ ("status", of_string (task_status_to_string completed))
      ∷ ("artifacts", artifacts_of result)
      ∷ ("created_at", of_string created)
      ∷ ("updated_at", of_string now)
      ∷ [])

  abbrev requested_id : Json → Option Json
  requested_id params = elim (at params "id") [
    | none ↦ none
    | some i ↦ if is_string i then some i else none
  ]

  -- A reply, if the JSON library does not throw, and the handler.
  abbrev pub Replied : Type 0
  Replied = Option Json × A2aHandler Json

  -- TaskGet and TaskCancel take the identifier from the parameters and look it up.
  abbrev found_task :
      A2aHandler Json → Json → (String → A2aTask Json → Json × A2aHandler Json) → Replied
  found_task h params act = elim (requested_id params) [
    | none ↦ (some (error_reply "id is required"), h)
    | some i ↦ elim (get_string i) [
      | none ↦ (none, h)
      | some id ↦ elim (lookup id h.tasks) [
        | none ↦ (some (error_reply ("Task not found: " ⧺ id)), h)
        | some task ↦ (let (reply, h') = act id task in (some reply, h'))
      ]
    ]
  ]

  unfoldable pub task_get : A2aHandler Json → Json → Replied
  task_get h params = found_task h params (λ id task. (
    of_items (
        ("id", of_string task.id)
        ∷ ("status", of_string (task_status_to_string task.status))
        ∷ ("artifacts", task.artifacts)
        ∷ ("created_at", of_string task.created_at)
        ∷ ("updated_at", of_string task.updated_at)
        ∷ []),
    h,
  ))

  unfoldable pub cancel_if_running :
      A2aHandler Json → String → A2aTask Json → String → Json × A2aHandler Json
  cancel_if_running h id task now =
      if is_terminal task.status
      then (
        error_reply ("Cannot cancel task in terminal state: " ⧺ task_status_to_string task.status),
        h,
      )
      else (
        of_items (
            ("id", of_string id)
            ∷ ("status", of_string (task_status_to_string cancelled))
            ∷ ("updated_at", of_string now)
            ∷ []),
        with_task h id (record task { status = cancelled; updated_at = now }),
      )

  unfoldable pub task_cancel : A2aHandler Json → Json → String → Replied
  task_cancel h params now = found_task h params (λ id task. cancel_if_running h id task now)
