-- ===== src/A2a/Replies.antt =====
-- HandleJsonRpc of A2AHandler with TaskSend, one request from its arrival to its reply.
use claw.Base.{
  ℕ, String, ◌⧺◌, ◌≡◌, ◌⊎◌, Bool, true, false, not, Option, none, some, [], ◌==◌, string_eq,
  if◌then◌else◌, ◌≢◌,
}
use claw.Base.Int.{ℤ, negsuc}
use claw.Json.{JsonLib, value}
use claw.A2a.Defs.{
  A2aHandler, json_rpc_error, json_rpc_result, submit_task, work_task, complete_task, refused,
  accepted, check_message, sent_reply, Replied, task_get, task_cancel,
}

-- What one call of HandleJsonRpc meets outside of the handler: the identifier and the times it is
-- given, the answer of the agent (`none` where ProcessPrompt throws), and what the other threads do to
-- the handler before TaskSend marks the task as working, and while the agent is asked.
pub record Surroundings (J : Type 0) : Type 0 where
  pub task_id : String
  pub created_at : String
  pub worked_at : String
  pub completed_at : String
  pub replied_at : String
  pub process_prompt : String → String → Option String
  pub before_work : A2aHandler J → A2aHandler J
  pub while_asked : A2aHandler J → A2aHandler J

module _ (json : JsonLib) where
  open json use {Json, at, is_object, is_string, equal, get_string, of_string, null, of_items}

  abbrev as_json : Json → Option Json
  as_json j = some j

  -- From the accepted message on.
  abbrev pub served : Surroundings Json → A2aHandler Json → Json → String → Replied json
  served w h message text =
      let h1 = submit_task json h w.task_id w.created_at message in
      let h2 = w.while_asked (work_task json (w.before_work h1) w.task_id w.worked_at) in
      elim (w.process_prompt ("a2a_" ⧺ w.task_id) text) [
        | none ↦ (none, h2)
        | some result ↦ (
          some (sent_reply json w.task_id result w.created_at w.replied_at),
          complete_task json h2 w.task_id w.completed_at result,
        )
      ]

  unfoldable pub task_send : Surroundings Json → A2aHandler Json → Json → Replied json
  task_send w h params = elim (check_message json params) [
    | none ↦ (none, h)
    | some (refused reply) ↦ (some reply, h)
    | some (accepted message text) ↦ served w h message text
  ]

  abbrev result_reply : Json → Replied json → Replied json
  result_reply id (none, h) = (none, h)
  result_reply id (some r, h) = (some (json_rpc_result json r id), h)

  abbrev pub request_id : Json → Option Json
  request_id request = value json as_json request "id" null

  abbrev error_reply : A2aHandler Json → ℕ → String → Option Json → Replied json
  error_reply h code message none = (none, h)
  error_reply h code message (some id) = (some (json_rpc_error json (negsuc code) message id), h)

  abbrev all_params : Json → Option Json
  all_params request = value json as_json request "params" (of_items [])

  is_version_2 : Json → Bool
  is_version_2 request = elim (at request "jsonrpc") [
    | none ↦ false
    | some v ↦ equal v (of_string "2.0")
  ]

  method_of : Json → Option Json
  method_of request = elim (at request "method") [
    | none ↦ none
    | some m ↦ if is_string m then some m else none
  ]

  abbrev route : Surroundings Json → A2aHandler Json → String → Json → Json → Replied json
  route w h method params id =
      if method == "tasks/send"
      then result_reply id (task_send w h params)
      else if method == "tasks/get"
      then result_reply id (task_get json h params)
      else if method == "tasks/cancel"
      then result_reply id (task_cancel json h params w.completed_at)
      else error_reply h 32600 ("Method not found: " ⧺ method) (some id)

  -- Where one of the conversions throws, there is no reply.
  abbrev route_all :
      Surroundings Json → A2aHandler Json → Option String → Option Json → Option Json → Replied json
  route_all w h (some method) (some params) (some id) = route w h method params id
  route_all w h none params id = (none, h)
  route_all w h (some method) none id = (none, h)
  route_all w h (some method) (some params) none = (none, h)

  -- -32600 is `negsuc 32599`, and -32601 `negsuc 32600`.
  unfoldable pub handle_json_rpc : Surroundings Json → A2aHandler Json → Json → Replied json
  unfolding is_version_2 method_of
  handle_json_rpc w h request =
      if not (is_version_2 request)
      then error_reply h 32599 "Invalid Request" (request_id request)
      else elim (method_of request) [
        | none ↦ error_reply h 32599 "Missing method" (request_id request)
        | some m ↦ route_all w h (get_string m) (all_params request) (request_id request)
      ]

  abbrev pub IsVersion2 : Json → Type 0
  IsVersion2 request =
      (v : Json) × (at request "jsonrpc" ≡ some v) × (equal v (of_string "2.0") ≡ true)

  -- The method of the request is a text that reads as the name.
  abbrev pub Calls : Json → String → Type 0
  Calls request method =
      (m : Json) × (at request "method" ≡ some m)
      × (is_string m ≡ true)
      × (get_string m ≡ some method)

  -- What TaskSend, TaskGet or TaskCancel makes of the parameters, as the request calls it.
  abbrev pub Serves : Surroundings Json → A2aHandler Json → Json → Replied json → Type 0
  Serves w h request r =
      IsVersion2 request
      × (params : Json) × (all_params request ≡ some params)
      × ((Calls request "tasks/send" × (r ≡ task_send w h params))
          ⊎ (Calls request "tasks/get" × (r ≡ task_get json h params))
          ⊎ (Calls request "tasks/cancel" × (r ≡ task_cancel json h params w.completed_at)))

  abbrev pub IsOther : String → Type 0
  IsOther method = (method ≢ "tasks/send") × (method ≢ "tasks/get") × (method ≢ "tasks/cancel")

  -- The reason of an error, with its code.
  abbrev pub IsRefused : Json → ℤ → Type 0
  IsRefused request code =
      ((code ≡ negsuc 32599) × (IsVersion2 request → ⊥))
      ⊎ ((code ≡ negsuc 32599) × ((m : Json) → at request "method" ≡ some m → is_string m ≡ false))
      ⊎ ((code ≡ negsuc 32600) × (method : String) × Calls request method × IsOther method)

  -- A reply that names the request: the result of the operation called, or an error that has a reason
  -- and left the handler as it was. Where a conversion throws, there is none.
  abbrev pub Answers : Surroundings Json → A2aHandler Json → Json → Replied json → Type 0
  Answers w h request (none, h') = (h' ≡ h) ⊎ Serves w h request (none, h')
  Answers w h request (some reply, h') =
      (x : Json) × (request_id request ≡ some x)
      × (((r : Json) × (reply ≡ json_rpc_result json r x) × Serves w h request (some r, h'))
          ⊎ ((code : ℤ) × (message : String) × (reply ≡ json_rpc_error json code message x)
              × IsRefused request code
              × (h' ≡ h)))
