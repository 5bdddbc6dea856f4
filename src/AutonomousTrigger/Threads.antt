-- ===== src/AutonomousTrigger/Threads.antt =====
-- What the detached threads of AutonomousTrigger do with the agent's answer, whom that reaches, and
-- the list of ListRules. The agent, the context provider and the channels are parameters: a null
-- pointer is `none`, and a throw of ProcessPrompt is an answer `none`.
use claw.Base.{
  String, ◌⧺◌, ◌≡◌, refl, Bool, true, false, inl, inr, Bool-cases, Option, none, some, List, [],
  ◌∷◌, map, ◌==◌, string_eq, if◌then◌else◌,
}
use claw.Json.{JsonLib}
use claw.EventBus.Defs.{SystemEvent}
use claw.AutonomousTrigger.Defs.{EventRule, Trigger, Task, execute, evaluate}

-- ProcessPrompt(session_id, prompt). Both threads pass the prompt first.
abbrev pub Agent : Type 0
Agent = String → String → Option String

-- SendTo(channel, message), and whether it returned true; Broadcast(message).
pub data Message : Type 0 where
  send_to : String → String → Bool → Message
  broadcast : String → Message

abbrev reach : String → String → Bool → List Message
reach channel text true = send_to channel text true ∷ []
reach channel text false = send_to channel text false ∷ broadcast text ∷ []

-- The texts that a channel took, and those that were broadcast.
abbrev pub received : List Message → List String
received [] = []
received (send_to channel text true ∷ sent) = text ∷ received sent
received (send_to channel text false ∷ sent) = received sent
received (broadcast text ∷ sent) = text ∷ received sent

abbrev answered : String → Option String → List String
answered heading none = []
answered heading (some result) = if result == "" then [] else (heading ⧺ ("\n" ⧺ result)) ∷ []

module _ {J : Type 0} where
  unfoldable pub notify : Trigger J → Option (String → String → Bool) → String → List Message
  notify t none message = []
  notify t (some send) message =
      reach t.notification_channel message (send t.notification_channel message)

  -- The part of both threads behind ProcessPrompt.
  abbrev pub tell :
      Trigger J → Option (String → String → Bool) → String → Option String → List Message
  tell t channels heading none = []
  tell t channels heading (some result) =
      if result == "" then [] else notify t channels (heading ⧺ ("\n" ⧺ result))

  received-notify :
      (t : Trigger J) (send : String → String → Bool) (text : String)
      → received (notify t (some send) text) ≡ text ∷ []
  unfolding notify
  received-notify t send text = elim (Bool-cases (send t.notification_channel text)) [
    | inl e ↦ rw e refl
    | inr e ↦ rw e refl
  ]

  received-tell :
      (t : Trigger J) (send : String → String → Bool) (heading : String) (answer : Option String)
      → received (tell t (some send) heading answer) ≡ answered heading answer
  received-tell t send heading none = refl
  received-tell t send heading (some result) = elim (Bool-cases (result == "")) [
    | inl e ↦ rw e refl
    | inr e ↦ rw e (received-notify t send (heading ⧺ ("\n" ⧺ result)))
  ]

  unfoldable pub execute_action :
      Trigger J → Option Agent → Option (String → String → Bool) → String → String → List Message
  execute_action t none channels prompt reason = []
  execute_action t (some agent) channels prompt reason =
      tell t channels ("[🤖 자율 조치] " ⧺ reason) (agent prompt t.eval_session)

abbrev pub context_text : Option String → String
context_text none = ""
context_text (some text) = text

module _ (json : JsonLib) where
  open json use {Json, dump, of_items, of_elements, of_string, of_int}

  abbrev pub eval_prompt : EventRule Json → SystemEvent Json → String → String
  eval_prompt rule event system_ctx =
      "다음 시스템 이벤트가 발생했습니다.\n\n규칙: "
      ⧺ (rule.name
          ⧺ ("\n이벤트: "
              ⧺ (event.name
                  ⧺ ("\n데이터: "
                      ⧺ (dump event.payload
                          ⧺ ("\n\n현재 시스템 상태:\n"
                              ⧺ (system_ctx
                                  ⧺ "\n\n이 이벤트에 대한 대응이 필요한지 판단하고, 필요하다면 사용자에게 알리거나 적절한 조치를 취해주세요. 불필요하다면 무시해주세요.")))))))

  unfoldable pub evaluate_with_llm :
      Trigger Json
      → Option Agent
      → Option String
      → Option (String → String → Bool)
      → EventRule Json
      → SystemEvent Json
      → List Message
  evaluate_with_llm t none context channels rule event = []
  evaluate_with_llm t (some agent) context channels rule event =
      tell t channels ("[🤖 자율 판단] " ⧺ rule.name)
        (agent (eval_prompt rule event (context_text context)) t.eval_session)

  -- The body of a detached thread.
  abbrev pub run_thread :
      Trigger Json
      → Option Agent
      → Option String
      → Option (String → String → Bool)
      → Task Json
      → List Message
  run_thread t agent context channels (execute rule prompt reason) =
      execute_action t agent channels prompt reason
  run_thread t agent context channels (evaluate rule event) =
      evaluate_with_llm t agent context channels rule event

  abbrev rule_json : EventRule Json → Json
  rule_json rule = of_items (
      ("name", of_string rule.name)
      ∷ ("event_type", of_string rule.event_type)
      ∷ ("condition", rule.condition)
      ∷ ("cooldown_minutes", of_int rule.cooldown_minutes)
      ∷ ("action", of_string rule.action)
      ∷ [])

  abbrev pub list_rules : Trigger Json → Json
  list_rules t = of_elements (map rule_json t.rules)

  abbrev heading_of : Task Json → String
  heading_of (execute rule prompt reason) = "[🤖 자율 조치] " ⧺ reason
  heading_of (evaluate rule event) = "[🤖 자율 판단] " ⧺ rule.name

  abbrev prompt_of : Option String → Task Json → String
  prompt_of context (execute rule prompt reason) = prompt
  prompt_of context (evaluate rule event) = eval_prompt rule event (context_text context)

  -- With an agent and channels, what is received of a task is one text, its heading and an answer, whether
  -- the channel takes it or not, unless ProcessPrompt throws or the answer is empty. It is the answer
  -- to the name of the evaluation session, asked in a session that is named by the prompt.
  pub received-run_thread :
      (t : Trigger Json) (agent : Agent) (context : Option String) (send : String → String → Bool)
      (task : Task Json)
      → received (run_thread t (some agent) context (some send) task)
        ≡ answered (heading_of task) (agent (prompt_of context task) t.eval_session)
  unfolding execute_action evaluate_with_llm
  received-run_thread t agent context send (execute rule prompt reason) =
      received-tell t send _ (agent prompt t.eval_session)
  received-run_thread t agent context send (evaluate rule event) =
      received-tell t send _ (agent _ t.eval_session)
