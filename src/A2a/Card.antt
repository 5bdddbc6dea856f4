-- ===== src/A2a/Card.antt =====
-- GetAgentCard of A2AHandler.
use claw.Base.{String, false, List, [], ◌∷◌, map}
use claw.Json.{JsonLib}
use claw.A2a.Defs.{A2aHandler}

module _ (json : JsonLib) where
  open json use {Json, of_string, of_bool, of_items, of_elements}

  abbrev texts : List (String × String) → Json
  texts members = of_items (map (λ (b : String × String). (b.0, of_string b.1)) members)

  abbrev skill : String → String → String → Json
  skill id name description =
      texts (("id", id) ∷ ("name", name) ∷ ("description", description) ∷ [])

  unfoldable pub get_agent_card : A2aHandler Json → Json
  get_agent_card h = of_items (
      ("name", of_string h.agent_name)
      ∷ ("description", of_string h.agent_description)
      ∷ ("url", of_string h.agent_url)
      ∷ ("version", of_string "1.0.0")
      ∷ ("protocol", of_string "a2a")
      ∷ ("protocolVersion", of_string "0.1")
      ∷ (
        "capabilities",
        of_items (
            ("streaming", of_bool false)
            ∷ ("pushNotifications", of_bool false)
            ∷ ("stateTransitionHistory", of_bool false)
            ∷ []),
      )
      ∷ (
        "authentication",
        of_items (
            (
              "schemes",
              of_elements (
                  texts (("scheme", "bearer") ∷ ("description", "Bearer token authentication") ∷ [])
                  ∷ []),
            )
            ∷ []),
      )
      ∷ ("defaultInputModes", of_elements (of_string "text" ∷ []))
      ∷ ("defaultOutputModes", of_elements (of_string "text" ∷ []))
      ∷ (
        "skills",
        of_elements (
            skill "general" "General Assistant"
              "General-purpose AI assistant for Tizen device management"
            ∷ skill "device_control" "Device Controller" "Control and monitor Tizen devices"
            ∷ skill "code_execution" "Code Executor" "Execute code in sandboxed containers"
            ∷ []),
      )
      ∷ [])
