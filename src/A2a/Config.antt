-- ===== src/A2a/Config.antt =====
-- LoadConfig of A2AHandler. What was written before a throw stays written.
use claw.Base.{Bool, false, Option, none, some, [], ◌∷◌, ◌++◌, string_eq, if◌then◌else◌}
use claw.Base.Attempt.{Attempt, modify, require, for_each, when_present, caught, ◌>>=◌, ◌>>◌}
use claw.Json.{JsonLib, ConfigFile, missing, malformed, holds, value}
use claw.A2a.Defs.{A2aHandler}

module _ (json : JsonLib) where
  open json use {Json, at, is_array, elements, get_string}

  abbrev Loader : Type 0
  Loader = Attempt (A2aHandler Json) (Unit {0})

  push_token : Json → Loader
  push_token t = do
    token ← require (get_string t)
    modify (λ h. record h { bearer_tokens = h.bearer_tokens ++ (token ∷ []) })

  abbrev tokens_of : Json → Option Json
  tokens_of j = elim (at j "bearer_tokens") [
    | none ↦ none
    | some v ↦ if is_array v then some v else none
  ]

  load_tokens : Json → Loader
  unfolding push_token
  load_tokens j =
      when_present (tokens_of j)
        λ v. (modify (λ h. record h { bearer_tokens = [] }) >> for_each (elements v) push_token)

  -- A member that the file does not give keeps its value.
  load_names : Json → Loader
  load_names j = λ h.
      (do
        name ← require (value json get_string j "agent_name" h.agent_name)
        modify (λ x. record x { agent_name = name })
        description ← require (value json get_string j "agent_description" h.agent_description)
        modify (λ x. record x { agent_description = description })
        url ← require (value json get_string j "agent_url" h.agent_url)
        modify (λ x. record x { agent_url = url }))
        h

  unfoldable pub load_config : A2aHandler Json → ConfigFile Json → A2aHandler Json × Bool
  unfolding load_tokens load_names
  load_config h missing = (h, false)
  load_config h malformed = (h, false)
  load_config h (holds j) = caught ((load_tokens j >> load_names j) h)
