-- ===== src/AutonomousTrigger/Load.antt =====
-- LoadRules of AutonomousTrigger (core/autonomous_trigger.cc). What was written before a throw stays
-- written.
use claw.Base.{
  Bool, false, ◌||◌, Option, none, some, [], ◌∷◌, ◌++◌, ◌≡◌, All, All-append, Bool-cases, inl, inr,
  ◌==◌, string_eq, if◌then◌else◌,
}
use claw.Base.Int.{pos}
use claw.Base.Attempt.{Attempt, done, modify, require, for_each, when_present, caught, ◌>>=◌, ◌>>◌}
use claw.Base.Keeps.{
  Keeps, Keeps-done, Keeps-modify, Keeps-require, Keeps-if, Keeps-bind, Keeps-for_each,
  Keeps-when_present,
}
use claw.Json.{JsonLib, ConfigFile, missing, malformed, holds, value}
use claw.AutonomousTrigger.Defs.{EventRule, Trigger}

module _ (json : JsonLib) where
  open json use {Json, at, is_array, elements, get_string, get_int, get_bool}

  -- A rule without a condition has the null that nlohmann::json starts with: an argument.
  module _ (null : Json) where
    abbrev Loader : Type 0 → Type 0
    Loader A = Attempt (Trigger Json) A

    abbrev condition_of : Json → Json
    condition_of r = elim (at r "condition") [ none ↦ null | some c ↦ c ]

    push_rule : EventRule Json → Loader (Unit {0})
    push_rule rule =
        if rule.name == "" || rule.event_type == ""
        then done
        else modify (λ t. record t { rules = t.rules ++ (rule ∷ []) })

    load_rule : Json → Loader (Unit {0})
    load_rule r = do
      name ← require (value json get_string r "name" "")
      event_type ← require (value json get_string r "event_type" "")
      cooldown ← require (value json get_int r "cooldown_minutes" (pos 10))
      action ← require (value json get_string r "action" "evaluate")
      prompt ← require (value json get_string r "direct_prompt" "")
      push_rule (record {
        name = name;
        event_type = event_type;
        condition = condition_of r;
        cooldown_minutes = cooldown;
        action = action;
        direct_prompt = prompt;
      })

    load_settings : Json → Loader (Unit {0})
    load_settings j = do
      enabled ← require (value json get_bool j "enabled" false)
      modify (λ t. record t { enabled = enabled })
      session ← require (value json get_string j "evaluation_session" "autonomous")
      modify (λ t. record t { eval_session = session })
      limit ← require (value json get_int j "max_evaluations_per_hour" (pos 10))
      modify (λ t. record t { max_evals_per_hour = limit })
      channel ← require (value json get_string j "notification_channel" "telegram")
      modify (λ t. record t { notification_channel = channel })

    abbrev rules_array : Json → Option Json
    rules_array j = elim (at j "trigger_rules") [
      | none ↦ none
      | some v ↦ if is_array v then some v else none
    ]

    load_fields : Json → Loader (Unit {0})
    load_fields j = do
      load_settings j
      modify (λ t. record t { rules = [] })
      when_present (rules_array j) λ v. for_each (elements v) load_rule

    pub load_rules : Trigger Json → ConfigFile Json → Trigger Json × Bool
    unfolding load_fields
    load_rules t missing = (t, false)
    load_rules t malformed = (t, false)
    load_rules t (holds j) = caught (load_fields j t)

    -- Every rule has a name and an event type.
    abbrev pub IsNamed : Trigger Json → Type 0
    IsNamed t = All (λ r. (r.name == "" || r.event_type == "") ≡ false) t.rules

    push_rule-IsNamed : (r : EventRule Json) → Keeps IsNamed (push_rule r)
    unfolding push_rule
    push_rule-IsNamed r = elim (Bool-cases (r.name == "" || r.event_type == "")) [
      | inl empty ↦ rw empty Keeps-done
      | inr named ↦ rw named (Keeps-modify _ (λ t h. All-append _ t.rules (r ∷ []) h (named, tt)))
    ]

    ruleset load_laws = (
      Keeps-done, Keeps-modify, Keeps-require, Keeps-if, Keeps-bind, Keeps-for_each,
      Keeps-when_present, push_rule-IsNamed,
    )
