-- ===== src/AutonomousTrigger/Tests.antt =====
-- A trigger with one rule at concrete inputs.
use claw.Base.{
  ℕ, ◌≤◌, ◌≡◌, ◌↔◌, ◌⊎◌, All, ◌++◌, refl, arith, true, false, none, some, List, [], ◌∷◌, String,
  string_eq,
}
use claw.Base.Int.{pos}
use claw.TestJson.{Value, obj, num, field, end, null, test_json}
use claw.SafetyGuard.Tests.{test_doubles}
use claw.EventBus.Defs.{SystemEvent}
use claw.EventBus.Tests.{low}
use claw.AutonomousTrigger.Defs.{match_rule, EventRule, Trigger, on_event}
use claw.AutonomousTrigger.Conditions.{Passes, match_rule_iff}
use claw.AutonomousTrigger.Cooldown.{fires, on_events, on_events-cooldown}

abbrev rule : EventRule Value
rule = record {
  name = "battery";
  event_type = "battery.level_changed";
  condition = null;
  cooldown_minutes = pos 10;
  action = "evaluate";
  direct_prompt = "";
}

abbrev trigger : Trigger Value
trigger = record {
  rules = rule ∷ [];
  last_trigger = [];
  hour_start = 0;
  eval_count = 0;
  max_evals_per_hour = pos 2;
  enabled = true;
  eval_session = "autonomous";
  notification_channel = "telegram";
  subscription_id = none;
  started = false;
}

fires_now : fires "battery" (on_event test_json test_doubles trigger low 60).1 ≡ true
unfolding claw.AutonomousTrigger.Defs.on_rules claw.AutonomousTrigger.Defs.on_rule
    claw.AutonomousTrigger.Defs.match_rule claw.AutonomousTrigger.Defs.is_cooling_down
    claw.AutonomousTrigger.Defs.check_rate_limit claw.AutonomousTrigger.Defs.record_trigger
    claw.Base.Dict.lookup
fires_now = refl

on_events-cooldown_example :
    fires "battery"
      (on_events test_json test_doubles
        ((low, 62) ∷ (low, 69) ∷ [])
        (on_event test_json test_doubles trigger low 60).0).1
    ≡ false
unfolding claw.AutonomousTrigger.Defs.cooldown_of
on_events-cooldown_example =
    on_events-cooldown test_json test_doubles trigger low 60 ((low, 62) ∷ (low, 69) ∷ []) "battery"
      fires_now (refl, (refl, tt))

abbrev level : String → Value → Value
level op n = obj (field "level" (obj (field op n end)) end)

abbrev when_low : EventRule Value
when_low = record rule { condition = level "$lt" (num (pos 15)) }

abbrev at_ten : SystemEvent Value
at_ten = record low { payload = obj (field "level" (num (pos 10)) end) }

match_rule_iff_example : (match_rule test_json test_doubles when_low at_ten ≡ true) ↔ (
    (at_ten.name ≡ when_low.event_type)
    × ((false ≡ true)
        ⊎ All {A = String × Value}
            (λ k. Passes test_json test_doubles (test_json.at at_ten.payload k.0) k.1)
            (("level", obj (field "$lt" (num (pos 15)) end)) ∷ [])))
match_rule_iff_example = match_rule_iff test_json test_doubles when_low at_ten
