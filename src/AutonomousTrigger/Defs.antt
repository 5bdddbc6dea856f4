-- ===== src/AutonomousTrigger/Defs.antt =====
-- The state and the methods of AutonomousTrigger. The clock, in minutes, is an argument of each
-- method: one OnEvent reads it within one minute. A detached thread that a rule starts is a value,
-- and what the thread does, given the answer of the agent, is a function of its own.
use claw.Base.{
  ℕ, suc, ◌/◌, String, ◌⧺◌, Bool, true, false, not, ◌&&◌, Option, none, some, List, [], ◌∷◌, ◌==◌,
  string_eq, nat_eq, if◌then◌else◌,
}
use claw.Base.Int.{ℤ, pos, sub_ℕ, ltb_ℤ, leb_ℤ}
use claw.Base.Dict.{Dict, lookup, insert}
use claw.Json.{JsonLib}
use claw.SafetyGuard.Defs.{Doubles}
use claw.EventBus.Defs.{SystemEvent}

pub record EventRule (J : Type 0) : Type 0 where
  pub name : String
  pub event_type : String
  pub condition : J
  pub cooldown_minutes : ℤ
  pub action : String
  pub direct_prompt : String

pub record Trigger (J : Type 0) : Type 0 where
  pub rules : List (EventRule J)
  pub last_trigger : Dict String ℕ
  pub hour_start : ℕ
  pub eval_count : ℕ
  pub max_evals_per_hour : ℤ
  pub enabled : Bool
  pub eval_session : String
  pub notification_channel : String
  -- -1 is `none`
  pub subscription_id : Option ℕ
  pub started : Bool

-- A detached thread: ExecuteAction("execute", prompt, reason) or EvaluateWithLlm(rule, event).
pub data Task (J : Type 0) : Type 0 where
  execute : EventRule J → String → String → Task J
  evaluate : EventRule J → SystemEvent J → Task J

abbrev pub rule_of : {J : Type 0} → Task J → EventRule J
rule_of (execute rule prompt reason) = rule
rule_of (evaluate rule event) = rule

module _ {J : Type 0} where
  unfoldable pub cooldown_of : List (EventRule J) → String → ℤ
  cooldown_of [] rule_name = pos 10
  cooldown_of (r ∷ rules) rule_name =
      if r.name == rule_name then r.cooldown_minutes else cooldown_of rules rule_name

  unfoldable pub is_cooling_down : Trigger J → String → ℕ → Bool
  unfolding cooldown_of
  is_cooling_down t rule_name now = elim (lookup rule_name t.last_trigger) [
    | none ↦ false
    | some last ↦ ltb_ℤ (sub_ℕ now last) (cooldown_of t.rules rule_name)
  ]

  unfoldable pub record_trigger : Trigger J → String → ℕ → Trigger J
  record_trigger t rule_name now = record t { last_trigger = insert rule_name now t.last_trigger }

  unfoldable pub check_rate_limit : Trigger J → ℕ → Trigger J × Bool
  check_rate_limit t now =
      let t' =
        if now / 60 == t.hour_start / 60
        then t
        else record t { hour_start = now; eval_count = 0 } in
      if leb_ℤ t'.max_evals_per_hour (pos t'.eval_count)
      then (t', false)
      else (record t' { eval_count = suc t'.eval_count }, true)

module _ (json : JsonLib) (doubles : Doubles json) where
  open json use {Json, is_object, is_empty, at, items, equal}
  open doubles use {is_number, get_double, lt}

  -- Two numbers that stand in the way: `bad a b` is asked of val.get<double>() and
  -- expected.get<double>().
  abbrev pub refuted : (doubles.Double → doubles.Double → Bool) → Json → Json → Bool
  refuted bad val expected =
      if is_number val && is_number expected
      then (elim (get_double val) [
        | none ↦ false
        | some a ↦ elim (get_double expected) [ none ↦ false | some b ↦ bad a b ]
      ])
      else false

  -- The body of the loop over the operators of a key: false where it returns false. The order of
  -- double is total but for NaN, which JSON cannot write: a >= b is that a < b does not hold.
  unfoldable pub holds_op : Json → String → Json → Bool
  holds_op val op expected =
      if op == "$eq"
      then equal val expected
      else if op == "$lt"
      then not (refuted (λ a b. not (lt a b)) val expected)
      else if op == "$gt"
      then not (refuted (λ a b. not (lt b a)) val expected)
      else if op == "$lte"
      then not (refuted (λ a b. lt b a) val expected)
      else if op == "$gte"
      then not (refuted (λ a b. lt a b) val expected)
      else true

  unfoldable pub holds_ops : Json → List (String × Json) → Bool
  holds_ops val [] = true
  holds_ops val ((op, expected) ∷ rest) =
      if holds_op val op expected then holds_ops val rest else false

  unfoldable pub eval_keys : List (String × Json) → Json → Bool
  eval_keys [] data_ = true
  eval_keys ((key, ops) ∷ rest) data_ =
      let later = eval_keys rest data_ in
      elim (at data_ key) [
        | none ↦ false
        | some val ↦
            if is_object ops
            then (if holds_ops val (items ops) then later else false)
            else if equal val ops
            then later
            else false
      ]

  abbrev pub eval_condition : Json → Json → Bool
  eval_condition condition data_ = eval_keys (items condition) data_

  unfoldable pub match_rule : EventRule Json → SystemEvent Json → Bool
  match_rule rule event =
      if not (event.name == rule.event_type)
      then false
      else if is_empty rule.condition
      then true
      else eval_condition rule.condition event.payload

  abbrev pub direct_prompt_of : EventRule Json → SystemEvent Json → String
  direct_prompt_of rule event =
      if rule.direct_prompt == ""
      then "Event '" ⧺ (event.name ⧺ "' occurred. Please respond.")
      else rule.direct_prompt

  -- The body of OnEvent for one rule.
  unfoldable pub on_rule :
      Trigger Json → EventRule Json → SystemEvent Json → ℕ → Trigger Json × Option (Task Json)
  on_rule t rule event now =
      if not (match_rule rule event)
      then (t, none)
      else if is_cooling_down t rule.name now
      then (t, none)
      else (let t' = record_trigger t rule.name now in
          if rule.action == "direct"
          then (t', some (execute rule (direct_prompt_of rule event) ("direct_rule:" ⧺ rule.name)))
          else if rule.action == "evaluate"
          then (let (t'', granted) = check_rate_limit t' now in
              (t'', if granted then some (evaluate rule event) else none))
          else (t', none))

  abbrev collect : Option (Task Json) → List (Task Json) → List (Task Json)
  collect none tasks = tasks
  collect (some task) tasks = task ∷ tasks

  unfoldable pub on_rules :
      List (EventRule Json) → Trigger Json → SystemEvent Json → ℕ → Trigger Json × List (Task Json)
  on_rules [] t event now = (t, [])
  on_rules (rule ∷ rest) t event now =
      let (t', task) = on_rule t rule event now in
      let (t'', tasks) = on_rules rest t' event now in (t'', collect task tasks)

  abbrev pub on_event : Trigger Json → SystemEvent Json → ℕ → Trigger Json × List (Task Json)
  on_event t event now = on_rules t.rules t event now
