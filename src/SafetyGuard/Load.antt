-- ===== src/SafetyGuard/Load.antt =====
-- LoadConfig and LoadDeviceProfile of SafetyGuard (core/safety_guard.cc). A loader that throws
-- keeps what it wrote before.
use claw.Base.{
  String, Bool, true, false, Option, none, some, List, [], ◌∷◌, ◌++◌, ◌==◌, string_eq,
  if◌then◌else◌,
}
use claw.Base.Int.{pos}
use claw.Base.Dict.{insert, entry}
use claw.Base.Attempt.{Attempt, done, modify, require, for_each, when_present, caught, ◌>>=◌, ◌>>◌}
use claw.Json.{JsonLib, ConfigFile, missing, malformed, holds, value}
use claw.SafetyGuard.Defs.{Doubles, SafetyBound, DeviceProfile, SafetyGuard}

module _ (json : JsonLib) (doubles : Doubles json) where
  open json use {Json, at, is_object, is_array, is_string, get_string, get_int, items, elements}
  open doubles use {Double, zero, get_double}

  abbrev pub Loader : Type 0 → Type 0
  Loader A = Attempt (SafetyGuard Double) A

  -- j.contains(key) && j[key].is_...()
  abbrev pub present : (Json → Bool) → Json → String → Option Json
  present test j key = elim (at j key) [ none ↦ none | some v ↦ if test v then some v else none ]

  unfoldable pub read_bound : String → Json → Loader (SafetyBound Double)
  read_bound default_description p = do
    param ← require (value json get_string p "param" "")
    low ← require (value json get_double p "min" zero)
    high ← require (value json get_double p "max" zero)
    unit ← require (value json get_string p "unit" "")
    description ← require (value json get_string p "description" default_description)
    require (
        some (record {
          param_name = param;
          min_value = low;
          max_value = high;
          unit = unit;
          description = description;
        }))

  -- The bounds of one tool, those without a parameter name left out.
  unfoldable pub read_bounds : List Json → Loader (List (SafetyBound Double))
  read_bounds [] = require (some [])
  read_bounds (p ∷ rest) = do
    b ← read_bound "" p
    bs ← read_bounds rest
    require (some (if b.param_name == "" then bs else b ∷ bs))

  unfoldable pub load_tool_bounds : String × Json → Loader (Unit {0})
  load_tool_bounds (tool, params) =
      if is_array params
      then (do
        bs ← read_bounds (elements params)
        modify (λ g. elim bs [
          | [] ↦ g
          | b ∷ rest ↦ record g { bounds = insert tool (b ∷ rest) g.bounds }
        ]))
      else done

  unfoldable pub load_rate_rule : String × Json → Loader (Unit {0})
  load_rate_rule (tool, rule) = do
    calls ← require (value json get_int rule "max_calls" (pos 5))
    window ← require (value json get_int rule "window_seconds" (pos 60))
    modify (λ g. record g {
      rate_rules = insert tool (record { max_calls = calls; window_seconds = window }) g.rate_rules;
    })

  -- if (t.is_string()) list.push_back(t.get<std::string>());
  abbrev pub push_string :
      (String → SafetyGuard Double → SafetyGuard Double) → Json → Loader (Unit {0})
  push_string push t =
      if is_string t then (do s ← require (get_string t); modify (push s)) else done

  abbrev push_confirmation : String → SafetyGuard Double → SafetyGuard Double
  push_confirmation s g = record g { confirmation_tools = g.confirmation_tools ++ s ∷ [] }

  abbrev push_child : String → SafetyGuard Double → SafetyGuard Double
  push_child s g = record g { child_restricted_tools = g.child_restricted_tools ++ s ∷ [] }

  abbrev push_guest : String → SafetyGuard Double → SafetyGuard Double
  push_guest s g = record g { guest_restricted_tools = g.guest_restricted_tools ++ s ∷ [] }

  load_fields : Json → Loader (Unit {0})
  unfolding load_tool_bounds load_rate_rule read_bounds read_bound
  load_fields j = do
    when_present (present is_object j "bounds") λ v. for_each (items v) load_tool_bounds
    when_present (present is_object j "rate_limits") λ v. for_each (items v) load_rate_rule
    when_present (present is_array j "confirmation_required")
        λ v. for_each (elements v) (push_string push_confirmation)
    when_present (present is_object j "restricted_tools") λ v. (do
      when_present (present is_array v "child") λ l. for_each (elements l) (push_string push_child)
      when_present (present is_array v "guest") λ l. for_each (elements l) (push_string push_guest))
    modify (λ g. record g { config_loaded = true })

  unfoldable pub load_config : SafetyGuard Double → ConfigFile Json → SafetyGuard Double × Bool
  unfolding load_fields
  load_config g missing = (g, false)
  load_config g malformed = (g, false)
  load_config g (holds j) = caught (load_fields j g)

  abbrev pub with_profile :
      (DeviceProfile → DeviceProfile) → SafetyGuard Double → SafetyGuard Double
  with_profile f g = record g { device_profile = f g.device_profile }

  abbrev pub push_capability : String → SafetyGuard Double → SafetyGuard Double
  push_capability s = with_profile (λ p. record p { capabilities = p.capabilities ++ s ∷ [] })

  abbrev pub push_excluded : String → SafetyGuard Double → SafetyGuard Double
  push_excluded s = with_profile (λ p. record p { excluded_tools = p.excluded_tools ++ s ∷ [] })

  -- bounds_[tool_name].push_back(b), where the bound names a parameter
  abbrev pub push_bound : String → SafetyBound Double → SafetyGuard Double → SafetyGuard Double
  push_bound tool b g =
      if b.param_name == ""
      then g
      else record g { bounds = insert tool (entry [] tool g.bounds ++ b ∷ []) g.bounds }

  unfoldable pub merge_bound : String → Json → Loader (Unit {0})
  merge_bound tool p = do b ← read_bound "device-specific bound" p; modify (push_bound tool b)

  unfoldable pub merge_bounds : String × Json → Loader (Unit {0})
  merge_bounds (tool, params) =
      if is_array params then for_each (elements params) (merge_bound tool) else done

  unfoldable pub load_profile : Json → Loader (Unit {0})
  load_profile j = do
    device ← require (value json get_string j "device_type" "generic")
    modify (with_profile (λ p. record p { device_type = device }))
    when_present (present is_array j "capabilities")
        λ v. for_each (elements v) (push_string push_capability)
    when_present (present is_array j "excluded_tools")
        λ v. for_each (elements v) (push_string push_excluded)
    when_present (present is_object j "safety_bounds") λ v. for_each (items v) merge_bounds

  unfoldable pub load_device_profile :
      SafetyGuard Double → ConfigFile Json → SafetyGuard Double × Bool
  load_device_profile g missing = (g, false)
  load_device_profile g malformed = (g, false)
  load_device_profile g (holds j) = caught (load_profile j g)
