-- ===== src/SafetyGuard/Check.antt =====
-- The checks of SafetyGuard: Validate, IsExcludedTool, ValidateParam, FindBound and ClampToSafe
-- (core/safety_guard.cc).
use claw.Base.{
  String, ◌⧺◌, Bool, true, false, Option, none, some, List, [], ◌∷◌, any, ◌&&◌, ◌==◌, string_eq,
  if◌then◌else◌,
}
use claw.Base.Dict.{lookup, entry}
use claw.Json.{JsonLib}
use claw.SafetyGuard.Defs.{
  Doubles, UserRole, guest, child, SafetyBound, SafetyCheckResult, SafetyGuard,
}

abbrev pub passed : SafetyCheckResult
passed = record { allowed = true; requires_confirmation = false; reason = ""; safe_value = "" }

abbrev pub denied : String → SafetyCheckResult
denied reason = record passed { allowed = false; reason = reason }

-- for (t : list) if (t == tool_name) ...
abbrev pub listed : String → List String → Bool
listed tool = any (λ t. t == tool)

abbrev pub is_guest : UserRole → Bool
is_guest guest = true
is_guest _ = false

abbrev pub is_child_or_guest : UserRole → Bool
is_child_or_guest guest = true
is_child_or_guest child = true
is_child_or_guest _ = false

module _ (json : JsonLib) (doubles : Doubles json) where
  open json use {Json, at, is_string, get_string}
  open doubles use {Double, lt, to_string, stod, is_number, get_double}

  unfoldable pub is_excluded_tool : SafetyGuard Double → String → Bool
  is_excluded_tool g tool = listed tool g.device_profile.excluded_tools

  -- The text of a violation, with the bound that was passed and the words for it.
  violation : SafetyBound Double → Double → String → Double → SafetyCheckResult
  violation bound value words limit =
      let reason =
        "Safety violation: "
        ⧺ (bound.param_name
            ⧺ (" value "
                ⧺ (to_string value
                    ⧺ (" " ⧺ (bound.unit ⧺ (words ⧺ (to_string limit ⧺ (" " ⧺ bound.unit)))))))) in
      record {
        allowed = false;
        requires_confirmation = false;
        reason =
            if bound.description == "" then reason else reason ⧺ (" (" ⧺ (bound.description ⧺ ")"));
        safe_value = to_string limit;
      }

  unfoldable pub validate_param : SafetyBound Double → Double → SafetyCheckResult
  unfolding violation
  validate_param bound value =
      if lt value bound.min_value
      then violation bound value " is below minimum safe limit of " bound.min_value
      else if lt bound.max_value value
      then violation bound value " exceeds maximum safe limit of " bound.max_value
      else passed

  -- A number, or a text that std::stod reads; anything else is skipped.
  unfoldable pub numeric : Json → Option Double
  numeric v =
      if is_number v
      then get_double v
      else if is_string v
      then (elim (get_string v) [ none ↦ none | some s ↦ stod s ])
      else none

  unfoldable pub numeric_arg : Json → String → Option Double
  numeric_arg args param = elim (at args param) [ none ↦ none | some v ↦ numeric v ]

  abbrev pub check_value : SafetyBound Double → Option Double → SafetyCheckResult
  check_value bound none = passed
  check_value bound (some v) = validate_param bound v

  -- The loop over the bounds of the tool: the first violation is returned.
  unfoldable pub check_bounds : Json → List (SafetyBound Double) → Option SafetyCheckResult
  check_bounds args [] = none
  check_bounds args (bound ∷ rest) =
      let result = check_value bound (numeric_arg args bound.param_name) in
      if result.allowed then check_bounds args rest else some result

  confirmation : SafetyGuard Double → String → SafetyCheckResult
  confirmation g tool =
      if listed tool g.confirmation_tools
      then record passed {
        requires_confirmation = true;
        reason = "This action requires user confirmation before execution";
      }
      else passed

  unfoldable pub validate : SafetyGuard Double → String → Json → UserRole → SafetyCheckResult
  unfolding confirmation
  validate g tool args role =
      if is_guest role && listed tool g.guest_restricted_tools
      then denied ("Guest users are not allowed to use the '" ⧺ (tool ⧺ "' action."))
      else if is_child_or_guest role && listed tool g.child_restricted_tools
      then denied ("This action ('" ⧺ (tool ⧺ "') is restricted for child/guest users."))
      else if is_excluded_tool g tool
      then denied (
          "Tool '"
          ⧺ (tool ⧺ ("' is not available on this " ⧺ (g.device_profile.device_type ⧺ " device"))))
      else elim (check_bounds args (entry [] tool g.bounds)) [
        | some result ↦ result
        | none ↦ confirmation g tool
      ]

  first_bound : String → List (SafetyBound Double) → Option (SafetyBound Double)
  first_bound param [] = none
  first_bound param (b ∷ rest) = if b.param_name == param then some b else first_bound param rest

  unfoldable pub find_bound : SafetyGuard Double → String → String → Option (SafetyBound Double)
  unfolding first_bound
  find_bound g tool param = elim (lookup tool g.bounds) [
    | none ↦ none
    | some l ↦ first_bound param l
  ]

  unfoldable pub clamp_to_safe : SafetyGuard Double → String → String → Double → Double × Bool
  clamp_to_safe g tool param value = elim (find_bound g tool param) [
    | none ↦ (value, false)
    | some bound ↦
        if lt value bound.min_value
        then (bound.min_value, true)
        else if lt bound.max_value value
        then (bound.max_value, true)
        else (value, false)
  ]
