-- ===== src/SafetyGuard/Tests.antt =====
-- The safety guard at concrete inputs, with integers for the doubles.
use claw.Base.{
  String, ◌≡◌, ◌↔◌, refl, Bool, true, false, not, Option, none, some, List, [], ◌∷◌, arith,
  string_eq,
}
use claw.Base.Dict.{insert}
use claw.Base.Int.{ℤ, pos, ltb_ℤ}
use claw.Base.{to_string}
use claw.Json.{ConfigFile, holds}
use claw.TestJson.{Value, num, str, arr, cons, nil, obj, field, end, test_json}
use claw.SafetyGuard.Defs.{Doubles, guest, SafetyBound, SafetyGuard, ActionRateRule}
use claw.SafetyGuard.Check.{validate, validate_param, clamp_to_safe, find_bound}
use claw.SafetyGuard.Rate.{rate_step}
use claw.SafetyGuard.Load.{load_device_profile}
use claw.SafetyGuard.Allowed.{IsPermitted, validate_iff}
use claw.SafetyGuard.Window.{verdicts, window_step, rate_step-window}
use claw.SafetyGuard.Profile.{validate-load_device_profile}

abbrev is_number : Value → Bool
is_number (num n) = true
is_number _ = false

abbrev get_double : Value → Option ℤ
get_double (num n) = some n
get_double _ = none

abbrev pub test_doubles : Doubles test_json
test_doubles = record {
  Double = ℤ;
  zero = pos 0;
  lt = ltb_ℤ;
  to_string = to_string;
  stod = λ s. none;
  is_number = is_number;
  get_double = get_double;
}

abbrev heat : SafetyBound ℤ
heat = record {
  param_name = "temperature";
  min_value = pos 10;
  max_value = pos 90;
  unit = "C";
  description = "";
}

abbrev pub oven : SafetyGuard ℤ
oven = record {
  bounds = ("bake", heat ∷ []) ∷ [];
  rate_rules = [];
  rate_history = [];
  confirmation_tools = "bake" ∷ [];
  child_restricted_tools = "clean" ∷ [];
  guest_restricted_tools = "admin" ∷ [];
  device_profile = record { device_type = "oven"; capabilities = []; excluded_tools = "fly" ∷ [] };
  config_loaded = true;
}

abbrev bake_args : Value
bake_args = obj (field "temperature" (num (pos 50)) end)

validate_iff_example :
    ((validate test_json test_doubles oven "bake" bake_args guest).allowed ≡ true)
    ↔ IsPermitted test_json test_doubles oven "bake" bake_args guest
validate_iff_example = validate_iff test_json test_doubles oven "bake" bake_args guest

bake_allowed : (validate test_json test_doubles oven "bake" bake_args guest).allowed ≡ true
unfolding validate claw.SafetyGuard.Check.is_excluded_tool claw.SafetyGuard.Check.check_bounds
    claw.Base.Dict.entry claw.Base.Dict.lookup claw.SafetyGuard.Check.numeric_arg
    claw.SafetyGuard.Check.numeric validate_param
bake_allowed = refl

abbrev cool : ConfigFile Value
cool = holds (
    obj (
      field "safety_bounds"
        (obj (
          field "bake"
            (arr
              (cons (obj (field "param" (str "temperature") (field "max" (num (pos 60)) end))) nil))
            end))
        end))

bake_allowed_after :
    (validate test_json test_doubles
      (load_device_profile test_json test_doubles oven cool).0
      "bake"
      bake_args
      guest).allowed
    ≡ true
unfolding validate load_device_profile claw.SafetyGuard.Load.load_profile
    claw.SafetyGuard.Load.merge_bounds claw.SafetyGuard.Load.merge_bound
    claw.SafetyGuard.Load.read_bound claw.SafetyGuard.Check.is_excluded_tool
    claw.SafetyGuard.Check.check_bounds claw.Base.Dict.entry claw.Base.Dict.lookup insert
    claw.SafetyGuard.Check.numeric_arg claw.SafetyGuard.Check.numeric validate_param
bake_allowed_after = refl

validate-load_device_profile_example :
    (validate test_json test_doubles oven "bake" bake_args guest).allowed ≡ true
validate-load_device_profile_example =
    validate-load_device_profile test_json test_doubles oven cool "bake" bake_args guest
      bake_allowed_after

abbrev twice_a_minute : ActionRateRule
twice_a_minute = record { max_calls = pos 2; window_seconds = pos 60 }

abbrev call_times : List ℤ
call_times = pos 100 ∷ pos 110 ∷ pos 120 ∷ pos 165 ∷ []

rate_step-window_example :
    verdicts (rate_step twice_a_minute) [] call_times
    ≡ verdicts (window_step twice_a_minute) [] call_times
rate_step-window_example = rate_step-window twice_a_minute (pos 0) call_times (omega arith)

ltb_ℤ-irreflexive : (d : ℤ) → ltb_ℤ d d ≡ false
ltb_ℤ-irreflexive d = ground arith

heat_found : find_bound test_json test_doubles oven "bake" "temperature" ≡ some heat
unfolding find_bound claw.Base.Dict.lookup
heat_found = refl
