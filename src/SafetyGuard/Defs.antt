-- ===== src/SafetyGuard/Defs.antt =====
-- The state of SafetyGuard (core/safety_guard.hh), and what it takes from C++'s double.
use claw.Base.{String, Bool, Option, List}
use claw.Base.Int.{ℤ}
use claw.Base.Dict.{Dict}
use claw.Json.{JsonLib}

-- double is a parameter: `lt` is its `<`, `stod` is std::stod with `none` for a throw, `to_string`
-- is std::to_string.
pub record Doubles (json : JsonLib) : Type 1 where
  pub Double : Type 0
  pub zero : Double
  pub lt : Double → Double → Bool
  pub to_string : Double → String
  pub stod : String → Option Double
  pub is_number : json.Json → Bool
  pub get_double : json.Json → Option Double

pub data UserRole : Type 0 where
  guest child member admin : UserRole

pub record SafetyBound (D : Type 0) : Type 0 where
  pub param_name : String
  pub min_value : D
  pub max_value : D
  pub unit : String
  pub description : String

pub record ActionRateRule : Type 0 where
  pub max_calls : ℤ
  pub window_seconds : ℤ

pub record DeviceProfile : Type 0 where
  pub device_type : String
  pub capabilities : List String
  pub excluded_tools : List String

pub record SafetyCheckResult : Type 0 where
  pub allowed : Bool
  pub requires_confirmation : Bool
  pub reason : String
  pub safe_value : String

pub record SafetyGuard (D : Type 0) : Type 0 where
  pub bounds : Dict String (List (SafetyBound D))
  pub rate_rules : Dict String ActionRateRule
  pub rate_history : Dict String (List ℤ)
  pub confirmation_tools : List String
  pub child_restricted_tools : List String
  pub guest_restricted_tools : List String
  pub device_profile : DeviceProfile
  pub config_loaded : Bool
