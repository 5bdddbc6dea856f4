-- ===== src/ToolPolicy/Defs.antt =====
-- The state and the methods of ToolPolicy (core/tool_policy.hh, core/tool_policy.cc).
use claw.Base.{
  ℕ, suc, String, ◌⧺◌, to_string, hex, Bool, true, false, Option, none, some, List, [], ◌∷◌, ◌++◌,
  ltb, any, length, ◌==◌, string_eq, if◌then◌else◌,
}
use claw.Base.Dict.{Dict, lookup, insert, erase, entry, member}
use claw.Base.Int.{ℤ, pos, ltb_ℤ}
use claw.Base.Attempt.{Attempt, done, modify, require, for_each, when_present, caught, ◌>>=◌, ◌>>◌}
use claw.Json.{JsonLib, ConfigFile, missing, malformed, holds}

pub data RiskLevel : Type 0 where
  low normal high : RiskLevel

pub record ToolPolicyConfig : Type 0 where
  pub risk_levels : Dict String RiskLevel
  pub max_repeat_count : ℤ
  pub blocked_skills : List String
  pub max_iterations : ℤ
  pub aliases : Dict String String

pub record ToolPolicy : Type 0 where
  pub config : ToolPolicyConfig
  pub call_history : Dict String (Dict String ℕ)
  pub idle_history : Dict String (List String)

abbrev pub default_config : ToolPolicyConfig
default_config = record {
  risk_levels = [];
  max_repeat_count = pos 3;
  blocked_skills = [];
  max_iterations = pos 5;
  aliases = [];
}

abbrev pub idle_window_size : ℕ
idle_window_size = 3

abbrev pub parse_risk_level : String → RiskLevel
parse_risk_level str = if str == "low" then low else if str == "high" then high else normal

abbrev pub risk_level_to_string : RiskLevel → String
risk_level_to_string low = "low"
risk_level_to_string high = "high"
risk_level_to_string normal = "normal"

-- std::set::insert and std::set::count
abbrev pub in_set : String → List String → Bool
in_set k = any (λ s. s == k)

abbrev insert_set : String → List String → List String
insert_set k xs = if in_set k xs then xs else k ∷ xs

-- A map entry that operator[] creates is empty, or 0.
abbrev pub calls_of : Dict String (Dict String ℕ) → String → Dict String ℕ
calls_of h session = entry [] session h

abbrev pub count_of : Dict String ℕ → String → ℕ
count_of m hash = entry 0 hash m

abbrev pub outputs_of : Dict String (List String) → String → List String
outputs_of h session = entry [] session h

-- `std_hash` is std::hash<std::string>, which the standard leaves to the implementation.
module _ (json : JsonLib) (std_hash : String → ℕ) where
  open json use {Json, is_null, dump}

  unfoldable pub hash_call : String → Json → String
  unfolding hex
  hash_call name args =
      let input = name ⧺ ":" in hex (std_hash (if is_null args then input else input ⧺ dump args))

unfoldable pub blocked_message : String → String
blocked_message skill = "Tool '" ⧺ (skill ⧺ "' is blocked by security policy.")

unfoldable pub repeat_message : String → ℕ → ℤ → String
repeat_message skill count limit =
    "Tool '"
    ⧺ (skill
        ⧺ ("' with identical arguments has been called "
            ⧺ (to_string (pos count)
                ⧺ (" times (limit: "
                    ⧺ (to_string limit
                        ⧺ "). Execution blocked to prevent infinite loop. Please try a different approach.")))))

unfoldable pub reset_session : ToolPolicy → String → ToolPolicy
reset_session p session = record p {
  call_history = erase session p.call_history;
  idle_history = erase session p.idle_history;
}

unfoldable pub reset_idle_tracking : ToolPolicy → String → ToolPolicy
reset_idle_tracking p session = record p { idle_history = erase session p.idle_history }

-- while (history.size() > kIdleWindowSize) history.erase(history.begin());
unfoldable pub trim_front : List String → List String
trim_front [] = []
trim_front (x ∷ xs) = if ltb idle_window_size (length (x ∷ xs)) then trim_front xs else x ∷ xs

-- for (entry : history) if (entry != first) return false;
abbrev pub all_same : String → List String → Bool
all_same first [] = true
all_same first (entry ∷ rest) = if entry == first then all_same first rest else false

unfoldable pub is_idle : List String → Bool
is_idle history =
    if ltb (length history) idle_window_size
    then false
    else elim history [ [] ↦ true | first ∷ rest ↦ all_same first (first ∷ rest) ]

unfoldable pub check_idle_progress : ToolPolicy → String → String → ToolPolicy × Bool
check_idle_progress p session output =
    let history = trim_front (outputs_of p.idle_history session ++ output ∷ []) in
    (record p { idle_history = insert session history p.idle_history }, is_idle history)

pub get_risk_level : ToolPolicy → String → RiskLevel
get_risk_level p skill = elim (lookup skill p.config.risk_levels) [ none ↦ normal | some l ↦ l ]

-- The two outcomes of CheckPolicy past the blocked list, for the count just made.
abbrev repeat_verdict : ToolPolicy → String → ℕ → String
repeat_verdict p skill count =
    if ltb_ℤ p.config.max_repeat_count (pos count)
    then repeat_message skill count p.config.max_repeat_count
    else ""

module _ (json : JsonLib) (std_hash : String → ℕ) where
  open json use {Json, get_string, get_int, at, elements, items, is_object, is_string}

  unfoldable pub check_policy : ToolPolicy → String → String → Json → ToolPolicy × String
  check_policy p session skill args =
      if in_set skill p.config.blocked_skills
      then (p, blocked_message skill)
      else (let calls = calls_of p.call_history session in
          let hash = hash_call json std_hash skill args in
          let count = suc (count_of calls hash) in
          (
            record p { call_history = insert session (insert hash count calls) p.call_history },
            repeat_verdict p skill count,
          ))

module _ (json : JsonLib) where
  open json use {Json, get_string, get_int, at, elements, items, is_object, is_string}

  abbrev Loader : Type 0
  Loader = Attempt ToolPolicyConfig (Unit {0})

  load_risk : String × Json → Loader
  load_risk (k, v) = do
    level ← require (get_string v)
    modify (λ c. record c { risk_levels = insert k (parse_risk_level level) c.risk_levels })

  load_alias : String × Json → Loader
  load_alias (k, v) =
      if is_string v
      then (do
        target ← require (get_string v)
        modify (λ c. record c { aliases = insert k target c.aliases }))
      else done

  load_blocked : Json → Loader
  load_blocked s = do
    name ← require (get_string s)
    modify (λ c. record c { blocked_skills = insert_set name c.blocked_skills })

  load_fields : Json → Loader
  unfolding load_risk load_alias load_blocked
  load_fields j = do
    when_present (at j "max_repeat_count")
        λ v. (do n ← require (get_int v); modify (λ c. record c { max_repeat_count = n }))
    when_present (at j "blocked_skills") λ v. for_each (elements v) load_blocked
    when_present (at j "risk_overrides") λ v. for_each (items v) load_risk
    when_present (at j "max_iterations")
        λ v. (do n ← require (get_int v); modify (λ c. record c { max_iterations = n }))
    when_present (at j "aliases") λ v. if is_object v then for_each (items v) load_alias else done

  load_config : ToolPolicy → ConfigFile Json → ToolPolicy × Bool
  unfolding load_fields
  load_config p missing = (p, true)
  load_config p malformed = (p, false)
  load_config p (holds j) =
      let (c, ok) = caught (load_fields j p.config) in (record p { config = c }, ok)

  -- The manifest's level counts only where no override stands. get<std::string>() may throw.
  load_manifest_risk_level : ToolPolicy → String → Json → Option ToolPolicy
  load_manifest_risk_level p skill manifest = elim (at manifest "risk_level") [
    | none ↦ some p
    | some v ↦ elim (get_string v) [
      | none ↦ none
      | some level ↦
          if member skill p.config.risk_levels
          then some p
          else some (record p {
            config = record p.config {
              risk_levels = insert skill (parse_risk_level level) p.config.risk_levels;
            };
          })
    ]
  ]
