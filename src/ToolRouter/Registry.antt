-- ===== src/ToolRouter/Registry.antt =====
-- The capability registry (core/capability_registry.hh, core/capability_registry.cc). The walk over
-- the map follows its list; nothing proved depends on the order.
use claw.Base.{
  ℕ, String, Bool, Option, none, some, List, [], ◌∷◌, ◌++◌, ltb, length, ◌||◌, ◌==◌, string_eq,
  if◌then◌else◌,
}
use claw.Base.Int.{ℤ}
use claw.Base.Dict.{Dict, lookup, insert, erase, entry}
use claw.ToolRouter.Defs.{CapabilitySource, source_priority}

pub data SideEffect : Type 0 where
  no_effect reversible irreversible unknown : SideEffect

pub record FunctionContract : Type 0 where
  pub side_effect : SideEffect
  pub max_retries : ℤ
  pub retry_delay_ms : ℤ
  pub idempotent : Bool
  pub required_permissions : List String
  pub estimated_duration_ms : ℤ
  pub execution_env : String

pub record Capability : Type 0 where
  pub name : String
  pub description : String
  pub category : String
  pub source : CapabilitySource
  pub contract : FunctionContract

abbrev pub Registry : Type 0
Registry = Dict String Capability

pub register : Registry → String → Capability → Registry
register r name cap = insert name cap r

pub unregister : Registry → String → Registry
unregister r name = erase name r

pub get : Registry → String → Option Capability
get r name = lookup name r

pub side_effect_to_string : SideEffect → String
side_effect_to_string no_effect = "read-only"
side_effect_to_string reversible = "reversible"
side_effect_to_string irreversible = "irreversible"
side_effect_to_string unknown = "unknown"

pub parse_side_effect : String → SideEffect
parse_side_effect str =
    if str == "none" || str == "read-only"
    then no_effect
    else if str == "reversible"
    then reversible
    else if str == "irreversible"
    then irreversible
    else unknown

-- The category under which a capability is grouped.
abbrev pub group_of : Capability → String
group_of cap = if cap.category == "" then "general" else cap.category

abbrev pub Tools : Type 0
Tools = List (String × CapabilitySource)

-- by_category[cat].emplace_back(name, cap.source)
unfoldable pub group : Registry → Dict String Tools → Dict String Tools
group [] by_category = by_category
group ((name, cap) ∷ caps) by_category =
    let cat = group_of cap in
    group caps (insert cat (entry [] cat by_category ++ (name, cap.source) ∷ []) by_category)

-- The loop that looks for the best tool of a category, from the first best seen so far.
unfoldable pub best_of : Option String × ℕ → Tools → Option String × ℕ
best_of best [] = best
best_of (name, prio) ((tname, src) ∷ tools) =
    best_of
      (if ltb (source_priority src) prio then (some tname, source_priority src) else (name, prio))
      tools

unfoldable pub redirected : String → ℕ → Tools → List (String × String)
redirected best_name best_prio [] = []
redirected best_name best_prio ((tname, src) ∷ tools) =
    let rest = redirected best_name best_prio tools in
    if ltb best_prio (source_priority src) then (tname, best_name) ∷ rest else rest

abbrev pub redirect_all : Option String × ℕ → Tools → List (String × String)
redirect_all (none, prio) tools = []
redirect_all (some best, prio) tools = redirected best prio tools

unfoldable pub overlaps_in : Tools → List (String × String)
overlaps_in tools =
    if ltb (length tools) 2 then [] else redirect_all (best_of (none, 99) tools) tools

unfoldable pub all_overlaps : Dict String Tools → List (String × String)
all_overlaps [] = []
all_overlaps ((cat, tools) ∷ rest) = overlaps_in tools ++ all_overlaps rest

unfoldable pub detect_overlaps : Registry → List (String × String)
detect_overlaps r = all_overlaps (group r [])
