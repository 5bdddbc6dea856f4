-- ===== src/ToolRouter/Queries.antt =====
-- The other methods of the capability registry: queries, the contract of a manifest, and the summary
-- for the prompt.
use claw.Base.{
  ℕ, suc, ◌-◌, ◌/◌, String, ◌⧺◌, to_string, Bool, true, false, not, Option, none, some, List, [],
  ◌∷◌, ◌++◌, map, any, length, ◌==◌, ◌=ℕ◌, string_eq, if◌then◌else◌,
}
use claw.Base.Int.{ℤ, pos, negsuc}
use claw.Base.Dict.{Dict, insert, entry}
use claw.Base.Options.{◌>>=◌}
use claw.Json.{JsonLib, value}
use claw.ToolRouter.Registry.{
  SideEffect, no_effect, reversible, irreversible, unknown, FunctionContract, Capability, Registry,
  side_effect_to_string, parse_side_effect, group_of,
}

pub clear_registry : Registry → Registry
clear_registry r = []

abbrev pub same_effect : SideEffect → SideEffect → Bool
same_effect no_effect no_effect = true
same_effect reversible reversible = true
same_effect irreversible irreversible = true
same_effect unknown unknown = true
same_effect _ _ = false

abbrev select : (Capability → Bool) → Registry → List Capability
select wanted [] = []
select wanted ((name, cap) ∷ caps) =
    let rest = select wanted caps in if wanted cap then cap ∷ rest else rest

unfoldable pub query_by_category : Registry → String → List Capability
query_by_category r category = select (λ cap. cap.category == category) r

unfoldable pub query_by_side_effect : Registry → SideEffect → List Capability
query_by_side_effect r effect = select (λ cap. same_effect cap.contract.side_effect effect) r

unfoldable pub query_by_permission : Registry → String → List Capability
query_by_permission r permission =
    select (λ cap. any (λ p. p == permission) cap.contract.required_permissions) r

unfoldable pub get_all_names : Registry → List String
get_all_names r = map (λ (b : String × Capability). b.0) r

unfoldable pub size : Registry → ℕ
size r = length r

abbrev pub default_contract : FunctionContract
default_contract = record {
  side_effect = unknown;
  max_retries = pos 0;
  retry_delay_ms = pos 1000;
  idempotent = false;
  required_permissions = [];
  estimated_duration_ms = pos 5000;
  execution_env = "";
}

-- Integer division cuts towards zero.
abbrev seconds : ℤ → ℤ
seconds (pos ms) = pos (ms / 1000)
seconds (negsuc ms) = if suc ms / 1000 =ℕ 0 then pos 0 else negsuc (suc ms / 1000 - 1)

abbrev requires : List String → String
requires [] = ""
requires (p ∷ ps) = " " ⧺ (p ⧺ requires ps)

abbrev requirements : List String → String
requirements [] = ""
requirements (p ∷ ps) = ", requires:" ⧺ requires (p ∷ ps)

abbrev pub summary_entry : String → Capability → String
summary_entry name cap =
    name
    ⧺ (" ("
        ⧺ (side_effect_to_string cap.contract.side_effect
            ⧺ (", "
                ⧺ (to_string (seconds cap.contract.estimated_duration_ms)
                    ⧺ ("s" ⧺ (requirements cap.contract.required_permissions ⧺ ")"))))))

unfoldable pub categories : Registry → Dict String (List String) → Dict String (List String)
categories [] found = found
categories ((name, cap) ∷ caps) found =
    let cat = group_of cap in
    categories caps (insert cat (entry [] cat found ++ (summary_entry name cap ∷ [])) found)

pub record EffectCounts : Type 0 where
  pub none_count : ℕ
  pub reversible_count : ℕ
  pub irreversible_count : ℕ
  pub unknown_count : ℕ

abbrev add_effect : SideEffect → EffectCounts → EffectCounts
add_effect no_effect c = record c { none_count = suc c.none_count }
add_effect reversible c = record c { reversible_count = suc c.reversible_count }
add_effect irreversible c = record c { irreversible_count = suc c.irreversible_count }
add_effect unknown c = record c { unknown_count = suc c.unknown_count }

unfoldable pub count_effects : Registry → EffectCounts
count_effects [] = record {
  none_count = 0;
  reversible_count = 0;
  irreversible_count = 0;
  unknown_count = 0;
}
count_effects ((name, cap) ∷ caps) = add_effect cap.contract.side_effect (count_effects caps)

module _ (json : JsonLib) where
  open json use {
    Json, at, is_object, is_array, elements, get_string, get_int, get_bool, of_string, of_int,
    of_items, of_elements,
  }

  abbrev all_strings : List Json → Option (List String)
  all_strings [] = some []
  all_strings (p ∷ ps) =
      let later = all_strings ps in
      elim (get_string p) [
        | none ↦ none
        | some s ↦ elim later [ none ↦ none | some rest ↦ some (s ∷ rest) ]
      ]

  abbrev permissions_of : Json → Option (List String)
  permissions_of j = elim (at j "required_permissions") [
    | none ↦ some []
    | some v ↦ if is_array v then all_strings (elements v) else some []
  ]

  abbrev effect_of : Json → Option SideEffect
  effect_of j = elim (at j "side_effect") [
    | none ↦ some unknown
    | some v ↦ elim (get_string v) [ none ↦ none | some s ↦ some (parse_side_effect s) ]
  ]

  -- `none` where a conversion throws.
  unfoldable pub parse_contract : Json → Option FunctionContract
  parse_contract j = if not (is_object j) then some default_contract else do
    effect ← effect_of j
    retries ← value json get_int j "max_retries" (pos 0)
    delay ← value json get_int j "retry_delay_ms" (pos 1000)
    idempotent ← value json get_bool j "idempotent" false
    duration ← value json get_int j "estimated_duration_ms" (pos 5000)
    env ← value json get_string j "execution_env" "container"
    permissions ← permissions_of j
    some (record {
      side_effect = effect;
      max_retries = retries;
      retry_delay_ms = delay;
      idempotent = idempotent;
      required_permissions = permissions;
      estimated_duration_ms = duration;
      execution_env = env;
    })

  unfoldable pub get_capability_summary : Registry → Json
  get_capability_summary r =
      let c = count_effects r in
      of_items (
        (
          "categories",
          of_items (
              map (λ (b : String × List String). (b.0, of_elements (map of_string b.1)))
                (categories r [])),
        )
        ∷ ("total_capabilities", of_int (pos (size r)))
        ∷ (
          "side_effect_summary",
          of_items (
              ("none", of_int (pos c.none_count))
              ∷ ("reversible", of_int (pos c.reversible_count))
              ∷ ("irreversible", of_int (pos c.irreversible_count))
              ∷ ("unknown", of_int (pos c.unknown_count))
              ∷ []),
        )
        ∷ [])
