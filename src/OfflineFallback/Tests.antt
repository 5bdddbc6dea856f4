-- ===== src/OfflineFallback/Tests.antt =====
-- OfflineFallback with one sort that keeps the promise, at concrete inputs.
use claw.Base.{String, ◌≡◌, refl, Bool, false, List, [], ◌∷◌, string_eq, if◌then◌else◌}
use claw.Base.Int.{ℤ, pos}
use claw.Json.{holds}
use claw.TestJson.{Value, str, num, test_json}
use claw.OfflineFallback.Defs.{FallbackRule, OfflineFallback, load_config, load_list, match_prompt}
use mathlib.Core.List.{Perm}
use mathlib.Core.List.Perm

abbrev Rule : Type 0
Rule = FallbackRule Value

module _ (comp : Rule → Rule → Bool) where
  abbrev insert_rule : Rule → List Rule → List Rule
  insert_rule rule [] = rule ∷ []
  insert_rule rule (other ∷ rest) =
      let later = insert_rule rule rest in
      if comp other rule then other ∷ later else rule ∷ other ∷ rest

  abbrev sort : List Rule → List Rule
  sort [] = []
  sort (rule ∷ rest) = insert_rule rule (sort rest)

abbrev rule_file : String → String → ℤ → Value
rule_file keyword response priority = test_json.of_items (
    ("keywords", test_json.of_elements (str keyword ∷ []))
    ∷ ("response", str response)
    ∷ ("priority", num priority)
    ∷ [])

abbrev file : Value
file = test_json.of_items (
    (
      "rules",
      test_json.of_elements
          (rule_file "oven" "Oven." (pos 1) ∷ rule_file "Oven off" "Off." (pos 5) ∷ []),
    )
    ∷ [])

abbrev loaded : OfflineFallback Value × Bool
loaded = load_config test_json sort (record { rules = []; config_loaded = false }) (holds file)

-- The rule with the higher priority answers.
off_first :
    (match_prompt test_json loaded.0 "turn the oven off now, Oven Off").direct_response ≡ "Off."
unfolding match_prompt load_config load_list
off_first = refl
