-- ===== src/OfflineFallback/Best.antt =====
-- Which rule answers a prompt.
use claw.Base.{◌≡◌, ◌⊎◌, Bool, true, false, some, List, [], ◌∷◌, All, ◌&&◌}
use mathlib.Core.List.{Mem, Perm}
use mathlib.Core.List.Perm
use claw.Base.Int.{◌≤ℤ◌}
use claw.Base.Bytes.{Bytes}
use claw.Json.{JsonLib, ConfigFile, holds}
use claw.OfflineFallback.Defs.{
  FallbackRule, FallbackResult, OfflineFallback, Sorter, comes_first, applies, rules_array,
  no_result, result_of,
}
use claw.OfflineFallback.Keywords.{HasKeyword}

-- Nothing matched and no rule has a keyword in the text, or the result is that of a rule that has one,
-- and no rule that has one has a higher priority.
abbrev pub Answer :
    (json : JsonLib) → List (FallbackRule json.Json) → Bytes → FallbackResult json.Json → Type 0
Answer json rules text result =
    ((result ≡ no_result json) × All (λ rule. HasKeyword text rule.keywords → ⊥) rules)
    ⊎ ((best : FallbackRule json.Json) × (result ≡ result_of json best)
        × Mem best rules
        × HasKeyword text best.keywords
        × All (λ rule. HasKeyword text rule.keywords → rule.priority ≤ℤ best.priority) rules)

module _ {A : Type 0} where
  -- What a strict weak ordering is, as std::sort requires it of its comparator.
  pub record IsStrictWeak (comp : A → A → Bool) : Type 0 where
    pub asym : (a b : A) → comp a b ≡ true → comp b a ≡ false
    pub unordered_trans : (a b c : A) → comp a b ≡ false → comp b c ≡ false → comp a c ≡ false

  -- No later element comes before an earlier one.
  abbrev pub Sorted : (A → A → Bool) → List A → Type 0
  Sorted comp [] = Unit {0}
  Sorted comp (x ∷ rest) = All (λ other. comp other x ≡ false) rest × Sorted comp rest

  -- Tests that turn out alike for the members of a list.
  abbrev Tests : (A → Bool) → List A → Type 0
  Tests test xs = All (λ x. test x ≡ false) xs

-- What the C++ library says of std::sort: given a strict weak ordering, it puts the elements in order
-- and keeps them.
abbrev pub IsSort : (json : JsonLib) → Sorter json → Type 0
IsSort json sort =
    (comp : FallbackRule json.Json → FallbackRule json.Json → Bool)
    → IsStrictWeak comp
    → (rules : List (FallbackRule json.Json))
    → Sorted comp (sort comp rules) × Perm rules (sort comp rules)

module _ (json : JsonLib) where
  open json use {Json, elements}

  abbrev beats : Bytes → FallbackRule Json → FallbackRule Json → Bool
  beats text best rule = applies text rule && comes_first rule best

  -- The answer, with tests in the place of the conditions on all rules.
  abbrev Found : List (FallbackRule Json) → Bytes → FallbackResult Json → Type 0
  Found rules text result =
      ((result ≡ no_result json) × Tests (applies text) rules)
      ⊎ ((best : FallbackRule Json) × (result ≡ result_of json best)
          × Mem best rules
          × (applies text best ≡ true)
          × Tests (beats text best) rules)

  -- The file holds an array of rules.
  abbrev pub HasRules : ConfigFile Json → Json → Type 0
  HasRules file v = (j : Json) × (file ≡ holds j) × (rules_array json j ≡ some v)
