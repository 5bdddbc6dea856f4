-- ===== src/ToolRouter/Defs.antt =====
-- The state and the methods of ToolRouter (core/tool_router.hh, core/tool_router.cc). Each method
-- holds the mutex throughout.
use claw.Base.{
  ℕ, String, Bool, Option, none, some, List, [], ◌∷◌, ◌||◌, ◌==◌, string_eq, if◌then◌else◌,
}
use claw.Base.Dict.{Dict, lookup, insert, member}
use claw.Json.{JsonLib}

pub data CapabilitySource : Type 0 where
  skill custom_skill action builtin system_cli cli rpk : CapabilitySource

unfoldable pub source_priority : CapabilitySource → ℕ
source_priority skill = 0
source_priority custom_skill = 1
source_priority action = 2
source_priority builtin = 3
source_priority system_cli = 4
source_priority cli = 5
source_priority rpk = 6

pub record ToolRouter : Type 0 where
  pub aliases : Dict String String
  pub overlaps : Dict String String

unfoldable pub resolve : ToolRouter → String → String
resolve r name = elim (lookup name r.aliases) [
  | some target ↦ target
  | none ↦ elim (lookup name r.overlaps) [ some target ↦ target | none ↦ name ]
]

unfoldable pub register_overlap : ToolRouter → String → String → ToolRouter
register_overlap r lower higher =
    if lower == higher
    then r
    else if member lower r.aliases
    then r
    else record r { overlaps = insert lower higher r.overlaps }

unfoldable pub has_redirect : ToolRouter → String → Bool
has_redirect r name = member name r.aliases || member name r.overlaps

-- for (auto& [k, v] : from) result[k] = v;
unfoldable pub copy_into : Dict String String → Dict String String → Dict String String
copy_into [] result = result
copy_into ((k, v) ∷ from) result = copy_into from (insert k v result)

unfoldable pub get_all_redirects : ToolRouter → Dict String String
get_all_redirects r = copy_into r.aliases (copy_into r.overlaps [])

unfoldable pub clear : ToolRouter → ToolRouter
clear r = record { aliases = []; overlaps = [] }

-- An empty target and a self-alias are skipped.
unfoldable pub add_target : Dict String String → String → Option String → Dict String String
add_target aliases key none = aliases
add_target aliases key (some target) =
    if target == "" then aliases else if key == target then aliases else insert key target aliases

module _ (json : JsonLib) where
  open json use {Json, is_object, is_string, get_string, items}

  -- One pair of the alias object; `val.is_string()` guards the conversion.
  unfoldable pub add_alias : Dict String String → String × Json → Dict String String
  unfolding add_target
  add_alias aliases (key, val) =
      if is_string val then add_target aliases key (get_string val) else aliases

  unfoldable pub add_aliases : Dict String String → List (String × Json) → Dict String String
  add_aliases aliases [] = aliases
  add_aliases aliases (item ∷ rest) = add_aliases (add_alias aliases item) rest

  unfoldable pub load_aliases : ToolRouter → Json → ToolRouter
  load_aliases r j =
      if is_object j
      then record r { aliases = add_aliases [] (items j) }
      else record r { aliases = [] }
