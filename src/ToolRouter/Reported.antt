-- ===== src/ToolRouter/Reported.antt =====
-- What DetectOverlaps finds: each tool that has a better one in its category.
use claw.Base.{
  ℕ, ◌≤◌, ◌<◌, String, ◌≡◌, ◌⊎◌, Option, some, List, [], ◌∷◌, ◌++◌, All, ltb, string_eq,
  if◌then◌else◌,
}
use claw.Base.Dict.{Dict, insert, entry}
use claw.ToolRouter.Defs.{CapabilitySource, source_priority}
use claw.ToolRouter.Registry.{Registry, Capability, Tools, group_of, group, detect_overlaps}
use claw.ToolRouter.Overlaps.{Holds, rank}

abbrev pub In : {A : Type 0} → A → List A → Type 0
In x [] = ⊥
In x (y ∷ ys) = (x ≡ y) ⊎ In x ys

abbrev tools_of : String → Dict String Tools → Tools
tools_of cat m = entry [] cat m

abbrev added : Dict String Tools → String × Capability → Dict String Tools
added m (name, c) = insert (group_of c) (tools_of (group_of c) m ++ (name, c.source) ∷ []) m

abbrev better : String → CapabilitySource → Option String × ℕ → Option String × ℕ
better tname src (name, prio) =
    if ltb (source_priority src) prio then (some tname, source_priority src) else (name, prio)

-- Below the priority that the search begins with, a tool was found.
abbrev IsFound : Option String × ℕ → Type 0
IsFound best = best.1 < 99 → (name : String) × (best.0 ≡ some name)

-- The tool is redirected to a registered one of its category, of a better source, than which no tool
-- of the category has a better one.
abbrev pub IsReported : Registry → String → Capability → Type 0
IsReported r name c =
    (target : String) × (best : Capability) × Holds r target best
    × (group_of best ≡ group_of c)
    × (rank best.source < rank c.source)
    × All (λ e. group_of e.1 ≡ group_of c → rank best.source ≤ rank e.1.source) r
    × In (name, target) (detect_overlaps r)

module _ (r : Registry) where
  abbrev groups : Dict String Tools
  groups = group r []
