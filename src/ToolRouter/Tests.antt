-- ===== src/ToolRouter/Tests.antt =====
-- The router and the registry at concrete inputs.
use claw.Base.{length, String, ◌≡◌, refl, true, [], ◌∷◌, string_eq}
use claw.Base.Int.{pos}
use claw.ToolRouter.Defs.{ToolRouter, CapabilitySource, skill, cli}
use claw.ToolRouter.Registry.{Registry, Capability, SideEffect, reversible}
use claw.ToolRouter.Queries.{default_contract, query_by_side_effect}

abbrev small_router : ToolRouter
small_router = record { aliases = ("a", "b") ∷ []; overlaps = ("c", "d") ∷ ("a", "e") ∷ [] }

abbrev capability : String → CapabilitySource → Capability
capability name source = record {
  name = name;
  description = "";
  category = "info";
  source = source;
  contract = record {
    side_effect = SideEffect.unknown;
    max_retries = pos 0;
    retry_delay_ms = pos 1000;
    idempotent = true;
    required_permissions = [];
    estimated_duration_ms = pos 5000;
    execution_env = "";
  };
}

abbrev two_tools : Registry
two_tools = ("a", capability "a" cli) ∷ ("b", capability "b" skill) ∷ []

abbrev volume : Capability
volume = record {
  name = "control_volume";
  description = "";
  category = "audio";
  source = skill;
  contract = record default_contract { side_effect = reversible };
}

abbrev volume_tools : Registry
volume_tools = ("control_volume", volume) ∷ ("mute", record volume { name = "mute" }) ∷ []

two_reversible : length (query_by_side_effect volume_tools reversible) ≡ 2
unfolding query_by_side_effect
two_reversible = refl
