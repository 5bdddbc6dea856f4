-- ===== src/ToolGate/Tests.antt =====
-- Tool calls at concrete inputs: `fly` is excluded on the oven, and `hover` is an alias of it.
use claw.Base.{String, ◌≡◌, ◌≢◌, ◌↔◌, refl, true, false, none, some, [], ◌∷◌, string_eq}
use claw.Base.Int.{pos}
use claw.TestJson.{Value, null, test_json}
use claw.ToolPolicy.Tests.{fresh, same_hash}
use claw.ToolPolicy.Defs.{check_policy, hash_call}
use claw.ToolPolicy.Verdicts.{Allows}
use claw.ToolPolicy.Counts.{recorded}
use claw.SafetyGuard.Check.{validate}
use claw.SafetyGuard.Allowed.{IsPermitted}
use claw.SafetyGuard.Tests.{test_doubles, oven}
use claw.ToolRouter.Defs.{resolve, has_redirect}
use claw.UserProfiles.{session_role}
use claw.ToolGate.{ToolCall, Agent, Executors, run_tool}
use claw.ToolGate.Order.{PassesChecks, run_tool_iff, run_tool-IsPermitted, run_tool_bypass}

abbrev executors : Executors Value
executors = record {
  tool_dispatch = λ name. none;
  execute_action_op = λ name args. "action";
  is_mcp_tool = λ name. false;
  mcp_execute_tool = λ name args. "mcp";
  execute_skill = λ name args. name;
}

abbrev agent : Agent test_json test_doubles same_hash
agent = record {
  policy = fresh;
  guard = oven;
  router = record { aliases = ("hover", "fly") ∷ []; overlaps = [] };
  profiles = record { profiles = []; session_user_map = [] };
  executors = executors;
}

abbrev hover : ToolCall Value
hover = record { id = "1"; name = "hover"; args = null }

abbrev bake : ToolCall Value
bake = record { id = "2"; name = "bake"; args = null }

run_tool_iff_example :
    ((run_tool test_json test_doubles same_hash agent "s" (pos 0) hover).ran ≡ some "fly") ↔ (
      PassesChecks test_json test_doubles same_hash agent "s" (pos 0) hover
      × ("fly" ≡ resolve agent.router "hover"))
run_tool_iff_example = run_tool_iff test_json test_doubles same_hash agent "s" (pos 0) hover "fly"

hover_passes : PassesChecks test_json test_doubles same_hash agent "s" (pos 0) hover
unfolding check_policy claw.Base.Dict.entry claw.Base.Dict.lookup validate
    claw.UserProfiles.get_profile claw.SafetyGuard.Check.is_excluded_tool
    claw.SafetyGuard.Check.check_bounds claw.SafetyGuard.Rate.check_action_rate_limit
hover_passes = (refl, refl, refl)

hover_resolves : resolve agent.router "hover" ≡ "fly"
unfolding resolve claw.Base.Dict.lookup
hover_resolves = refl

run_tool_bypass_example :
    ((run_tool test_json test_doubles same_hash agent "s" (pos 0) hover).ran
      ≡ some (resolve agent.router "hover"))
    × ((validate test_json test_doubles agent.guard
          (resolve agent.router "hover")
          null
          (session_role agent.profiles "s")).allowed
        ≢ true)
unfolding resolve claw.Base.Dict.lookup
run_tool_bypass_example =
    run_tool_bypass test_json test_doubles same_hash agent "s" (pos 0) hover hover_passes refl

bake_direct : has_redirect agent.router "bake" ≡ false
unfolding has_redirect claw.Base.Dict.lookup
bake_direct = refl

bake_runs : (run_tool test_json test_doubles same_hash agent "s" (pos 0) bake).ran ≡ some "bake"
unfolding run_tool check_policy claw.Base.Dict.entry claw.Base.Dict.lookup validate
    claw.UserProfiles.get_profile claw.SafetyGuard.Check.is_excluded_tool
    claw.SafetyGuard.Check.check_bounds claw.SafetyGuard.Check.numeric_arg
    claw.SafetyGuard.Rate.check_action_rate_limit resolve
bake_runs = refl

run_tool-IsPermitted_example :
    ("bake" ≡ bake.name)
    × Allows test_json same_hash agent.policy.config "bake"
        (recorded test_json same_hash agent.policy "s" (hash_call test_json same_hash "bake" null))
    × IsPermitted test_json test_doubles agent.guard "bake" null (session_role agent.profiles "s")
run_tool-IsPermitted_example =
    run_tool-IsPermitted test_json test_doubles same_hash agent "s" (pos 0) bake "bake" bake_direct
      bake_runs
