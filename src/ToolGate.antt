-- ===== src/ToolGate.antt =====
-- The path of one tool call in AgentCore::ProcessPrompt (core/agent_core.cc): policy, safety guard,
-- rate limit, routing, dispatch and truncation. The call is one step: what the policy and the guard
-- write they write under their own mutexes, and the rest is only read. Logs, metrics and the memory
-- of past executions are left out.
pub mod Order
pub mod Tests
use Prim.Native.String.{len, slice}
use text.Mathlib.Text.{starts_with}
use claw.Base.{
  ℕ, String, ◌⧺◌, decimal, Bool, true, false, Option, none, some, ltb, ◌||◌, ◌==◌, string_eq,
  if◌then◌else◌, not,
}
use claw.Base.Int.{ℤ}
use claw.Json.{JsonLib}
use claw.ToolPolicy.Defs.{ToolPolicy, check_policy}
use claw.SafetyGuard.Defs.{Doubles, SafetyGuard, UserRole}
use claw.SafetyGuard.Check.{validate}
use claw.SafetyGuard.Rate.{check_action_rate_limit}
use claw.ToolRouter.Defs.{ToolRouter, resolve}
use claw.UserProfiles.{UserProfileStore, session_role}

-- What runs a tool: the dispatch table, the action bridge, the MCP clients and the skill runner.
pub record Executors (J : Type 0) : Type 0 where
  pub tool_dispatch : String → Option (J → String → String → String)
  pub execute_action_op : String → J → String
  pub is_mcp_tool : String → Bool
  pub mcp_execute_tool : String → J → String
  pub execute_skill : String → J → String

pub record ToolCall (J : Type 0) : Type 0 where
  pub id : String
  pub name : String
  pub args : J

pub record ToolExecResult : Type 0 where
  pub id : String
  pub name : String
  pub output : String

abbrev pub max_tool_output_size : ℕ
max_tool_output_size = 4096

abbrev pub error_json : String → String
error_json text = "{\"error\": \"" ⧺ (text ⧺ "\"}")

unfoldable pub truncate : String → String
truncate output =
    if ltb max_tool_output_size (len output)
    then slice output 0 max_tool_output_size
      ⧺ ("\n... (truncated, " ⧺ (decimal (len output) ⧺ " bytes total)"))
    else output

unfoldable pub routed_output : Bool → String → String → String → String
routed_output routed name resolved output =
    if routed
    then (if output == ""
        then output
        else output ⧺ (" [Routed: " ⧺ (name ⧺ (" -> " ⧺ (resolved ⧺ "]")))))
    else output

module _ {J : Type 0} where
  unfoldable pub execute : Executors J → String → J → String → String
  execute ex name args session = elim (ex.tool_dispatch name) [
    | some handler ↦ handler args name session
    | none ↦
        if name == "execute_action" || starts_with name "action_"
        then ex.execute_action_op name args
        else if ex.is_mcp_tool name
        then ex.mcp_execute_tool name args
        else ex.execute_skill name args
  ]

module _ (json : JsonLib) (doubles : Doubles json) (std_hash : String → ℕ) where
  open json use {Json}
  open doubles use {Double}

  -- The parts of AgentCore that a tool call goes through.
  pub record Agent : Type 0 where
    pub policy : ToolPolicy
    pub guard : SafetyGuard Double
    pub router : ToolRouter
    pub profiles : UserProfileStore Json
    pub executors : Executors Json

  -- The agent after the call, the result, and the name of the tool that was run, if one was.
  pub record Outcome : Type 0 where
    pub agent : Agent
    pub result : ToolExecResult
    pub ran : Option String

  refused : Agent → ToolCall Json → String → Outcome
  refused a tc text = record {
    agent = a;
    result = record { id = tc.id; name = tc.name; output = error_json text };
    ran = none;
  }

  run_resolved : Agent → String → ToolCall Json → Outcome
  unfolding execute truncate routed_output
  run_resolved a session tc =
      let resolved = resolve a.router tc.name in
      let output = execute a.executors resolved tc.args session in
      record {
        agent = a;
        result = record {
          id = tc.id;
          name = resolved;
          output = routed_output (not (resolved == tc.name)) tc.name resolved (truncate output);
        };
        ran = some resolved;
      }

  check_rate : Agent → String → ℤ → ToolCall Json → Outcome
  check_rate a session now tc =
      let (guard, limited) = check_action_rate_limit a.guard tc.name now in
      let a' = record a { guard = guard } in
      if limited
      then refused a' tc
          ("Action rate limit exceeded for " ⧺ (tc.name ⧺ ". Please wait before retrying."))
      else run_resolved a' session tc

  check_safety : Agent → String → ℤ → ToolCall Json → Outcome
  check_safety a session now tc =
      let safety =
        validate json doubles a.guard tc.name tc.args (session_role a.profiles session) in
      if safety.allowed then check_rate a session now tc else refused a tc safety.reason

  unfoldable pub run_tool : Agent → String → ℤ → ToolCall Json → Outcome
  unfolding check_safety check_rate run_resolved refused
  run_tool a session now tc =
      let (policy, violation) = check_policy json std_hash a.policy session tc.name tc.args in
      let a' = record a { policy = policy } in
      if violation == "" then check_safety a' session now tc else refused a' tc violation
