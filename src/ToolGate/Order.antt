-- ===== src/ToolGate/Order.antt =====
-- Which tool a call runs, and what was checked before it ran.
use claw.Base.{
  ℕ, String, ◌≡◌, ◌↔◌, sym, ap, subst, ◌≢◌, ◌∙◌, true, false, some, arith, eq_iff, string_eq,
}
use claw.Base.Int.{ℤ}
use claw.Json.{JsonLib}
use claw.ToolPolicy.Defs.{check_policy, hash_call}
use claw.ToolPolicy.Verdicts.{Allows, verdict_iff}
use claw.ToolPolicy.Counts.{recorded}
use claw.SafetyGuard.Defs.{Doubles}
use claw.SafetyGuard.Check.{validate, listed}
use claw.SafetyGuard.Rate.{check_action_rate_limit}
use claw.SafetyGuard.Allowed.{IsPermitted, permitted}
use claw.ToolRouter.Defs.{resolve, has_redirect}
use claw.UserProfiles.{session_role}
use claw.ToolGate.{ToolCall, Agent, run_tool}

module _ (json : JsonLib) (doubles : Doubles json) (std_hash : String → ℕ) where
  open json use {Json}

  module _ (a : Agent json doubles std_hash) (session : String) (now : ℤ) (tc : ToolCall Json) where
    -- Every check lets the call through.
    abbrev pub PassesChecks : Type 0
    PassesChecks =
        ((check_policy json std_hash a.policy session tc.name tc.args).1 ≡ "")
        × ((validate json doubles a.guard tc.name tc.args (session_role a.profiles session)).allowed
            ≡ true)
        × ((check_action_rate_limit a.guard tc.name now).1 ≡ false)

    runs :
        PassesChecks
        → (run_tool json doubles std_hash a session now tc).ran ≡ some (resolve a.router tc.name)
    unfolding run_tool
    runs h =
        ground (arith, eq_iff (check_policy json std_hash a.policy session tc.name tc.args).1 "")

    ran_checked :
        (name : String)
        → (run_tool json doubles std_hash a session now tc).ran ≡ some name
        → PassesChecks × (name ≡ resolve a.router tc.name)
    unfolding run_tool
    ran_checked name h =
        let violation = (check_policy json std_hash a.policy session tc.name tc.args).1 in
        ((ground (arith, eq_iff violation ""), ground arith, ground arith), ground arith)

    -- A tool is run exactly when the policy, the safety guard (for the role of the session's user)
    -- and the rate limit all let the call's own name through, and the tool run is then the one that
    -- the router resolves that name to.
    pub run_tool_iff :
        (name : String)
        → ((run_tool json doubles std_hash a session now tc).ran ≡ some name)
          ↔ (PassesChecks × (name ≡ resolve a.router tc.name))
    run_tool_iff name = (ran_checked name, λ h. runs h.0 ∙ ap some (sym h.1))

    unredirected : has_redirect a.router tc.name ≡ false → resolve a.router tc.name ≡ tc.name
    unfolding has_redirect resolve
    unredirected h = ground arith

    -- Where the router does not redirect the name, the tool that runs is the one called, it is not
    -- blocked by the policy, its repetition is within the limit, and the safety guard permits it
    -- with these arguments for the role of the session's user.
    pub run_tool-IsPermitted :
        (name : String)
        → has_redirect a.router tc.name ≡ false
        → (run_tool json doubles std_hash a session now tc).ran ≡ some name
        → (name ≡ tc.name)
          × Allows json std_hash a.policy.config name
              (recorded json std_hash a.policy session (hash_call json std_hash name tc.args))
          × IsPermitted json doubles a.guard name tc.args (session_role a.profiles session)
    run_tool-IsPermitted name direct h =
        let (checks, e) = ran_checked name h in
        let own : name ≡ tc.name = e ∙ unredirected direct in
        (
          own,
          subst
              (λ n.
                Allows json std_hash a.policy.config n
                  (recorded json std_hash a.policy session (hash_call json std_hash n tc.args)))
              (sym own) ((verdict_iff json std_hash a.policy session tc.name tc.args).0 checks.0),
          subst (λ n. IsPermitted json doubles a.guard n tc.args (session_role a.profiles session))
              (sym own)
              (permitted json doubles a.guard tc.name tc.args (session_role a.profiles session)
                checks.1),
        )

    -- Where the router does redirect it, nothing is checked of the tool that runs: a call that
    -- passes its checks runs the tool it is redirected to although that tool is excluded on the
    -- device, so that the safety guard would refuse the very same call under its own name.
    pub run_tool_bypass :
        PassesChecks
        → listed (resolve a.router tc.name) a.guard.device_profile.excluded_tools ≡ true
        → ((run_tool json doubles std_hash a session now tc).ran ≡ some (resolve a.router tc.name))
          × ((validate json doubles a.guard
                (resolve a.router tc.name)
                tc.args
                (session_role a.profiles session)).allowed
              ≢ true)
    run_tool_bypass checks excluded = (
      runs checks,
      λ h.
          let p =
            permitted json doubles a.guard (resolve a.router tc.name) tc.args
              (session_role a.profiles session) h in
          cc (p.on_device),
    )
