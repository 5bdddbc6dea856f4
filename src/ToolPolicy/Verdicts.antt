-- ===== src/ToolPolicy/Verdicts.antt =====
-- When CheckPolicy lets a call through, after any history.
use claw.Base.{
  ℕ, suc, String, ◌≡◌, ◌↔◌, false, List, arith, ◌==◌, eq_iff, string_eq, append-ne-empty,
}
use mathlib.Core.Path.{subst₂}
use claw.Base.Int.{ℤ, pos, ◌≤ℤ◌}
use claw.Json.{JsonLib}
use claw.ToolPolicy.Defs.{
  ToolPolicy, ToolPolicyConfig, in_set, hash_call, check_policy, blocked_message, repeat_message,
}
use claw.ToolPolicy.Counts.{Op, run, config-run, recorded, recorded-run, tally}

blocked_message-ne-empty : (skill : String) → (blocked_message skill == "") ≡ false
unfolding blocked_message
blocked_message-ne-empty skill =
    append-ne-empty "Tool '" _ (λ e. ground (arith, eq_iff "Tool '" "", e))

repeat_message-ne-empty :
    (skill : String) (n : ℕ) (limit : ℤ) → (repeat_message skill n limit == "") ≡ false
unfolding repeat_message
repeat_message-ne-empty skill n limit =
    append-ne-empty "Tool '" _ (λ e. ground (arith, eq_iff "Tool '" "", e))

module _ (json : JsonLib) (std_hash : String → ℕ) where
  open json use {Json}

  pub verdict_iff :
      (p : ToolPolicy) (session skill : String) (args : Json)
      → ((check_policy json std_hash p session skill args).1 ≡ "") ↔ (
          (in_set skill p.config.blocked_skills ≡ false)
          × (pos (suc (recorded json std_hash p session (hash_call json std_hash skill args)))
              ≤ℤ p.config.max_repeat_count))
  unfolding check_policy
  verdict_iff p session skill args = ground (
    arith,
    blocked_message-ne-empty skill,
    repeat_message-ne-empty skill
        (suc (recorded json std_hash p session (hash_call json std_hash skill args)))
        p.config.max_repeat_count,
    eq_iff (blocked_message skill) "",
    eq_iff
        (repeat_message skill
          (suc (recorded json std_hash p session (hash_call json std_hash skill args)))
          p.config.max_repeat_count)
        "",
  )

  -- The configuration and the count under which a call passes.
  abbrev pub Allows : ToolPolicyConfig → String → ℕ → Type 0
  Allows config skill count =
      (in_set skill config.blocked_skills ≡ false) × (pos (suc count) ≤ℤ config.max_repeat_count)

  -- After any history of calls, outputs and resets, CheckPolicy lets a call through (it returns the
  -- empty text) exactly when the tool is not blocked and the call, counted with the unblocked calls
  -- of the same hash that the session has made since its last reset, stays within the limit.
  pub check_policy-run :
      (p : ToolPolicy) (ops : List (Op Json)) (session skill : String) (args : Json)
      → let hash = hash_call json std_hash skill args in
        let before = recorded json std_hash p session hash in
        ((check_policy json std_hash (run json std_hash p ops) session skill args).1 ≡ "")
        ↔ Allows p.config skill
            (tally json std_hash p.config.blocked_skills session hash before ops)
  check_policy-run p ops session skill args =
      let q = run json std_hash p ops in
      subst₂ (λ c n. ((check_policy json std_hash q session skill args).1 ≡ "") ↔ Allows c skill n)
        (config-run json std_hash p ops)
        (recorded-run json std_hash p ops session (hash_call json std_hash skill args))
        (verdict_iff q session skill args)
