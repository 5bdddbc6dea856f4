-- ===== src/ToolPolicy/Counts.antt =====
-- What the call counters of ToolPolicy hold after any history of its calls.
use claw.Base.{
  ℕ, suc, String, ◌≡◌, refl, ◌∙◌, ap, List, [], ◌∷◌, arith, ◌==◌, eq_iff, string_eq, if◌then◌else◌,
}
use claw.Base.Dict.{insert, entry-insert, entry-erase, entry-nil}
use claw.Json.{JsonLib}
use claw.ToolPolicy.Defs.{
  ToolPolicy, in_set, count_of, calls_of, hash_call, check_policy, check_idle_progress,
  reset_session, reset_idle_tracking,
}

-- The calls that the agent loop makes of the policy.
pub data Op (J : Type 0) : Type 0 where
  call : String → String → J → Op J
  output : String → String → Op J
  reset : String → Op J
  reset_idle : String → Op J

module _ (json : JsonLib) (std_hash : String → ℕ) where
  open json use {Json}

  unfoldable pub apply : ToolPolicy → Op Json → ToolPolicy
  apply p (call session skill args) = (check_policy json std_hash p session skill args).0
  apply p (output session text) = (check_idle_progress p session text).0
  apply p (reset session) = reset_session p session
  apply p (reset_idle session) = reset_idle_tracking p session

  unfoldable pub run : ToolPolicy → List (Op Json) → ToolPolicy
  run p [] = p
  run p (op ∷ ops) = run (apply p op) ops

  -- The count that a session has for one hashed call.
  abbrev pub recorded : ToolPolicy → String → String → ℕ
  recorded p session hash = count_of (calls_of p.call_history session) hash

  -- The same number read off the history: calls that were not blocked, since the last reset.
  abbrev pub tally_step : List String → String → String → ℕ → Op Json → ℕ
  tally_step blocked session hash n (call s skill args) =
      if in_set skill blocked
      then n
      else if s == session
      then (if hash_call json std_hash skill args == hash then suc n else n)
      else n
  tally_step blocked session hash n (reset s) = if s == session then 0 else n
  tally_step blocked session hash n _ = n

  abbrev pub tally : List String → String → String → ℕ → List (Op Json) → ℕ
  tally blocked session hash n [] = n
  tally blocked session hash n (op ∷ ops) =
      tally blocked session hash (tally_step blocked session hash n op) ops

  pub config-apply : (p : ToolPolicy) (op : Op Json) → (apply p op).config ≡ p.config
  unfolding apply check_policy check_idle_progress reset_session reset_idle_tracking
  config-apply p (call session skill args) = ground arith
  config-apply p _ = refl

  pub config-run : (p : ToolPolicy) (ops : List (Op Json)) → (run p ops).config ≡ p.config
  unfolding run
  config-run p [] = refl
  config-run p (op ∷ ops) = config-run (apply p op) ops ∙ config-apply p op

  recorded-apply :
      (p : ToolPolicy) (op : Op Json) (session hash : String)
      → recorded (apply p op) session hash
        ≡ tally_step p.config.blocked_skills session hash (recorded p session hash) op
  unfolding apply check_policy check_idle_progress reset_session reset_idle_tracking
  recorded-apply p (call s skill args) session hash =
      let h = hash_call json std_hash skill args in
      let calls = calls_of p.call_history s in
      let n = suc (count_of calls h) in
      ground (
        arith,
        eq_iff s session,
        eq_iff h hash,
        entry-insert [] s session (insert h n calls) p.call_history,
        entry-insert 0 h hash n calls,
      )
  recorded-apply p (output s text) session hash = refl
  recorded-apply p (reset s) session hash =
      ground (arith, entry-erase [] s session p.call_history, entry-nil {V = ℕ} 0 hash)
  recorded-apply p (reset_idle s) session hash = refl

  recorded-run_from :
      (blocked : List String) (p : ToolPolicy) (ops : List (Op Json)) (session hash : String)
      → p.config.blocked_skills ≡ blocked
      → recorded (run p ops) session hash ≡ tally blocked session hash (recorded p session hash) ops
  unfolding run
  recorded-run_from blocked p [] session hash e = refl
  recorded-run_from blocked p (op ∷ ops) session hash e =
      recorded-run_from blocked (apply p op) ops session hash
        (ap (λ c. c.blocked_skills) (config-apply p op) ∙ e)
      ∙ ap (λ n. tally blocked session hash n ops)
          (recorded-apply p op session hash
            ∙ ap (λ b. tally_step b session hash (recorded p session hash) op) e)

  -- After any history a counter holds what the history says.
  pub recorded-run :
      (p : ToolPolicy) (ops : List (Op Json)) (session hash : String)
      → recorded (run p ops) session hash
        ≡ tally p.config.blocked_skills session hash (recorded p session hash) ops
  recorded-run p ops session hash = recorded-run_from _ p ops session hash refl
