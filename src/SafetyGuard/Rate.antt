-- ===== src/SafetyGuard/Rate.antt =====
-- CheckActionRateLimit (core/safety_guard.cc). The clock is an argument of each call; it is read before
-- the mutex is locked, so that with several threads the calls need not come in the order of their times.
use claw.Base.{
  String, Bool, true, false, none, some, List, [], ◌∷◌, ◌++◌, length, string_eq, if◌then◌else◌,
}
use claw.Base.Int.{ℤ, pos, ◌-ℤ◌, ltb_ℤ, leb_ℤ}
use claw.Base.Dict.{lookup, insert, entry}
use claw.SafetyGuard.Defs.{ActionRateRule, SafetyGuard}

-- while (!history.empty() && history.front() < cutoff) history.erase(history.begin());
unfoldable pub drop_expired : ℤ → List ℤ → List ℤ
drop_expired cutoff [] = []
drop_expired cutoff (t ∷ ts) = if ltb_ℤ t cutoff then drop_expired cutoff ts else t ∷ ts

-- The history of one tool: true means that the call is limited.
unfoldable pub rate_step : ActionRateRule → List ℤ → ℤ → List ℤ × Bool
rate_step rule history now =
    let live = drop_expired (now -ℤ rule.window_seconds) history in
    if leb_ℤ rule.max_calls (pos (length live)) then (live, true) else (live ++ now ∷ [], false)

module _ {D : Type 0} where
  unfoldable pub check_action_rate_limit : SafetyGuard D → String → ℤ → SafetyGuard D × Bool
  check_action_rate_limit g tool now = elim (lookup tool g.rate_rules) [
    | none ↦ (g, false)
    | some rule ↦
        (let (history, limited) = rate_step rule (entry [] tool g.rate_history) now in
          (record g { rate_history = insert tool history g.rate_history }, limited))
  ]
