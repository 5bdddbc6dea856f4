-- ===== src/AutonomousTrigger/Cooldown.antt =====
-- The cooldown of a rule over a run of events.
use claw.Base.{
  ℕ, String, ◌≡◌, ◌⊎◌, refl, sym, ap, subst, All, ◌∙◌, Bool, true, false, inl, none, some, List, [],
  ◌∷◌, ◌++◌, arith, any, eq_iff, string_eq, ◌==◌,
}
use claw.Base.Int.{sub_ℕ, ltb_ℤ}
use claw.Base.Dict.{lookup, lookup-insert}
use claw.Json.{JsonLib}
use claw.SafetyGuard.Defs.{Doubles}
use claw.EventBus.Defs.{SystemEvent}
use claw.AutonomousTrigger.Defs.{
  EventRule, Trigger, Task, rule_of, cooldown_of, is_cooling_down, record_trigger, check_rate_limit,
  on_rule, on_rules, on_event,
}

abbrev pub fires : {J : Type 0} → String → List (Task J) → Bool
fires n = any (λ task. (rule_of task).name == n)

module _ {J : Type 0} where
  check_rate_limit-keeps :
      (t : Trigger J) (now : ℕ)
      → ((check_rate_limit t now).0.last_trigger ≡ t.last_trigger)
        × ((check_rate_limit t now).0.rules ≡ t.rules)
  unfolding check_rate_limit
  check_rate_limit-keeps t now = ground arith

module _ (json : JsonLib) (doubles : Doubles json) where
  open json use {Json}

  unfoldable pub on_events :
      List (SystemEvent Json × ℕ) → Trigger Json → Trigger Json × List (Task Json)
  on_events [] t = (t, [])
  on_events ((event, now) ∷ rest) t =
      let (t', tasks) = on_event json doubles t event now in
      let (t'', later) = on_events rest t' in (t'', tasks ++ later)

  -- A rule that cools down does not fire, and stays as it is.
  on_rule-quiet :
      (t : Trigger Json) (rule : EventRule Json) (event : SystemEvent Json) (now last : ℕ)
      (n : String)
      → lookup n t.last_trigger ≡ some last
      → ltb_ℤ (sub_ℕ now last) (cooldown_of t.rules n) ≡ true
      → let (t', task) = on_rule json doubles t rule event now in
        (lookup n t'.last_trigger ≡ some last)
        × (t'.rules ≡ t.rules)
        × (elim task [ none ↦ false | some f ↦ (rule_of f).name == n ] ≡ false)
  unfolding on_rule is_cooling_down record_trigger
  on_rule-quiet t rule event now last n found cools = ground (
    arith,
    found,
    cools,
    lookup-insert rule.name n now t.last_trigger,
    eq_iff rule.name n,
    check_rate_limit-keeps (record_trigger t rule.name now) now,
  )

  on_rules-quiet :
      (rules : List (EventRule Json)) (t : Trigger Json) (event : SystemEvent Json) (now last : ℕ)
      (n : String)
      → lookup n t.last_trigger ≡ some last
      → ltb_ℤ (sub_ℕ now last) (cooldown_of t.rules n) ≡ true
      → let (t', tasks) = on_rules json doubles rules t event now in
        (lookup n t'.last_trigger ≡ some last) × (t'.rules ≡ t.rules) × (fires n tasks ≡ false)
  unfolding on_rules
  on_rules-quiet [] t event now last n found cools = (found, refl, refl)
  on_rules-quiet (rule ∷ rest) t event now last n found cools =
      let (found', same, none_fires) = on_rule-quiet t rule event now last n found cools in
      let t' = (on_rule json doubles t rule event now).0 in
      let cools' : ltb_ℤ (sub_ℕ now last) (cooldown_of t'.rules n) ≡ true =
        ap (λ r. ltb_ℤ (sub_ℕ now last) (cooldown_of r n)) same ∙ cools in
      let (found'', same', rest_quiet) = on_rules-quiet rest t' event now last n found' cools' in
      (found'', same' ∙ same, ground (arith, none_fires, rest_quiet))

  fires-append :
      (n : String) (xs ys : List (Task Json))
      → fires n xs ≡ false
      → fires n ys ≡ false
      → fires n (xs ++ ys) ≡ false
  fires-append n [] ys hx hy = hy
  fires-append n (x ∷ xs) ys hx hy = ground (arith, fires-append n xs ys, hx, hy)

  on_events-quiet :
      (later : List (SystemEvent Json × ℕ)) (t : Trigger Json) (last : ℕ) (n : String)
      → lookup n t.last_trigger ≡ some last
      → All (λ e. ltb_ℤ (sub_ℕ e.1 last) (cooldown_of t.rules n) ≡ true) later
      → fires n (on_events later t).1 ≡ false
  unfolding on_events
  on_events-quiet [] t last n found cools = refl
  on_events-quiet ((event, now) ∷ rest) t last n found cools =
      let (found', same, quiet) = on_rules-quiet t.rules t event now last n found cools.0 in
      let t' = (on_event json doubles t event now).0 in
      fires-append n (on_event json doubles t event now).1 (on_events rest t').1 quiet (
        on_events-quiet rest t' last n found' (
          subst (λ r. All (λ e. ltb_ℤ (sub_ℕ e.1 last) (cooldown_of r n) ≡ true) rest) (sym same)
            cools.1))

  on_rule-fired :
      (t : Trigger Json) (rule : EventRule Json) (event : SystemEvent Json) (now : ℕ) (n : String)
      → let (t', task) = on_rule json doubles t rule event now in
        ((elim task [ none ↦ false | some f ↦ (rule_of f).name == n ] ≡ true)
            ⊎ (lookup n t.last_trigger ≡ some now)
          → lookup n t'.last_trigger ≡ some now)
        × (t'.rules ≡ t.rules)
  unfolding on_rule record_trigger
  on_rule-fired t rule event now n = ground (
    arith,
    lookup-insert rule.name n now t.last_trigger,
    eq_iff rule.name n,
    check_rate_limit-keeps (record_trigger t rule.name now) now,
  )

  on_rules-fired :
      (rules : List (EventRule Json)) (t : Trigger Json) (event : SystemEvent Json) (now : ℕ)
      (n : String)
      → let (t', tasks) = on_rules json doubles rules t event now in
        ((fires n tasks ≡ true) ⊎ (lookup n t.last_trigger ≡ some now)
          → lookup n t'.last_trigger ≡ some now)
        × (t'.rules ≡ t.rules)
  unfolding on_rules
  on_rules-fired [] t event now n = (λ h. ground (arith, h), refl)
  on_rules-fired (rule ∷ rest) t event now n =
      let (first, same) = on_rule-fired t rule event now n in
      let t' = (on_rule json doubles t rule event now).0 in
      let (then_, same') = on_rules-fired rest t' event now n in
      (λ h. ground (arith, h, first, then_), same' ∙ same)

  -- After an event at the minute `now` on which a rule of the name n starts a thread, no rule of that
  -- name starts one in any run of later events of which each comes less than the cooldown of that
  -- name after `now`.
  pub on_events-cooldown :
      (t : Trigger Json) (event : SystemEvent Json) (now : ℕ) (later : List (SystemEvent Json × ℕ))
      (n : String)
      → fires n (on_event json doubles t event now).1 ≡ true
      → All (λ e. ltb_ℤ (sub_ℕ e.1 now) (cooldown_of t.rules n) ≡ true) later
      → fires n (on_events later (on_event json doubles t event now).0).1 ≡ false
  on_events-cooldown t event now later n fired soon =
      let (recorded, same) = on_rules-fired t.rules t event now n in
      on_events-quiet later (on_event json doubles t event now).0 now n (recorded (inl fired)) (
        subst (λ r. All (λ e. ltb_ℤ (sub_ℕ e.1 now) (cooldown_of r n) ≡ true) later) (sym same)
          soon)
