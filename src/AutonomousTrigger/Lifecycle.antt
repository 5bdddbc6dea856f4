-- ===== src/AutonomousTrigger/Lifecycle.antt =====
-- Start and Stop of AutonomousTrigger (core/autonomous_trigger.cc), on the event bus.
use claw.Base.{
  ℕ, ◌<◌, ◌≡◌, refl, subst, sym, ◌∙◌, ap, true, false, not, ◌||◌, none, some, List, [], ◌∷◌, ◌++◌,
  arith, All, keep_if, nat_eq, ◌==◌, if◌then◌else◌,
}
use claw.EventBus.Defs.{EventBus, Subscription, custom, subscribe_all, unsubscribe}
use claw.AutonomousTrigger.Defs.{Trigger}

module _ {C : Type 0} where
  keep_others :
      (id : ℕ) (subs : List (Subscription C)) (s : Subscription C)
      → s.id ≡ id
      → All (λ t. t.id < id) subs
      → keep_if (λ t. not (t.id == id)) (subs ++ (s ∷ [])) ≡ subs
  keep_others id [] s same below = ground (arith, same)
  keep_others id (t ∷ subs) s same below =
      ground (arith, keep_others id subs s same below.1, below.0)

module _ {J C : Type 0} where
  unfoldable pub start : C → EventBus J C × Trigger J → EventBus J C × Trigger J
  start callback (bus, t) =
      if t.started || not t.enabled
      then (bus, t)
      else (let (bus', id) = subscribe_all bus callback in
          (bus', record t { subscription_id = some id; started = true }))

  unfoldable pub stop : EventBus J C × Trigger J → EventBus J C × Trigger J
  stop (bus, t) = if not t.started then (bus, t) else (elim t.subscription_id [
    | none ↦ (bus, record t { started = false })
    | some id ↦ (unsubscribe bus id, record t { subscription_id = none; started = false })
  ])

  start-idle :
      (callback : C) (bus : EventBus J C) (t : Trigger J)
      → t.enabled ≡ true
      → t.started ≡ false
      → start callback (bus, t) ≡ (
        (subscribe_all bus callback).0,
        record t { subscription_id = some bus.next_sub_id; started = true },
      )
  unfolding start subscribe_all
  start-idle callback bus t enabled idle = simp (idle, enabled) refl

  -- On a bus whose identifiers are below the next one, a trigger that is enabled and not started
  -- subscribes once to all events, also if it is started twice, and stopping it then leaves the
  -- subscribers of the bus and the trigger as they were.
  pub stop-start :
      (callback : C) (bus : EventBus J C) (t : Trigger J)
      → All (λ s. s.id < bus.next_sub_id) bus.subscribers
      → t.enabled ≡ true
      → t.started ≡ false
      → t.subscription_id ≡ none
      → let once = start callback (bus, t) in
        (start callback once ≡ once)
        × (once.0.subscribers
            ≡ bus.subscribers
              ++ (record {
                id = bus.next_sub_id;
                type = custom;
                match_all = true;
                callback = callback;
              }
                  ∷ []))
        × ((stop once).0.subscribers ≡ bus.subscribers)
        × ((stop once).1 ≡ t)
  unfolding start stop subscribe_all unsubscribe
  stop-start callback bus t below enabled idle unsubscribed =
      subst
        (λ once.
          (start callback once ≡ once)
          × (once.0.subscribers
              ≡ bus.subscribers
                ++ (record {
                  id = bus.next_sub_id;
                  type = custom;
                  match_all = true;
                  callback = callback;
                }
                    ∷ []))
          × ((stop once).0.subscribers ≡ bus.subscribers)
          × ((stop once).1 ≡ t))
        (sym (start-idle callback bus t enabled idle))
        (
          refl,
          refl,
          keep_others bus.next_sub_id bus.subscribers _ refl below,
          ap (λ o. record t { subscription_id = o; started = false }) (sym unsubscribed)
              ∙ ap (λ b. record t { started = b }) (sym idle),
        )
