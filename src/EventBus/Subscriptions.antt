-- ===== src/EventBus/Subscriptions.antt =====
-- The life of a subscription.
use claw.Base.{
  ℕ, suc, ◌<◌, ◌≡◌, ◌≢◌, refl, ap, ◌∙◌, Bool, true, false, not, List, [], ◌∷◌, ◌++◌, arith, keep_if,
  All, string_eq, nat_eq, ◌==◌, if◌then◌else◌,
}
use claw.EventBus.Defs.{
  EventType, custom, SystemEvent, Subscription, EventBus, subscribe, subscribe_all, unsubscribe,
  same_type, wants, new,
}

pub data Change (C : Type 0) : Type 0 where
  subscribed : EventType → C → Change C
  subscribed_all : C → Change C
  unsubscribed : ℕ → Change C

module _ {J C : Type 0} where
  unfoldable pub run : List (Change C) → EventBus J C → EventBus J C
  run [] bus = bus
  run (subscribed type c ∷ rest) bus = run rest (subscribe bus type c).0
  run (subscribed_all c ∷ rest) bus = run rest (subscribe_all bus c).0
  run (unsubscribed id ∷ rest) bus = run rest (unsubscribe bus id)

module _ {C : Type 0} where
  abbrev pub with_id : ℕ → List (Subscription C) → List (Subscription C)
  with_id id = keep_if (λ s. s.id == id)

  abbrev pub unsubscribes : ℕ → List (Change C) → Bool
  unsubscribes id [] = false
  unsubscribes id (unsubscribed i ∷ rest) = if i == id then true else unsubscribes id rest
  unsubscribes id (_ ∷ rest) = unsubscribes id rest

  with_id-snoc :
      (id : ℕ) (subs : List (Subscription C)) (s : Subscription C)
      → s.id ≢ id
      → with_id id (subs ++ (s ∷ [])) ≡ with_id id subs
  with_id-snoc id [] s other = ground arith
  with_id-snoc id (t ∷ subs) s other = ground (arith, with_id-snoc id subs s other)

  with_id-new :
      (id : ℕ) (subs : List (Subscription C)) (s : Subscription C)
      → s.id ≡ id
      → All (λ t. t.id < id) subs
      → with_id id (subs ++ (s ∷ [])) ≡ s ∷ []
  with_id-new id [] s same below = ground arith
  with_id-new id (t ∷ subs) s same below =
      ground (arith, with_id-new id subs s same below.1, below.0)

  with_id-unsubscribed :
      (id j : ℕ) (subs : List (Subscription C))
      → with_id id (keep_if (λ s. not (s.id == j)) subs) ≡ (if j == id then [] else with_id id subs)
  with_id-unsubscribed id j [] = ground arith
  with_id-unsubscribed id j (s ∷ subs) = ground (arith, with_id-unsubscribed id j subs)

  Below-snoc :
      (n : ℕ) (subs : List (Subscription C)) (s : Subscription C)
      → s.id ≡ n
      → All (λ t. t.id < n) subs
      → All (λ t. t.id < suc n) (subs ++ (s ∷ []))
  Below-snoc n [] s e below = (omega (arith, e), tt)
  Below-snoc n (t ∷ subs) s e below = (omega (arith, below.0), Below-snoc n subs s e below.1)

  Below-keep_if :
      (n : ℕ) (p : Subscription C → Bool) (subs : List (Subscription C))
      → All (λ t. t.id < n) subs
      → All (λ t. t.id < n) (keep_if p subs)
  Below-keep_if n p [] below = tt
  Below-keep_if n p (s ∷ subs) below = ground (arith, below, Below-keep_if n p subs below.1)

  keep_if_comm :
      (p q : Subscription C → Bool) (subs : List (Subscription C))
      → keep_if p (keep_if q subs) ≡ keep_if q (keep_if p subs)
  keep_if_comm p q [] = refl
  keep_if_comm p q (s ∷ subs) = ground (arith, keep_if_comm p q subs)

module _ {J C : Type 0} where
  run-Below :
      (changes : List (Change C)) (bus : EventBus J C)
      → All (λ t. t.id < bus.next_sub_id) bus.subscribers
      → All (λ t. t.id < (run changes bus).next_sub_id) (run changes bus).subscribers
  unfolding run subscribe subscribe_all unsubscribe
  run-Below [] bus below = below
  run-Below (subscribed type c ∷ rest) bus below =
      run-Below rest (subscribe bus type c).0
        (Below-snoc bus.next_sub_id bus.subscribers _ refl below)
  run-Below (subscribed_all c ∷ rest) bus below =
      run-Below rest (subscribe_all bus c).0
        (Below-snoc bus.next_sub_id bus.subscribers _ refl below)
  run-Below (unsubscribed id ∷ rest) bus below =
      run-Below rest (unsubscribe bus id) (Below-keep_if bus.next_sub_id _ bus.subscribers below)

  run-with_id :
      (id : ℕ) (changes : List (Change C)) (bus : EventBus J C)
      → id < bus.next_sub_id
      → with_id id (run changes bus).subscribers
        ≡ (if unsubscribes id changes then [] else with_id id bus.subscribers)
  unfolding run subscribe subscribe_all unsubscribe
  run-with_id id [] bus used = refl
  run-with_id id (subscribed type c ∷ rest) bus used =
      run-with_id id rest (subscribe bus type c).0 (omega (arith, used))
      ∙ ap (λ l. if unsubscribes id rest then [] else l)
          (with_id-snoc id bus.subscribers
            (record { id = bus.next_sub_id; type = type; match_all = false; callback = c })
            (λ e. omega (arith, e, used)))
  run-with_id id (subscribed_all c ∷ rest) bus used =
      run-with_id id rest (subscribe_all bus c).0 (omega (arith, used))
      ∙ ap (λ l. if unsubscribes id rest then [] else l)
          (with_id-snoc id bus.subscribers
            (record { id = bus.next_sub_id; type = custom; match_all = true; callback = c })
            (λ e. omega (arith, e, used)))
  run-with_id id (unsubscribed i ∷ rest) bus used =
      run-with_id id rest (unsubscribe bus i) used
      ∙ ap (λ l. if unsubscribes id rest then [] else l) (with_id-unsubscribed id i bus.subscribers)
      ∙ ground arith

  -- After any changes to a new bus, a subscription to a type gets an identifier that no other one
  -- has or gets: whatever is subscribed and unsubscribed later, among the subscribers that an event
  -- is dispatched to, those with this identifier are the new subscription alone, once, where the
  -- event has its type and the identifier was not unsubscribed, and none otherwise.
  pub dispatched-subscribe :
      (before after : List (Change C)) (type : EventType) (c : C) (event : SystemEvent J)
      → let (bus, id) = subscribe (run {J = J} before new) type c in
        with_id id (keep_if (wants event) (run after bus).subscribers) ≡ (
          if unsubscribes id after
          then []
          else if same_type type event.type
          then record { id = id; type = type; match_all = false; callback = c } ∷ []
          else [])
  unfolding subscribe
  dispatched-subscribe before after type c event =
      let bus = run {J = J} before new in
      let id = bus.next_sub_id in
      keep_if_comm (λ s. s.id == id) (wants event) (run after (subscribe bus type c).0).subscribers
      ∙ ap (keep_if (wants event)) (
          run-with_id id after (subscribe bus type c).0 (omega arith)
          ∙ ap (λ l. if unsubscribes id after then [] else l)
              (with_id-new id bus.subscribers
                (record { id = id; type = type; match_all = false; callback = c }) refl
                (run-Below before new tt)))
      ∙ ground arith
