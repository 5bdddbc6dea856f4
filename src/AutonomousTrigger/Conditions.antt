-- ===== src/AutonomousTrigger/Conditions.antt =====
-- What a condition of a rule asks of the data of an event.
use claw.Base.{
  String, ◌≡◌, ◌↔◌, refl, Bool, Bool-cases, true, false, not, subst, ap, Option-cases, ◌&&◌, ◌⊎◌,
  eq_iff, inl, inr, Option, none, some, List, [], ◌∷◌, arith, All, string_eq, if◌then◌else◌,
}
use claw.Json.{JsonLib}
use claw.SafetyGuard.Defs.{Doubles}
use claw.EventBus.Defs.{SystemEvent}
use claw.AutonomousTrigger.Defs.{EventRule, refuted, holds_op, holds_ops, eval_keys, match_rule}

module _ (json : JsonLib) (doubles : Doubles json) where
  open json use {Json, is_object, is_empty, items, equal, at}
  open doubles use {Double, is_number, get_double, lt}

  -- Where both values are numbers, they stand in the relation.
  abbrev pub Compared : Json → Json → (Double → Double → Type 0) → Type 0
  Compared val expected R =
      is_number val ≡ true
      → is_number expected ≡ true
      → (a b : Double) → get_double val ≡ some a
      → get_double expected ≡ some b
      → R a b

  -- What each operator asks of a value; another one asks for nothing.
  abbrev pub Meets : Json → String → Json → Type 0
  Meets val op expected =
      (op ≡ "$eq" → equal val expected ≡ true)
      × (op ≡ "$lt" → Compared val expected (λ a b. lt a b ≡ true))
      × (op ≡ "$gt" → Compared val expected (λ a b. lt b a ≡ true))
      × (op ≡ "$lte" → Compared val expected (λ a b. lt b a ≡ false))
      × (op ≡ "$gte" → Compared val expected (λ a b. lt a b ≡ false))

  -- A key of the condition is in the data, and its value meets all operators, or equals what is
  -- given where that is no object.
  abbrev pub Passes : Option Json → Json → Type 0
  Passes none ops = ⊥
  Passes (some val) ops =
      if is_object ops then All (λ o. Meets val o.0 o.1) (items ops) else (equal val ops ≡ true)

  not-refuted :
      (bad : Double → Double → Bool) (val expected : Json)
      → not (refuted json doubles bad val expected) ≡ true
      → Compared val expected (λ a b. bad a b ≡ false)
  not-refuted bad val expected h v e a b x y = ground arith

  refuted-Compared :
      (bad : Double → Double → Bool) (val expected : Json)
      → Compared val expected (λ a b. bad a b ≡ false)
      → not (refuted json doubles bad val expected) ≡ true
  refuted-Compared bad val expected h = elim (Option-cases (get_double val)) [
    | inl missing ↦ ground arith
    | inr (a, ha) ↦ elim (Option-cases (get_double expected)) [
      | inl missing ↦ ground arith
      | inr (b, hb) ↦
          let fits =
            λ (v : is_number val ≡ true) (e : is_number expected ≡ true). h v e a b ha hb in
          ground (arith, ha, hb, fits)
    ]
  ]

  holds_op-Meets :
      (val : Json) (op : String) (expected : Json)
      → holds_op json doubles val op expected ≡ true
      → Meets val op expected
  unfolding holds_op
  holds_op-Meets val op expected h =
      let at_op =
        λ (o : String) (e : op ≡ o). subst (λ o. holds_op json doubles val o expected ≡ true) e h in
      (
        λ e. at_op "$eq" e,
        λ e v x a b ha hb.
            ground
              (arith, not-refuted (λ a b. not (lt a b)) val expected (at_op "$lt" e) v x a b ha hb),
        λ e v x a b ha hb.
            ground
              (arith, not-refuted (λ a b. not (lt b a)) val expected (at_op "$gt" e) v x a b ha hb),
        λ e. not-refuted (λ a b. lt b a) val expected (at_op "$lte" e),
        λ e. not-refuted (λ a b. lt a b) val expected (at_op "$gte" e),
      )

  Meets-holds_op :
      (val : Json) (op : String) (expected : Json)
      → Meets val op expected
      → holds_op json doubles val op expected ≡ true
  unfolding holds_op
  Meets-holds_op val op expected (on_eq, on_lt, on_gt, on_lte, on_gte) = ground (
    arith,
    on_eq,
    eq_iff op "$eq",
    eq_iff op "$lt",
    eq_iff op "$gt",
    eq_iff op "$lte",
    eq_iff op "$gte",
    λ (e : op ≡ "$lt").
        refuted-Compared (λ a b. not (lt a b)) val expected
          (λ v x a b ha hb. ap not (on_lt e v x a b ha hb)),
    λ (e : op ≡ "$gt").
        refuted-Compared (λ a b. not (lt b a)) val expected
          (λ v x a b ha hb. ap not (on_gt e v x a b ha hb)),
    λ (e : op ≡ "$lte"). refuted-Compared (λ a b. lt b a) val expected (on_lte e),
    λ (e : op ≡ "$gte"). refuted-Compared (λ a b. lt a b) val expected (on_gte e),
  )

  holds_ops_iff :
      (val : Json) (ops : List (String × Json))
      → (holds_ops json doubles val ops ≡ true) ↔ All (λ o. Meets val o.0 o.1) ops
  unfolding holds_ops
  holds_ops_iff val [] = (λ h. tt, λ h. refl)
  holds_ops_iff val ((op, expected) ∷ rest) = (
    λ h. (holds_op-Meets val op expected (ground arith), (holds_ops_iff val rest).0 (ground arith)),
    λ h. rw (Meets-holds_op val op expected h.0) ((holds_ops_iff val rest).1 h.1),
  )

  abbrev passes_key : Option Json → Json → Bool
  passes_key none ops = false
  passes_key (some val) ops =
      if is_object ops then holds_ops json doubles val (items ops) else equal val ops

  passes_key_iff :
      (found : Option Json) (ops : Json) → (passes_key found ops ≡ true) ↔ Passes found ops
  passes_key_iff none ops = (λ h. ground (arith, h), λ h. elim h [ ])
  passes_key_iff (some val) ops = elim (Bool-cases (is_object ops)) [
    | inl object ↦ rw object (holds_ops_iff val (items ops))
    | inr scalar ↦ rw scalar (λ h. h, λ h. h)
  ]

  eval_keys-cons :
      (key : String) (ops : Json) (rest : List (String × Json)) (payload : Json)
      → eval_keys json doubles ((key, ops) ∷ rest) payload
        ≡ passes_key (at payload key) ops && eval_keys json doubles rest payload
  unfolding eval_keys
  eval_keys-cons key ops rest payload = ground arith

  both_iff :
      {P Q : Type 0} (a b : Bool)
      → ((a ≡ true) ↔ P)
      → ((b ≡ true) ↔ Q)
      → ((a && b) ≡ true) ↔ (P × Q)
  both_iff a b f g = (
    λ h. (f.0 (ground (arith, h)), g.0 (ground (arith, h))),
    λ h. let x = f.1 h.0 in let y = g.1 h.1 in ground (arith, x, y),
  )

  eval_keys_iff :
      (keys : List (String × Json)) (payload : Json)
      → (eval_keys json doubles keys payload ≡ true) ↔ All (λ k. Passes (at payload k.0) k.1) keys
  unfolding eval_keys
  eval_keys_iff [] payload = (λ h. tt, λ h. refl)
  eval_keys_iff ((key, ops) ∷ rest) payload = rw (eval_keys-cons key ops rest payload) (
      both_iff (passes_key (at payload key) ops) (eval_keys json doubles rest payload)
        (passes_key_iff (at payload key) ops) (eval_keys_iff rest payload))

  -- MatchRule accepts an event exactly when it has the name that the rule is about and, where the
  -- condition of the rule is not empty, every key of the condition is in the data of the event with a
  -- value that meets each operator given, or that equals what is given where that is no object: for
  -- $eq it equals the operand, and for $lt, $gt, $lte and $gte, where the value and the operand are
  -- both numbers and read as a and b, a < b, b < a, not b < a and not a < b.
  pub match_rule_iff :
      (rule : EventRule Json) (event : SystemEvent Json)
      → (match_rule json doubles rule event ≡ true) ↔ (
          (event.name ≡ rule.event_type)
          × ((is_empty rule.condition ≡ true)
              ⊎ All (λ k. Passes (at event.payload k.0) k.1) (items rule.condition)))
  unfolding match_rule
  match_rule_iff rule event =
      ground (
        arith,
        eq_iff event.name rule.event_type,
        eval_keys_iff (items rule.condition) event.payload,
      )
