-- ===== src/OfflineFallback/Load.antt =====
-- The rules that LoadConfig takes from the array of a file.
use claw.Base.{
  ◌≢◌, ◌↔◌, ◌⊎◌, arith, eq_iff, if_cases, Bool-cases, inl, inr, ◌≡◌, refl, sym, ap, subst, ◌∙◌,
  Bool, true, false, Option, none, some, List, [], ◌∷◌, ◌++◌, append-nil, append_assoc,
  if◌then◌else◌,
}
use claw.Base.Int.{pos}
use claw.Base.Bytes.{Bytes}
use claw.Base.Attempt.{require, for_each, ◌>>=◌, ◌>>◌}
use claw.Json.{JsonLib, value}
use claw.OfflineFallback.Defs.{
  FallbackRule, OfflineFallback, Loader, any_json, keywords_of, is_usable, is_empty_list,
  push_fallback_rule, load_fallback_rule, load_list,
}

module _ (json : JsonLib) where
  open json use {Json, elements, get_string, get_int, of_items}

  -- The members of an entry, with their defaults, are those of the rule.
  pub record IsRead (j : Json) (rule : FallbackRule Json) : Type 0 where
    pub name : value json get_string j "name" "" ≡ some rule.name
    pub tool : value json get_string j "tool" "" ≡ some rule.tool_name
    pub response : value json get_string j "response" "" ≡ some rule.response_template
    pub priority : value json get_int j "priority" (pos 0) ≡ some rule.priority
    pub args : value json (any_json json) j "args" (of_items []) ≡ some rule.default_args
    pub keywords : rule.keywords ≡ keywords_of json j

  -- It has a keyword, and a tool or a response.
  abbrev pub IsUsable : FallbackRule Json → Type 0
  IsUsable rule = (rule.keywords ≢ []) × ((rule.tool_name ≢ "") ⊎ (rule.response_template ≢ ""))

  is_empty_list_iff :
      (keywords : List Bytes) → (is_empty_list json keywords ≡ true) ↔ (keywords ≡ [])
  is_empty_list_iff [] = (λ _. refl, λ _. refl)
  is_empty_list_iff (kw ∷ rest) = (λ e. ground (arith, e), λ e. ground (arith, e))

  is_usable_iff : (rule : FallbackRule Json) → (is_usable json rule ≡ true) ↔ IsUsable rule
  is_usable_iff rule = ground (
    arith,
    is_empty_list_iff rule.keywords,
    eq_iff rule.tool_name "",
    eq_iff rule.response_template "",
  )

  -- The rules that the entries describe, in order, without those that are not usable.
  abbrev pub Written : List Json → List (FallbackRule Json) → Type 0
  Written [] rules = rules ≡ []
  Written (j ∷ entries) rules =
      (rule : FallbackRule Json) × (later : List (FallbackRule Json)) × IsRead j rule
      × Written entries later
      × ((IsUsable rule × (rules ≡ rule ∷ later)) ⊎ ((IsUsable rule → ⊥) × (rules ≡ later)))

  abbrev pushed : FallbackRule Json → List (FallbackRule Json) → List (FallbackRule Json)
  pushed rule rules = if is_usable json rule then rules ++ (rule ∷ []) else rules

  rules-push :
      (rule : FallbackRule Json) (f : OfflineFallback Json)
      → ((push_fallback_rule json rule f).0 ≡ some tt)
        × ((push_fallback_rule json rule f).1.rules ≡ pushed rule f.rules)
  unfolding push_fallback_rule
  rules-push rule f = elim (Bool-cases (is_usable json rule)) [
    | inl e ↦ rw e (refl, refl)
    | inr e ↦ rw e (refl, refl)
  ]

  -- What is left of an entry when it is read.
  abbrev Loaded : Json → OfflineFallback Json → Option (Unit {0}) × OfflineFallback Json → Type 0
  Loaded j f (none, f') = Unit {0}
  Loaded j f (some _, f') =
      (rule : FallbackRule Json) × IsRead j rule × (f'.rules ≡ pushed rule f.rules)

  required :
      {A : Type 0} (j : Json) (o : Option A) (k : A → Loader json) (f : OfflineFallback Json)
      → ((a : A) → o ≡ some a → Loaded j f (k a f))
      → Loaded j f ((require o >>= k) f)
  required j none k f h = tt
  required j (some a) k f h = h a refl

  Loaded-push :
      (j : Json) (rule : FallbackRule Json) (f : OfflineFallback Json)
      (r : Option (Unit {0}) × OfflineFallback Json)
      → IsRead j rule
      → r.1.rules ≡ pushed rule f.rules
      → Loaded j f r
  Loaded-push j rule f (none, f') read same = tt
  Loaded-push j rule f (some _, f') read same = (rule, read, same)

  load_fallback_rule-Loaded :
      (j : Json) (f : OfflineFallback Json) → Loaded j f (load_fallback_rule json j f)
  unfolding load_fallback_rule
  load_fallback_rule-Loaded j f = required j (value json get_string j "name" "") _ f (λ name en.
      required j (value json get_string j "tool" "") _ f (λ tool et.
        required j (value json get_string j "response" "") _ f (λ response er.
          required j (value json get_int j "priority" (pos 0)) _ f (λ priority ep.
            required j (value json (any_json json) j "args" (of_items [])) _ f (λ args ea.
              let rule : FallbackRule Json = record {
                name = name;
                keywords = keywords_of json j;
                tool_name = tool;
                default_args = args;
                response_template = response;
                priority = priority;
              } in
              Loaded-push j rule f (push_fallback_rule json rule f)
                (record {
                  name = en;
                  tool = et;
                  response = er;
                  priority = ep;
                  args = ea;
                  keywords = refl;
                })
                (rules-push rule f).1)))))

  -- What the loop over the entries adds to the rules, if it does not throw.
  abbrev Added :
      List Json → OfflineFallback Json → Option (Unit {0}) × OfflineFallback Json → Type 0
  Added entries f (none, f') = Unit {0}
  Added entries f (some _, f') =
      (rules : List (FallbackRule Json)) × Written entries rules × (f'.rules ≡ f.rules ++ rules)

  append-if :
      (b : Bool) (rule : FallbackRule Json) (rules later : List (FallbackRule Json))
      → (if b then rules ++ (rule ∷ []) else rules) ++ later
        ≡ rules ++ (if b then rule ∷ later else later)
  append-if true rule rules later = append_assoc rules (rule ∷ []) later
  append-if false rule rules later = refl

  IsUsable-cases :
      (rule : FallbackRule Json) (later : List (FallbackRule Json))
      → let rules = if is_usable json rule then rule ∷ later else later in
        (IsUsable rule × (rules ≡ rule ∷ later)) ⊎ ((IsUsable rule → ⊥) × (rules ≡ later))
  IsUsable-cases rule later =
      if_cases
        (λ rules.
          (IsUsable rule × (rules ≡ rule ∷ later)) ⊎ ((IsUsable rule → ⊥) × (rules ≡ later)))
        (is_usable json rule) (rule ∷ later) later (λ e. inl ((is_usable_iff rule).0 e, refl))
        (λ e. inr ((λ u. ground (arith, e, (is_usable_iff rule).1 u)), refl))

  Added-next :
      (j : Json) (entries : List Json) (f f' : OfflineFallback Json) (rule : FallbackRule Json)
      (r : Option (Unit {0}) × OfflineFallback Json)
      → IsRead j rule
      → f'.rules ≡ pushed rule f.rules
      → Added entries f' r
      → Added (j ∷ entries) f r
  Added-next j entries f f' rule (none, f'') read same added = tt
  Added-next j entries f f' rule (some _, f'') read same (later, written, e) = (
    if is_usable json rule then rule ∷ later else later,
    (rule, later, read, written, IsUsable-cases rule later),
    e ∙ ap (λ l. l ++ later) same ∙ append-if (is_usable json rule) rule f.rules later,
  )

  Added-then :
      (j : Json) (entries : List Json) (f : OfflineFallback Json)
      (r : Option (Unit {0}) × OfflineFallback Json)
      → Loaded j f r
      → ((f' : OfflineFallback Json)
          → Added entries f' (for_each entries (load_fallback_rule json) f'))
      → Added (j ∷ entries) f (((λ _. r) >> for_each entries (load_fallback_rule json)) f)
  Added-then j entries f (none, f') loaded more = tt
  Added-then j entries f (some _, f') (rule, read, same) more =
      Added-next j entries f f' rule (for_each entries (load_fallback_rule json) f') read same
        (more f')

  for_each-Added :
      (entries : List Json) (f : OfflineFallback Json)
      → Added entries f (for_each entries (load_fallback_rule json) f)
  for_each-Added [] f = ([], refl, sym (append-nil f.rules))
  for_each-Added (j ∷ entries) f =
      Added-then j entries f (load_fallback_rule json j f) (load_fallback_rule-Loaded j f)
        (for_each-Added entries)

  -- A list that is loaded leaves the rules that its entries describe.
  pub load_list-Written :
      (v : Json) (f f' : OfflineFallback Json)
      → load_list json v f ≡ (some tt, f')
      → Written (elements v) f'.rules
  unfolding load_list
  load_list-Written v f f' e =
      let (rules, written, same) =
        subst (Added (elements v) (record f { rules = [] })) e
          (for_each-Added (elements v) (record f { rules = [] })) in
      subst (Written (elements v)) (sym same) written
