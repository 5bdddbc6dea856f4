-- ===== src/OfflineFallback/Defs.antt =====
-- LoadConfig and Match. Texts that are searched are bytes.
use claw.Base.{
  ℕ, ◌+◌, String, Bool, true, false, not, ◌&&◌, ◌||◌, Option, none, some, List, [], ◌∷◌, ◌++◌, map,
  length, any, leb, ◌==◌, string_eq, nat_eq, if◌then◌else◌,
}
use claw.Base.Int.{ℤ, pos, ltb_ℤ}
use claw.Base.Bytes.{Bytes, codes}
use claw.Base.Attempt.{Attempt, done, modify, require, for_each, caught, ◌>>=◌, ◌>>◌}
use claw.Json.{JsonLib, ConfigFile, missing, malformed, holds, value}

pub record FallbackRule (J : Type 0) : Type 0 where
  pub name : String
  pub keywords : List Bytes
  pub tool_name : String
  pub default_args : J
  pub response_template : String
  pub priority : ℤ

pub record FallbackResult (J : Type 0) : Type 0 where
  pub matched : Bool
  pub tool_name : String
  pub args : J
  pub direct_response : String

pub record OfflineFallback (J : Type 0) : Type 0 where
  pub rules : List (FallbackRule J)
  pub config_loaded : Bool

abbrev tolower : ℕ → ℕ
tolower c = if leb 0x41 c && leb c 0x5a then c + 32 else c

abbrev pub normalize : String → Bytes
normalize text = map tolower (codes text)

abbrev pub starts_with : Bytes → Bytes → Bool
starts_with text [] = true
starts_with [] (k ∷ keyword) = false
starts_with (c ∷ text) (k ∷ keyword) = if c == k then starts_with text keyword else false

-- text.find(keyword) != npos
abbrev pub contains_keyword : Bytes → Bytes → Bool
contains_keyword [] keyword = starts_with [] keyword
contains_keyword (c ∷ text) keyword =
    if starts_with (c ∷ text) keyword then true else contains_keyword text keyword

abbrev pub applies : {J : Type 0} → Bytes → FallbackRule J → Bool
applies normalized rule = any (λ kw. contains_keyword normalized kw) rule.keywords

-- The comparator that std::sort is given: the higher priority comes first.
abbrev pub comes_first : {J : Type 0} → FallbackRule J → FallbackRule J → Bool
comes_first a b = ltb_ℤ b.priority a.priority

module _ (json : JsonLib) where
  open json use {
    Json, at, is_array, elements, get_string, get_int, null, of_items, of_string, of_bool, of_int,
    of_elements,
  }

  -- std::sort with a comparator; where neither of two rules comes first, their order is left open.
  abbrev pub Sorter : Type 0
  Sorter =
      (FallbackRule Json → FallbackRule Json → Bool)
      → List (FallbackRule Json)
      → List (FallbackRule Json)

  abbrev pub Loader : Type 0
  Loader = Attempt (OfflineFallback Json) (Unit {0})

  abbrev pub any_json : Json → Option Json
  any_json j = some j

  -- Entries that are no strings are passed over.
  abbrev string_keywords : List Json → List Bytes
  string_keywords [] = []
  string_keywords (kw ∷ rest) = elim (get_string kw) [
    | none ↦ string_keywords rest
    | some text ↦ normalize text ∷ string_keywords rest
  ]

  abbrev pub keywords_of : Json → List Bytes
  keywords_of rule_j = elim (at rule_j "keywords") [
    | none ↦ []
    | some v ↦ if is_array v then string_keywords (elements v) else []
  ]

  abbrev pub is_empty_list : List Bytes → Bool
  is_empty_list [] = true
  is_empty_list (kw ∷ rest) = false

  abbrev pub is_usable : FallbackRule Json → Bool
  is_usable rule =
      not (is_empty_list rule.keywords)
      && (not (rule.tool_name == "") || not (rule.response_template == ""))

  unfoldable pub push_fallback_rule : FallbackRule Json → Loader
  push_fallback_rule rule =
      if is_usable rule then modify (λ f. record f { rules = f.rules ++ (rule ∷ []) }) else done

  unfoldable pub load_fallback_rule : Json → Loader
  unfolding push_fallback_rule
  load_fallback_rule rule_j = do
    name ← require (value json get_string rule_j "name" "")
    tool ← require (value json get_string rule_j "tool" "")
    response ← require (value json get_string rule_j "response" "")
    priority ← require (value json get_int rule_j "priority" (pos 0))
    args ← require (value json any_json rule_j "args" (of_items []))
    push_fallback_rule (record {
      name = name;
      keywords = keywords_of rule_j;
      tool_name = tool;
      default_args = args;
      response_template = response;
      priority = priority;
    })

  abbrev pub rules_array : Json → Option Json
  rules_array j = elim (at j "rules") [ none ↦ none | some v ↦ if is_array v then some v else none ]

  unfoldable pub load_list : Json → Loader
  unfolding load_fallback_rule
  load_list v = modify (λ f. record f { rules = [] }) >> for_each (elements v) load_fallback_rule

  unfoldable pub load_config :
      Sorter → OfflineFallback Json → ConfigFile Json → OfflineFallback Json × Bool
  unfolding load_list
  load_config sort f missing = (f, false)
  load_config sort f malformed = (f, false)
  load_config sort f (holds j) = elim (rules_array j) [
    | none ↦ (f, false)
    | some v ↦ caught (
        (load_list v
            >> modify (λ g. record g { rules = sort comes_first g.rules; config_loaded = true }))
          f)
  ]

  abbrev pub no_result : FallbackResult Json
  no_result = record { matched = false; tool_name = ""; args = null; direct_response = "" }

  abbrev pub result_of : FallbackRule Json → FallbackResult Json
  result_of rule = record {
    matched = true;
    tool_name = rule.tool_name;
    args = rule.default_args;
    direct_response = rule.response_template;
  }

  abbrev pub first_match : List (FallbackRule Json) → Bytes → FallbackResult Json
  first_match [] normalized = no_result
  first_match (rule ∷ rest) normalized =
      if applies normalized rule then result_of rule else first_match rest normalized

  unfoldable pub match_prompt : OfflineFallback Json → String → FallbackResult Json
  match_prompt f prompt = first_match f.rules (normalize prompt)

  unfoldable pub get_status_json : OfflineFallback Json → Json
  get_status_json f = of_items (
      ("config_loaded", of_bool f.config_loaded)
      ∷ ("rule_count", of_int (pos (length f.rules)))
      ∷ ("rules", of_elements (map (λ (r : FallbackRule Json). of_string r.name) f.rules))
      ∷ [])
