-- ===== src/Pipeline/Condition.antt =====
-- EvalCondition of PipelineExecutor, and its Interpolate: the loop is that of the workflow engine, with
-- names that may reach into an object.
use claw.Base.{
  String, Bool, true, false, not, ◌&&◌, Option, none, some, [], ◌∷◌, length, ◌==◌, string_eq,
  if◌then◌else◌,
}
use claw.Base.Bytes.{Bytes, codes, text_of, bytes_eq}
use claw.Base.Find.{find}
use claw.Base.Dict.{Dict, lookup}
use claw.Json.{JsonLib}
use claw.Workflow.Interpolate.{replace_all}

-- text.find(pattern) != npos
abbrev pub contains : Bytes → Bytes → Bool
contains [] text = true
contains (c ∷ pattern) text = elim (find (c ∷ pattern) text) [ none ↦ false | some _ ↦ true ]

-- A text that is no comparison.
abbrev pub is_truthy : Bytes → Bool
is_truthy text =
    not (text == [])
    && not (text == codes "false")
    && not (text == codes "0")
    && not (text == codes "null")

abbrev pub contains_or_truthy : Bytes → Option (Bytes × Bytes) → Bool
contains_or_truthy resolved none = is_truthy resolved
contains_or_truthy resolved (some (left, right)) = contains right left

abbrev pub differ_or : Bytes → Option (Bytes × Bytes) → Bool
differ_or resolved none = contains_or_truthy resolved (find (codes " contains ") resolved)
differ_or resolved (some (left, right)) = not (left == right)

abbrev pub equal_or : Bytes → Option (Bytes × Bytes) → Bool
equal_or resolved none = differ_or resolved (find (codes " != ") resolved)
equal_or resolved (some (left, right)) = left == right

-- The operators in their order: " == " anywhere comes before the others.
unfoldable pub eval_text : Bytes → Bool
eval_text resolved = equal_or resolved (find (codes " == ") resolved)

module _ (json : JsonLib) where
  open json use {Json, is_object, is_string, at, get_string, dump}

  abbrev string_or_dump : Json → Option String → Bytes
  string_or_dump j none = codes (dump j)
  string_or_dump j (some s) = codes s

  abbrev pub text_of_json : Json → Bytes
  text_of_json j = if is_string j then string_or_dump j (get_string j) else codes (dump j)

  abbrev text_or_nothing : Option Json → Bytes
  text_or_nothing none = []
  text_or_nothing (some j) = text_of_json j

  abbrev member_of : Bytes → Option Json → Bytes
  member_of field none = []
  member_of field (some j) = if is_object j then text_or_nothing (at j (text_of field)) else []

  -- step_id.field, or a variable.
  abbrev pub value_at : Dict String Json → Bytes → Option (Bytes × Bytes) → Bytes
  value_at vars var_name none = text_or_nothing (lookup (text_of var_name) vars)
  value_at vars var_name (some (base, field)) = member_of field (lookup (text_of base) vars)

  abbrev pub replacement : Dict String Json → Bytes → Bytes
  replacement vars var_name = value_at vars var_name (find (codes ".") var_name)

  unfoldable pub interpolate_text : Bytes → Dict String Json → Bytes
  interpolate_text tmpl vars = replace_all (replacement vars) (length tmpl) tmpl tmpl

  unfoldable pub eval_condition_text : String → Dict String Json → Bool
  eval_condition_text expr vars = eval_text (interpolate_text (codes expr) vars)
