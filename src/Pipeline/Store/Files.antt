-- ===== src/Pipeline/Store/Files.antt =====
-- A pipeline is read back from its file.
use claw.Base.{
  String, ◌≡◌, refl, sym, ap, Bool, Bool-cases, inl, inr, true, false, not, ◌&&◌, Option, none,
  some, List, [], ◌∷◌, map, arith, ◌==◌, string_eq, eq_iff, if◌then◌else◌,
}
use claw.Base.Int.{ℤ, pos, ltb_ℤ}
use claw.Json.{JsonLib}
use claw.Json.Standard.{IsStandard, first_of}
use claw.Pipeline.Defs.{PipelineStepType, tool, prompt, condition, PipelineStep, Pipeline}
use claw.Pipeline.Store.{
  args_of, step_type_to_string, string_to_step_type, optional, step_json, pipeline_json, read_step,
  read_steps, load_pipeline_file,
}

string_to_step_type-to_string :
    (t : PipelineStepType) → string_to_step_type (step_type_to_string t) ≡ t
unfolding string_to_step_type step_type_to_string
string_to_step_type-to_string tool = refl
string_to_step_type-to_string prompt = refl
string_to_step_type-to_string condition = refl

module _ (json : JsonLib) where
  open json use {Json, is_null, is_empty, null}

  -- Empty arguments are not written, nor are retries below one.
  abbrev pub kept_step : PipelineStep Json → PipelineStep Json
  kept_step s = record s {
    args = if not (is_null s.args) && not (is_empty s.args) then s.args else null;
    max_retries = if ltb_ℤ (pos 0) s.max_retries then s.max_retries else pos 0;
  }

  -- What a file keeps of a pipeline.
  abbrev pub kept : Pipeline Json → Pipeline Json
  kept p = record p { steps = map kept_step p.steps }

module _ (json : JsonLib) (standard : IsStandard json) where
  open json use {Json, get_string, get_int, get_bool, null}

  first_of-optional :
      (b : Bool) (key k : String) (j : Json) (rest : List (String × Json))
      → first_of (optional json b key j rest) k
        ≡ (if key == k then if b then some j else first_of rest k else first_of rest k)
  unfolding optional
  first_of-optional true key k j rest = refl
  first_of-optional false key k j rest = ground arith

  text_kept :
      (t : String)
      → (elim (if not (t == "") then some (json.of_string t) else none) as (λ _. Option String) [
        | none ↦ some ""
        | some v ↦ get_string v
      ])
        ≡ some t
  text_kept t = elim (Bool-cases (t == "")) [
    | inl e ↦ rw e (ap some (sym ((eq_iff t "").0 e)))
    | inr e ↦ rw e (standard.get_string-of_string t)
  ]

  flag_kept :
      (b : Bool)
      → (elim (if b then some (json.of_bool true) else none) as (λ _. Option Bool) [
        | none ↦ some false
        | some v ↦ get_bool v
      ])
        ≡ some b
  flag_kept true = standard.get_bool-of_bool true
  flag_kept false = refl

  count_kept :
      (b : Bool) (n : ℤ)
      → (elim (if b then some (json.of_int n) else none) as (λ _. Option ℤ) [
        | none ↦ some (pos 0)
        | some v ↦ get_int v
      ])
        ≡ some (if b then n else pos 0)
  count_kept true n = standard.get_int-of_int n
  count_kept false n = refl

  args_kept :
      (b : Bool) (j : Json) → args_of json (if b then some j else none) ≡ (if b then j else null)
  args_kept true j = refl
  args_kept false j = refl

  read_step-step_json :
      (s : PipelineStep Json)
      → read_step json "" (λ id. "") (step_json json s) ≡ some (kept_step json s)
  unfolding read_step step_json
  read_step-step_json s =
      simp (standard.is_object-of_items, standard.at-of_items, first_of-optional)
        (simp (
          standard.get_string-of_string, string_to_step_type-to_string, text_kept, flag_kept,
          count_kept, args_kept,
        ))

  read_steps_lem :
      (steps : List (PipelineStep Json))
      → read_steps json (map (step_json json) steps) ≡ some (map (kept_step json) steps)
  read_steps_lem [] = refl
  read_steps_lem (s ∷ steps) = rw (read_step-step_json s, read_steps_lem steps) refl

  pub load_pipeline_file_lem :
      (p : Pipeline Json) → load_pipeline_file json (pipeline_json json p) ≡ some (kept json p)
  unfolding load_pipeline_file pipeline_json
  load_pipeline_file_lem p =
      simp (standard.is_object-of_items, standard.at-of_items)
        (simp (
          standard.get_string-of_string, standard.is_array-of_elements,
          standard.elements-of_elements, read_steps_lem,
        ))
