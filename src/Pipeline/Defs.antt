-- ===== src/Pipeline/Defs.antt =====
-- Pipelines and RunPipeline. What ExecuteStep does with a step and the variables, and how
-- EvalCondition reads a condition, are arguments: `execute_step` acts on a state of its own and may
-- throw. The time a run takes is left out.
use claw.Base.{
  ℕ, zero, suc, String, ◌⧺◌, Bool, true, false, not, ◌&&◌, Option, none, some, List, [], ◌∷◌, ◌++◌,
  length, get_elem?, leb, ◌==◌, string_eq, if◌then◌else◌,
}
use claw.Base.Int.{ℤ, pos_part}
use claw.Base.Dict.{Dict, lookup, insert}
use claw.Json.{JsonLib}

pub data PipelineStepType : Type 0 where
  tool prompt condition : PipelineStepType

pub record PipelineStep (J : Type 0) : Type 0 where
  pub id : String
  pub type : PipelineStepType
  pub tool_name : String
  pub args : J
  pub prompt_text : String
  pub condition_text : String
  pub then_step : String
  pub else_step : String
  pub skip_on_failure : Bool
  pub max_retries : ℤ
  pub output_var : String

pub record Pipeline (J : Type 0) : Type 0 where
  pub id : String
  pub name : String
  pub description : String
  pub steps : List (PipelineStep J)
  pub trigger : String

pub record PipelineRunResult (J : Type 0) : Type 0 where
  pub pipeline_id : String
  pub status : String
  pub variables : Dict String J
  pub step_results : List (String × String)

-- ExecuteStep returns, or throws an exception with a text.
pub data StepOutcome : Type 0 where
  returned : String → StepOutcome
  threw : String → StepOutcome

abbrev pub is_condition : PipelineStepType → Bool
is_condition condition = true
is_condition _ = false

module _ {J : Type 0} where
  unfoldable pub find_step : String → List (PipelineStep J) → Option ℕ
  find_step target [] = none
  find_step target (s ∷ rest) =
      let later = find_step target rest in
      if s.id == target then some 0 else elim later [ none ↦ none | some i ↦ some (suc i) ]

  abbrev pub out_var : PipelineStep J → String
  out_var step = if step.output_var == "" then step.id else step.output_var

  -- Where a condition step goes on: its target, if that is named and found.
  abbrev pub jump : List (PipelineStep J) → PipelineStep J → Bool → Option ℕ
  jump steps step holds =
      let target = if holds then step.then_step else step.else_step in
      if target == "" then none else find_step target steps

module _ {W : Type 0} where
  -- The do-while loop around ExecuteStep, with this many retries left.
  unfoldable pub try_step : ℕ → (W → StepOutcome × W) → W → StepOutcome × W
  try_step zero once w = once w
  try_step (suc n) once w =
      let (outcome, w') = once w in
      elim outcome [ returned r ↦ (returned r, w') | threw e ↦ try_step n once w' ]

abbrev pub text_of : StepOutcome → String
text_of (returned r) = r
text_of (threw e) = "Error: " ⧺ e

abbrev pub succeeded : StepOutcome → Bool
succeeded (returned r) = true
succeeded (threw e) = false

-- What RunPipeline keeps while it runs, with the state that ExecuteStep acts on.
pub record Run (J W : Type 0) : Type 0 where
  pub vars : Dict String J
  pub step_idx : ℕ
  pub all_success : Bool
  pub step_results : List (String × String)
  pub world : W

module _ (json : JsonLib) where
  open json use {Json, parse, of_string, of_bool, is_object, items}

  abbrev parsed : String → Json
  parsed result = elim (parse result) [ none ↦ of_string result | some j ↦ j ]

  -- Later keys of the input count.
  abbrev pub set_all : List (String × Json) → Dict String Json → Dict String Json
  set_all [] m = m
  set_all ((key, val) ∷ rest) m = set_all rest (insert key val m)

  abbrev pub variables_of : Json → Dict String Json
  variables_of input_vars = if is_object input_vars then set_all (items input_vars) [] else []

  module _ {W : Type 0} (execute_step : PipelineStep Json → Dict String Json → W → StepOutcome × W)
      (eval_condition : String → Dict String Json → Bool) where
    unfoldable pub take_branch :
        List (PipelineStep Json) → PipelineStep Json → Run Json W → Run Json W
    take_branch steps step r =
        let holds = eval_condition step.condition_text r.vars in
        let next = jump steps step holds in
        record r {
          vars = insert (out_var step) (of_bool holds) r.vars;
          step_idx = elim next [ none ↦ suc r.step_idx | some i ↦ i ];
        }

    -- A tool or prompt step: the run after it, and whether the loop goes on.
    unfoldable pub perform : PipelineStep Json → Run Json W → Run Json W × Bool
    perform step r =
        let (outcome, w) =
          try_step (pos_part step.max_retries) (execute_step step r.vars) r.world in
        let r' = record r {
          vars = insert (out_var step) (parsed (text_of outcome)) r.vars;
          step_results = r.step_results ++ ((step.id, text_of outcome) ∷ []);
          world = w;
        } in
        if succeeded outcome
        then (record r' { step_idx = suc r.step_idx }, true)
        else if not step.skip_on_failure
        then (record r' { all_success = false }, false)
        else (record r' { all_success = false; step_idx = suc r.step_idx }, true)

    -- One turn of the loop at a step.
    unfoldable pub turn :
        List (PipelineStep Json) → PipelineStep Json → Run Json W → Run Json W × Bool
    turn steps step r =
        if is_condition step.type then (take_branch steps step r, true) else perform step r

    -- The loop on fuel: `none` if it is used up.
    unfoldable pub loop : ℕ → List (PipelineStep Json) → Run Json W → Option (Run Json W)
    loop zero steps r = none
    loop (suc fuel) steps r = elim (get_elem? steps r.step_idx) [
      | none ↦ some r
      | some step ↦
          (let (r', goes_on) = turn steps step r in
            elim goes_on [ true ↦ loop fuel steps r' | false ↦ some r' ])
    ]

    abbrev pub status_of : List (PipelineStep Json) → Run Json W → String
    status_of steps r =
        if r.all_success && leb (length steps) r.step_idx
        then "success"
        else if leb (length steps) r.step_idx
        then "partial"
        else "failed"

    abbrev result_of : Pipeline Json → Run Json W → PipelineRunResult Json
    result_of p r = record {
      pipeline_id = p.id;
      status = status_of p.steps r;
      variables = r.vars;
      step_results = r.step_results;
    }

    abbrev pub first_run : Json → W → Run Json W
    first_run input_vars w = record {
      vars = variables_of input_vars;
      step_idx = 0;
      all_success = true;
      step_results = [];
      world = w;
    }

    -- The pipelines are stored under their ids. The cleanup of the session is left out.
    unfoldable pub run_pipeline :
        ℕ → Dict String (Pipeline Json) → String → Json → W → Option (PipelineRunResult Json)
    run_pipeline fuel pipelines pipeline_id input_vars w = elim (lookup pipeline_id pipelines) [
      | none ↦ some (record {
        pipeline_id = pipeline_id;
        status = "failed";
        variables = [];
        step_results = [];
      })
      | some p ↦ elim (loop fuel p.steps (first_run input_vars w)) [
        | none ↦ none
        | some r ↦ some (record (result_of p r) { pipeline_id = pipeline_id })
      ]
    ]
