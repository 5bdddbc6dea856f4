-- ===== src/Workflow/Defs.antt =====
-- Workflows, the table of them, and RunWorkflow. How the Markdown is parsed, and what ExecuteStep does
-- with a step and the variables, are arguments: `execute_step` acts on a state of its own and may
-- throw. The time a run takes is left out.
use claw.Base.{
  String, Bool, true, false, Option, none, some, List, [], ◌∷◌, ◌++◌, map, length, ◌==◌, string_eq,
  if◌then◌else◌,
}
use claw.Base.Int.{ℤ, pos, pos_part}
use claw.Base.Dict.{Dict, lookup, insert, erase}
use claw.Json.{JsonLib}
use claw.Pipeline.Defs.{StepOutcome, try_step, text_of, succeeded, variables_of}

pub data WorkflowStepType : Type 0 where
  prompt tool : WorkflowStepType

abbrev pub step_type_to_string : WorkflowStepType → String
step_type_to_string prompt = "prompt"
step_type_to_string tool = "tool"

abbrev pub string_to_step_type : String → WorkflowStepType
string_to_step_type s = if s == "tool" then tool else prompt

pub record WorkflowStep (J : Type 0) : Type 0 where
  pub id : String
  pub description : String
  pub type : WorkflowStepType
  pub instruction : String
  pub tool_name : String
  pub args : J
  pub output_var : String
  pub skip_on_failure : Bool
  pub max_retries : ℤ

pub record Workflow (J : Type 0) : Type 0 where
  pub id : String
  pub name : String
  pub description : String
  pub trigger : String
  pub steps : List (WorkflowStep J)
  pub raw_markdown : String

pub record WorkflowRunResult (J : Type 0) : Type 0 where
  pub workflow_id : String
  pub status : String
  pub step_results : List (String × String)
  pub variables : Dict String J

abbrev pub Workflows : Type 0 → Type 0
Workflows J = Dict String (Workflow J)

-- What CreateWorkflow does with the workflow that it has parsed: the table, and the identifier, which
-- is empty where the workflow is refused.
unfoldable pub create_workflow :
    {J : Type 0} → Workflows J → Workflow J → String → Workflows J × String
create_workflow workflows wf id = if wf.name == "" then (workflows, "") else elim wf.steps [
  | [] ↦ (workflows, "")
  | s ∷ rest ↦ (insert id (record wf { id = id }) workflows, id)
]

unfoldable pub delete_workflow : {J : Type 0} → Workflows J → String → Workflows J × Bool
delete_workflow workflows id = elim (lookup id workflows) [
  | none ↦ (workflows, false)
  | some wf ↦ (erase id workflows, true)
]

-- What RunWorkflow keeps while it runs, with the state that ExecuteStep acts on.
pub record WorkflowRun (J W : Type 0) : Type 0 where
  pub vars : Dict String J
  pub all_success : Bool
  pub step_results : List (String × String)
  pub world : W

module _ (json : JsonLib) where
  open json use {Json, parse, of_string, of_int, of_items, of_elements}

  unfoldable pub list_workflows : Workflows Json → Json
  list_workflows workflows = of_elements (
      map
        (λ (b : String × Workflow Json). of_items (
          ("id", of_string b.0)
          ∷ ("name", of_string b.1.name)
          ∷ ("description", of_string b.1.description)
          ∷ ("trigger", of_string b.1.trigger)
          ∷ ("steps_count", of_int (pos (length b.1.steps)))
          ∷ []))
        workflows)

  abbrev pub parsed : String → Json
  parsed result = elim (parse result) [ none ↦ of_string result | some j ↦ j ]

  abbrev pub output_of : WorkflowStep Json → String
  output_of step = if step.output_var == "" then step.id else step.output_var

  module _ {W : Type 0}
      (execute_step : WorkflowStep Json → Dict String Json → W → StepOutcome × W) where
    abbrev pub after_step :
        WorkflowStep Json → WorkflowRun Json W → StepOutcome × W → WorkflowRun Json W
    after_step step r (outcome, w) = record r {
      vars = insert (output_of step) (parsed (text_of outcome)) r.vars;
      step_results = r.step_results ++ ((step.id, text_of outcome) ∷ []);
      all_success = if succeeded outcome then r.all_success else false;
      world = w;
    }

    abbrev pub attempt : WorkflowStep Json → WorkflowRun Json W → StepOutcome × W
    attempt step r = try_step (pos_part step.max_retries) (execute_step step r.vars) r.world

    abbrev pub goes_on : WorkflowStep Json → StepOutcome → Bool
    goes_on step outcome = if succeeded outcome then true else step.skip_on_failure

    -- The loop over the steps: the run after it, and whether it came to the end.
    unfoldable pub run_steps :
        List (WorkflowStep Json) → WorkflowRun Json W → WorkflowRun Json W × Bool
    run_steps [] r = (r, true)
    run_steps (step ∷ rest) r =
        let outcome = attempt step r in
        let later = run_steps rest (after_step step r outcome) in
        if goes_on step outcome.0 then later else (after_step step r outcome, false)

    abbrev pub run_status : WorkflowRun Json W × Bool → String
    run_status (r, true) = if r.all_success then "success" else "partial"
    run_status (r, false) = "failed"

    abbrev pub first_run : Json → W → WorkflowRun Json W
    first_run input_vars w = record {
      vars = variables_of json input_vars;
      all_success = true;
      step_results = [];
      world = w;
    }

    abbrev pub result_of_run : String → WorkflowRun Json W × Bool → WorkflowRunResult Json × W
    result_of_run workflow_id (r, ended) = (
      record {
        workflow_id = workflow_id;
        status = run_status (r, ended);
        step_results = r.step_results;
        variables = r.vars;
      },
      r.world,
    )

    abbrev pub run_found : String → Json → W → Option (Workflow Json) → WorkflowRunResult Json × W
    run_found workflow_id input_vars w none = (
      record { workflow_id = workflow_id; status = "failed"; step_results = []; variables = [] },
      w,
    )
    run_found workflow_id input_vars w (some workflow) =
        result_of_run workflow_id (run_steps workflow.steps (first_run input_vars w))

    -- RunWorkflow, with what the steps left of the state; ClearSession follows it.
    unfoldable pub run_workflow : Workflows Json → String → Json → W → WorkflowRunResult Json × W
    run_workflow workflows workflow_id input_vars w =
        run_found workflow_id input_vars w (lookup workflow_id workflows)
