-- ===== src/Workflow/Results.antt =====
-- What a run of a workflow reports.
use claw.Base.{
  String, string_eq, ◌≡◌, ◌⊎◌, inl, inr, refl, sym, ap, subst, ◌∙◌, Bool, true, false, not, some,
  List, [], ◌∷◌, ◌++◌, ◌&&◌, All, arith, append-nil, append_assoc, any, if_cases,
}
use claw.Base.Int.{pos_part}
use claw.Base.Dict.{Dict, lookup, insert}
use claw.Json.{JsonLib}
use claw.Pipeline.Defs.{StepOutcome, succeeded, text_of, try_step, variables_of}
use claw.Workflow.Defs.{
  WorkflowStep, Workflow, Workflows, WorkflowRun, WorkflowRunResult, output_of, parsed, after_step,
  attempt, goes_on, run_steps, run_workflow, run_found, first_run, result_of_run,
}

-- Each step that ran with the text of its outcome.
abbrev pub texts : {J : Type 0} → List (WorkflowStep J) → List StepOutcome → List (String × String)
texts [] outcomes = []
texts (step ∷ steps) [] = []
texts (step ∷ steps) (o ∷ outcomes) = (step.id, text_of o) ∷ texts steps outcomes

texts-none : {J : Type 0} (steps : List (WorkflowStep J)) → texts steps [] ≡ []
texts-none [] = refl
texts-none (step ∷ steps) = refl

-- What the status says of the outcomes: `ended` where the run came to the end of the steps.
abbrev pub Status : Bool → List StepOutcome → String → Type 0
Status true outcomes status =
    ((status ≡ "success") × All (λ o. succeeded o ≡ true) outcomes)
    ⊎ ((status ≡ "partial") × (any (λ o. not (succeeded o)) outcomes ≡ true))
Status false outcomes status = status ≡ "failed"

abbrev all_succeeded : List StepOutcome → Bool
all_succeeded [] = true
all_succeeded (o ∷ outcomes) = succeeded o && all_succeeded outcomes

all_succeeded-cases :
    (outcomes : List StepOutcome)
    → ((all_succeeded outcomes ≡ true) × All (λ o. succeeded o ≡ true) outcomes)
      ⊎ ((all_succeeded outcomes ≡ false) × (any (λ o. not (succeeded o)) outcomes ≡ true))
all_succeeded-cases [] = inl (refl, tt)
all_succeeded-cases (o ∷ outcomes) = elim (all_succeeded-cases outcomes) [
  | inl h ↦ ground (arith, h.0, h.1)
  | inr h ↦ inr (ground (arith, h.0, h.1), ground (arith, h.0, h.1))
]

module _ (json : JsonLib) {W : Type 0}
    (execute_step : WorkflowStep json.Json → Dict String json.Json → W → StepOutcome × W) where
  open json use {Json}

  abbrev tried : WorkflowStep Json → Dict String Json → W → StepOutcome × W
  tried step vars w = try_step (pos_part step.max_retries) (execute_step step vars) w

  -- The outcomes of the steps that ran, in order: each is that of the step, with its retries, on the
  -- variables that the steps before it left. The run goes on where a step succeeds or may be skipped,
  -- and stops at one that fails and may not.
  abbrev pub Ran :
      List (WorkflowStep Json) → Dict String Json → W → List StepOutcome → Bool → Type 0
  Ran [] vars w outcomes ended = (outcomes ≡ []) × (ended ≡ true)
  Ran (step ∷ rest) vars w [] ended = ⊥
  Ran (step ∷ rest) vars w (o ∷ outcomes) ended =
      (o ≡ (tried step vars w).0)
      × ((((succeeded o ≡ true) ⊎ (step.skip_on_failure ≡ true))
            × Ran rest (insert (output_of json step) (parsed json (text_of o)) vars)
                (tried step vars w).1 outcomes ended)
          ⊎ ((succeeded o ≡ false)
              × (step.skip_on_failure ≡ false)
              × (outcomes ≡ [])
              × (ended ≡ false)))

  abbrev pub Reports :
      List (WorkflowStep Json) → Dict String Json → W → WorkflowRunResult Json → Type 0
  Reports steps vars w result =
      (outcomes : List StepOutcome) × (ended : Bool) × Ran steps vars w outcomes ended
      × (result.step_results ≡ texts steps outcomes)
      × Status ended outcomes result.status

  -- What the loop adds to the run that it begins with.
  abbrev Listed : List (WorkflowStep Json) → WorkflowRun Json W → WorkflowRun Json W × Bool → Type 0
  Listed steps r (r', ended) =
      (outcomes : List StepOutcome) × Ran steps r.vars r.world outcomes ended
      × (r'.step_results ≡ r.step_results ++ texts steps outcomes)
      × (r'.all_success ≡ (r.all_success && all_succeeded outcomes))

  Listed-next :
      (step : WorkflowStep Json) (rest : List (WorkflowStep Json)) (r : WorkflowRun Json W)
      (result : WorkflowRun Json W × Bool)
      → goes_on json execute_step step (attempt json execute_step step r).0 ≡ true
      → Listed rest (after_step json execute_step step r (attempt json execute_step step r)) result
      → Listed (step ∷ rest) r result
  Listed-next step rest r (r', ended) e (outcomes, ran, same, all) =
      let o = (attempt json execute_step step r).0 in
      (
        o ∷ outcomes,
        (refl, inl (ground (arith, e), ran)),
        same ∙ append_assoc r.step_results ((step.id, text_of o) ∷ []) (texts rest outcomes),
        ground (arith, all),
      )

  Listed-stop :
      (step : WorkflowStep Json) (rest : List (WorkflowStep Json)) (r : WorkflowRun Json W)
      → goes_on json execute_step step (attempt json execute_step step r).0 ≡ false
      → Listed
          (step ∷ rest)
          r
          (after_step json execute_step step r (attempt json execute_step step r), false)
  Listed-stop step rest r e =
      let o = (attempt json execute_step step r).0 in
      (
        o ∷ [],
        (refl, inr (ground (arith, e), ground (arith, e), refl, refl)),
        ap (λ l. r.step_results ++ ((step.id, text_of o) ∷ l)) (sym (texts-none rest)),
        ground (arith, e),
      )

  run_steps-Listed :
      (steps : List (WorkflowStep Json)) (r : WorkflowRun Json W)
      → Listed steps r (run_steps json execute_step steps r)
  unfolding run_steps
  run_steps-Listed [] r = ([], (refl, refl), sym (append-nil r.step_results), ground arith)
  run_steps-Listed (step ∷ rest) r =
      let o = attempt json execute_step step r in
      if_cases (Listed (step ∷ rest) r) (goes_on json execute_step step o.0)
        (run_steps json execute_step rest (after_step json execute_step step r o))
        (after_step json execute_step step r o, false)
        (λ e.
          Listed-next step rest r
            (run_steps json execute_step rest (after_step json execute_step step r o)) e
            (run_steps-Listed rest (after_step json execute_step step r o)))
        (λ e. Listed-stop step rest r e)

  Status-run :
      (id : String) (r' : WorkflowRun Json W) (ended : Bool) (outcomes : List StepOutcome)
      → r'.all_success ≡ all_succeeded outcomes
      → Status ended outcomes (result_of_run json execute_step id (r', ended)).0.status
  Status-run id r' true outcomes same = elim (all_succeeded-cases outcomes) [
    | inl (e, all) ↦ rw (same ∙ e) (inl (refl, all))
    | inr (e, some_) ↦ rw (same ∙ e) (inr (refl, some_))
  ]
  Status-run id r' false outcomes same = refl

  report :
      (id : String) (steps : List (WorkflowStep Json)) (r : WorkflowRun Json W)
      (end : WorkflowRun Json W × Bool)
      → r.all_success ≡ true
      → r.step_results ≡ []
      → Listed steps r end
      → Reports steps r.vars r.world (result_of_run json execute_step id end).0
  report id steps r (r', ended) well none_ (outcomes, ran, same, all) = (
    outcomes,
    ended,
    ran,
    same ∙ ap (λ l. l ++ texts steps outcomes) none_,
    Status-run id r' ended outcomes (ground (arith, well, all)),
  )

  -- Every run of a workflow in the table ends with a result that lists, in order, each step that ran
  -- with the text of its outcome, that of the step with its retries on the variables so far. A run
  -- goes on behind a step that succeeds or may be skipped, and its status is "failed" where it stops,
  -- at a step that fails and may not be skipped; at the end of the steps it is "success" where all of
  -- them succeeded, and "partial" where one failed.
  pub run_workflow-Reports :
      (workflows : Workflows Json) (workflow : Workflow Json) (id : String) (input : Json) (w : W)
      → lookup id workflows ≡ some workflow
      → Reports workflow.steps
          (variables_of json input)
          w
          (run_workflow json execute_step workflows id input w).0
  unfolding run_workflow
  run_workflow-Reports workflows workflow id input w e =
      subst
        (λ o.
          Reports workflow.steps (variables_of json input) w
            (run_found json execute_step id input w o).0)
        (sym e)
        (report id workflow.steps (first_run json execute_step input w)
          (run_steps json execute_step workflow.steps (first_run json execute_step input w)) refl
          refl (run_steps-Listed workflow.steps (first_run json execute_step input w)))
