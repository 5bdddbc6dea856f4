-- ===== src/Workflow/Tests.antt =====
-- A workflow of two steps, the second of which fails.
use claw.Base.{String, ◌≡◌, refl, sym, subst, arith, true, false, some, [], ◌∷◌, ◌==◌, string_eq}
use claw.Base.Int.{pos}
use claw.Base.Dict.{Dict, lookup}
use claw.TestJson.{Value, str, test_json}
use claw.Pipeline.Defs.{StepOutcome, returned, threw, try_step, variables_of}
use claw.Workflow.Defs.{WorkflowStep, Workflow, Workflows, prompt, run_steps, run_workflow}
use claw.Base.Bytes.{Bytes, codes, text_of}
use claw.Workflow.Interpolate.{value_of, interpolate, replace_all}
use claw.Workflow.Interpolate.Stops.{IsPlain}
use claw.Workflow.Interpolate.Substitution.{Substituted, Mentions, interpolate-Substituted}
use claw.Workflow.Results.{Reports, run_workflow-Reports}

abbrev step : String → WorkflowStep Value
step id = record {
  id = id;
  description = "";
  type = prompt;
  instruction = id;
  tool_name = "";
  args = str "";
  output_var = id;
  skip_on_failure = false;
  max_retries = pos 1;
}

abbrev workflow : Workflow Value
workflow = record {
  id = "wf-1";
  name = "Morning";
  description = "";
  trigger = "manual";
  steps = step "step_1" ∷ step "step_2" ∷ step "step_3" ∷ [];
  raw_markdown = "";
}

abbrev table : Workflows Value
table = ("wf-1", workflow) ∷ []

abbrev run_step : WorkflowStep Value → Dict String Value → String → StepOutcome × String
run_step s vars w =
    (elim (s.id == "step_2") [ true ↦ threw "no backend" | false ↦ returned "done" ], s.id)

stored : lookup "wf-1" table ≡ some workflow
unfolding lookup
stored = refl

run_workflow-Reports_example :
    Reports test_json run_step workflow.steps
      (variables_of test_json (str ""))
      ""
      (run_workflow test_json run_step table "wf-1" (str "") "").0
run_workflow-Reports_example =
    run_workflow-Reports test_json run_step table workflow "wf-1" (str "") "" stored

stops :
    (run_workflow test_json run_step table "wf-1" (str "") "").0.step_results
    ≡ ("step_1", "done") ∷ ("step_2", "Error: no backend") ∷ []
unfolding run_workflow run_steps try_step lookup
stops = refl

abbrev vars : Dict String Value
vars = ("a", str "hi") ∷ []

abbrev template : String
template = "{{a}}"

mentioned : (name : Bytes) → Mentions (codes template) name → name ≡ codes "a"
mentioned [] ([], rest, e) = ground (arith, e)
mentioned (x ∷ []) ([], rest, e) = ground (arith, e)
mentioned (x ∷ y ∷ []) ([], rest, e) = ground (arith, e)
mentioned (x ∷ y ∷ z ∷ []) ([], rest, e) = ground (arith, e)
mentioned (x ∷ y ∷ z ∷ w ∷ name) ([], rest, e) = ground (arith, e)
mentioned name (b₁ ∷ [], rest, e) = ground (arith, e)
mentioned name (b₁ ∷ b₂ ∷ [], rest, e) = ground (arith, e)
mentioned name (b₁ ∷ b₂ ∷ b₃ ∷ [], rest, e) = ground (arith, e)
mentioned name (b₁ ∷ b₂ ∷ b₃ ∷ b₄ ∷ [], rest, e) = ground (arith, e)
mentioned name (b₁ ∷ b₂ ∷ b₃ ∷ b₄ ∷ b₅ ∷ [], rest, e) = ground (arith, e)
mentioned name (b₁ ∷ b₂ ∷ b₃ ∷ b₄ ∷ b₅ ∷ b₆ ∷ before, rest, e) = ground (arith, e)

hi-IsPlain : IsPlain (value_of test_json vars (codes "a"))
unfolding lookup
hi-IsPlain = ((refl, refl), ((refl, refl), tt))

interpolate-Substituted_example :
    (out : Bytes) × Substituted (value_of test_json vars) (codes template) out
    × (interpolate test_json template vars ≡ text_of out)
interpolate-Substituted_example =
    interpolate-Substituted test_json template vars (λ name m.
      subst (λ n. IsPlain (value_of test_json vars n)) (sym (mentioned name m)) hi-IsPlain)

greeting : interpolate test_json "say {{a}}, {{who}}!" vars ≡ "say hi, !"
unfolding interpolate replace_all lookup
greeting = refl

-- The placeholder that a value brings is replaced in place of the one of the template.
injected : interpolate test_json "{{a}}{{b}}" (("a", str "{{b}}") ∷ ("b", str "x") ∷ []) ≡ "x{{b}}"
unfolding interpolate replace_all lookup
injected = refl
