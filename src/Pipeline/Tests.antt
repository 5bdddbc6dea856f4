-- ===== src/Pipeline/Tests.antt =====
-- A pipeline of three steps, the first of which is a condition that jumps to the last.
use claw.Base.{ℕ, String, ◌≡◌, ◌≢◌, refl, arith, true, false, some, none, [], ◌∷◌, string_eq}
use claw.Base.Int.{pos}
use claw.Base.Dict.{Dict, lookup}
use claw.TestJson.{Value, null, test_json}
use claw.Base.Bytes.{codes}
use claw.Pipeline.Condition.{eval_text}
use claw.Pipeline.Defs.{
  PipelineStep, Pipeline, PipelineStepType, StepOutcome, tool, condition, returned, threw,
  run_pipeline,
}
use claw.Pipeline.Jumps.{IsForward}
use claw.Pipeline.Ends.{run_pipeline-ends}

abbrev step : String → PipelineStepType → PipelineStep Value
step id type = record {
  id = id;
  type = type;
  tool_name = "get";
  args = null;
  prompt_text = "";
  condition_text = "x";
  then_step = "last";
  else_step = "";
  skip_on_failure = false;
  max_retries = pos 1;
  output_var = "";
}

abbrev pipeline : Pipeline Value
pipeline = record {
  id = "p";
  name = "demo";
  description = "";
  steps = step "first" condition ∷ step "middle" tool ∷ step "last" tool ∷ [];
  trigger = "manual";
}

abbrev stored : Dict String (Pipeline Value)
stored = ("p", pipeline) ∷ []

-- No step throws.
abbrev calm : PipelineStep Value → Dict String Value → ℕ → StepOutcome × ℕ
calm s vars n = (returned "ok", n)

found : lookup "p" stored ≡ some pipeline
unfolding lookup
found = refl

forward : IsForward pipeline.steps
unfolding claw.Pipeline.Defs.find_step
forward = (refl, (refl, (refl, tt)))

run_pipeline-ends_example : run_pipeline test_json calm (λ c vars. true) 4 stored "p" null 0 ≢ none
run_pipeline-ends_example =
    run_pipeline-ends test_json calm (λ c vars. true) 4 stored "p" null 0 pipeline found forward
      (omega arith)

-- Every step throws.
abbrev broken : PipelineStep Value → Dict String Value → ℕ → StepOutcome × ℕ
broken s vars n = (threw "no", n)

-- A value with an operator in it changes what is compared.
injected_operator : eval_text (codes "x == y == x == y") ≡ false
unfolding eval_text
injected_operator = refl
