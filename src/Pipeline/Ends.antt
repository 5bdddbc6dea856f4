-- ===== src/Pipeline/Ends.antt =====
-- How a run of a pipeline ends.
use claw.Base.{
  subst, ℕ, zero, suc, ◌+◌, ◌<◌, String, ◌≡◌, ◌≢◌, refl, Bool, Bool-cases, true, false, Option,
  none, some, List, arith, length, get_elem?, string_eq,
}
use claw.Base.Dict.{Dict, lookup}
use claw.Json.{JsonLib}
use claw.Pipeline.Defs.{
  PipelineStep, Pipeline, StepOutcome, Run, take_branch, perform, turn, loop, first_run,
  run_pipeline,
}
use claw.Pipeline.Jumps.{goes_ahead, IsForward, AheadFrom-get_elem?, get_elem?-some}

module _ (json : JsonLib) {W : Type 0}
    (execute_step : PipelineStep json.Json → Dict String json.Json → W → StepOutcome × W)
    (eval_condition : String → Dict String json.Json → Bool) where
  open json use {Json}

  -- A turn that goes on comes to a later step.
  turn-ahead :
      (steps : List (PipelineStep Json)) (s : PipelineStep Json) (r : Run Json W)
      → goes_ahead steps r.step_idx s ≡ true
      → (turn json execute_step eval_condition steps s r).1 ≡ true
      → r.step_idx < (turn json execute_step eval_condition steps s r).0.step_idx
  unfolding turn perform take_branch
  turn-ahead steps s r forward on =
      ground (arith, forward, on, Bool-cases (eval_condition s.condition_text r.vars))

  abbrev run_from : ℕ → List (PipelineStep Json) → Run Json W → Option (Run Json W)
  run_from = loop json execute_step eval_condition

  forward_at :
      (steps : List (PipelineStep Json)) (i : ℕ) (s : PipelineStep Json)
      → IsForward steps
      → get_elem? steps i ≡ some s
      → goes_ahead steps i s ≡ true
  forward_at steps i s forward e =
      let e0 : 0 + i ≡ i = omega arith in
      subst (λ k. goes_ahead steps k s ≡ true) e0 (AheadFrom-get_elem? steps steps 0 i s forward e)

  loop-ends :
      (fuel : ℕ) (steps : List (PipelineStep Json)) (r : Run Json W)
      → IsForward steps
      → 0 < fuel
      → length steps < fuel + r.step_idx
      → run_from fuel steps r ≢ none
  unfolding loop
  loop-ends zero steps r forward fueled enough = absurd (omega (arith, fueled))
  loop-ends (suc fuel) steps r forward fueled enough =
      (elim (get_elem? steps r.step_idx)
          as (λ g.
            get_elem? steps r.step_idx ≡ g
            → (elim g [
              | none ↦ some r
              | some step ↦
                  (let (r', goes_on) = turn json execute_step eval_condition steps step r in
                    elim goes_on [ true ↦ run_from fuel steps r' | false ↦ some r' ])
            ])
              ≡ none
            → ⊥) [
              | none ↦ λ e stuck. ground (arith, stuck)
              | some s ↦ λ e stuck.
                  let r' = (turn json execute_step eval_condition steps s r).0 in
                  let on_ahead = turn-ahead steps s r (forward_at steps r.step_idx s forward e) in
                  let short = get_elem?-some steps r.step_idx s e in
                  let later = loop-ends fuel steps r' forward in
                  ground (arith, stuck, on_ahead, later, enough, short)
            ])
        refl

  -- If a pipeline is stored under the id and its conditions only jump to later steps, then its run
  -- ends, whatever the steps do and however the conditions come out: one turn more than it has steps
  -- is enough.
  pub run_pipeline-ends :
      (fuel : ℕ) (pipelines : Dict String (Pipeline Json)) (id : String) (input : Json) (w : W)
      (p : Pipeline Json)
      → lookup id pipelines ≡ some p
      → IsForward p.steps
      → length p.steps < fuel
      → run_pipeline json execute_step eval_condition fuel pipelines id input w ≢ none
  unfolding run_pipeline
  run_pipeline-ends fuel pipelines id input w p found forward enough stuck =
      let first = first_run json execute_step eval_condition input w in
      let zero_idx : fuel + 0 ≡ fuel = omega arith in
      ground (
        arith,
        found,
        stuck,
        loop-ends fuel p.steps first forward (omega (arith, enough)) (omega (arith, enough)),
      )
