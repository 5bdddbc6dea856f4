-- ===== src/Pipeline/Jumps.antt =====
-- Where the conditions of a pipeline jump to.
use claw.Base.{
  ℕ, zero, suc, ◌+◌, ◌<◌, ◌≡◌, Bool, true, false, ◌&&◌, Option, none, some, List, [], ◌∷◌, arith,
  length, get_elem?, ltb, string_eq, if◌then◌else◌,
}
use claw.Pipeline.Defs.{PipelineStep, is_condition, jump}

-- A jump from the step `i` leads to a later step.
abbrev pub ahead : ℕ → Option ℕ → Bool
ahead i none = true
ahead i (some j) = ltb i j

module _ {J : Type 0} where
  abbrev pub goes_ahead : List (PipelineStep J) → ℕ → PipelineStep J → Bool
  goes_ahead steps i s =
      if is_condition s.type
      then ahead i (jump steps s true) && ahead i (jump steps s false)
      else true

  -- All jumps of the steps from `i` on lead forward.
  abbrev pub AheadFrom : List (PipelineStep J) → ℕ → List (PipelineStep J) → Type 0
  AheadFrom steps i [] = Unit
  AheadFrom steps i (s ∷ rest) = (goes_ahead steps i s ≡ true) × AheadFrom steps (suc i) rest

  abbrev pub IsForward : List (PipelineStep J) → Type 0
  IsForward steps = AheadFrom steps 0 steps

  pub AheadFrom-get_elem? :
      (steps rest : List (PipelineStep J)) (i k : ℕ) (s : PipelineStep J)
      → AheadFrom steps i rest
      → get_elem? rest k ≡ some s
      → goes_ahead steps (i + k) s ≡ true
  AheadFrom-get_elem? steps [] i k s f e = ground (arith, e)
  AheadFrom-get_elem? steps (x ∷ rest) i zero s f e =
      let e0 : i + 0 ≡ i = omega arith in rw e0 (ground (arith, f.0, e))
  AheadFrom-get_elem? steps (x ∷ rest) i (suc k) s f e =
      let e1 : i + suc k ≡ suc i + k = omega arith in
      rw e1 (AheadFrom-get_elem? steps rest (suc i) k s f.1 e)

  pub get_elem?-some :
      (l : List (PipelineStep J)) (i : ℕ) (s : PipelineStep J)
      → get_elem? l i ≡ some s
      → i < length l
  get_elem?-some [] i s e = ground (arith, e)
  get_elem?-some (x ∷ l) zero s e = omega arith
  get_elem?-some (x ∷ l) (suc i) s e = omega (arith, get_elem?-some l i s e)
