-- ===== src/ChatHistory/Pairs.antt =====
-- A compaction does not separate a tool result from the call that it answers.
use claw.Base.{
  ℕ, zero, suc, ◌+◌, ◌-◌, ◌≡◌, refl, ap, ◌⊎◌, inl, inr, true, false, List, [], ◌∷◌, arith, drop,
  length, Bool-cases, string_eq, ◌<◌,
}
use claw.ChatHistory.Defs.{
  LlmMessage, is_tool, calls_tools, tool_run, extend, extend_from, compacted_count,
  compaction_threshold,
}

module _ {J : Type 0} where
  -- A tool result follows a tool result or the message that calls tools.
  abbrev pub Paired : LlmMessage J → List (LlmMessage J) → Type 0
  Paired last [] = Unit
  Paired last (m ∷ rest) =
      ((is_tool m ≡ false) ⊎ (is_tool last ≡ true) ⊎ (calls_tools last ≡ true)) × Paired m rest

  abbrev pub IsPaired : List (LlmMessage J) → Type 0
  IsPaired [] = Unit
  IsPaired (m ∷ rest) = Paired m rest

  -- The first message, if any, is no tool result.
  abbrev pub StartsClean : List (LlmMessage J) → Type 0
  StartsClean [] = Unit
  StartsClean (m ∷ rest) = is_tool m ≡ false

  tool_run-StartsClean :
      (h : List (LlmMessage J)) (room : ℕ)
      → (tool_run h room ≡ room) ⊎ StartsClean (drop (tool_run h room) h)
  unfolding tool_run
  tool_run-StartsClean [] room = inr tt
  tool_run-StartsClean (m ∷ h) zero = inl refl
  tool_run-StartsClean (m ∷ h) (suc room) = elim (Bool-cases (is_tool m)) [
    | inl e ↦ rw (e, tool_run) (lift (tool_run-StartsClean h room))
    | inr e ↦ rw (e, tool_run) (inr e)
  ]
    where
      lift :
          (tool_run h room ≡ room) ⊎ StartsClean (drop (tool_run h room) h)
          → (suc (tool_run h room) ≡ suc room) ⊎ StartsClean (drop (tool_run h room) h)
      lift (inl e) = inl (ap suc e)
      lift (inr c) = inr c

  extend-StartsClean :
      (last : LlmMessage J) (h : List (LlmMessage J)) (room : ℕ)
      → Paired last h
      → (extend last h room ≡ room) ⊎ StartsClean (drop (extend last h room) h)
  unfolding extend
  extend-StartsClean last [] room p = inr tt
  extend-StartsClean last (m ∷ h) zero p = inl refl
  extend-StartsClean last (m ∷ h) (suc room) p = elim (Bool-cases (calls_tools last)) [
    | inl calls ↦ rw calls (tool_run-StartsClean (m ∷ h) (suc room))
    | inr quiet ↦ elim (Bool-cases (is_tool last)) [
      | inl result ↦ rw (quiet, result) (lift (extend-StartsClean m h room p.1))
      | inr other ↦ rw (quiet, other) (inr (ground (arith, p.0)))
    ]
  ]
    where
      lift :
          (extend m h room ≡ room) ⊎ StartsClean (drop (extend m h room) h)
          → (suc (extend m h room) ≡ suc room) ⊎ StartsClean (drop (extend m h room) h)
      lift (inl e) = inl (ap suc e)
      lift (inr c) = inr c

  drop-add : (a b : ℕ) (h : List (LlmMessage J)) → drop (a + b) h ≡ drop b (drop a h)
  drop-add zero b h = ap (λ k. drop k h) (omega arith)
  drop-add (suc a) zero [] = let e : suc a + 0 ≡ suc a = omega arith in rw e refl
  drop-add (suc a) (suc b) [] = let e : suc a + suc b ≡ suc (a + suc b) = omega arith in rw e refl
  drop-add (suc a) b (m ∷ h) =
      let e : suc a + b ≡ suc (a + b) = omega arith in rw e (drop-add a b h)

  extend_from-StartsClean :
      (n : ℕ) (h : List (LlmMessage J)) (room : ℕ)
      → IsPaired h
      → n < length h
      → (extend_from (drop n h) room ≡ room)
        ⊎ StartsClean (drop (extend_from (drop n h) room) (drop (suc n) h))
  unfolding extend_from
  extend_from-StartsClean zero [] room p long = elim long [ ]
  extend_from-StartsClean (suc n) [] room p long = elim long [ ]
  extend_from-StartsClean zero (m ∷ h) room p long = extend-StartsClean m h room p
  extend_from-StartsClean (suc n) (m ∷ []) room p long = absurd (omega (arith, long))
  extend_from-StartsClean (suc n) (m ∷ (m' ∷ h)) room p long =
      extend_from-StartsClean n (m' ∷ h) room p.1 (omega (arith, long))

  -- If every tool result of the history follows a message that calls tools or another tool result,
  -- then what a compaction of a history over the threshold leaves starts with a message that is no
  -- tool result, so that no call is separated from its results, unless the compaction takes all
  -- messages but the last two.
  pub compacted_count-StartsClean :
      (h : List (LlmMessage J))
      → IsPaired h
      → compaction_threshold < length h
      → (compacted_count h + 2 ≡ length h) ⊎ StartsClean (drop (compacted_count h) h)
  unfolding compacted_count
  compacted_count-StartsClean h p long =
      elim (extend_from-StartsClean 9 h (length h - 2 - 10) p (omega (arith, long))) [
        | inl e ↦ inl (omega (arith, e, long))
        | inr c ↦ inr (rw (drop-add 10) c)
      ]
