-- ===== src/ChatHistory/Sanitize.antt =====
-- What SanitizeHistory leaves: every message but the orphaned tool results.
use claw.Base.{
  String, ◌≡◌, refl, ap, sym, ◌∙◌, Bool, true, inl, inr, subst, List, [], ◌∷◌, All, arith, keep_if,
  not, Bool-cases, eq_iff, string_eq, ◌⊎◌, ◌↔◌, any, ◌++◌, ◌||◌, ◌==◌,
}
use claw.ToolGate.{ToolCall}
use claw.ChatHistory.Defs.{
  call_ids, LlmMessage, is_orphan, in_ids, valid_tool_call_ids, sanitize_history,
}

module _ {ℓ} {A : Type ℓ} where
  keep_if_idem : (p : A → Bool) (xs : List A) → keep_if p (keep_if p xs) ≡ keep_if p xs
  keep_if_idem p [] = refl
  keep_if_idem p (x ∷ xs) = elim (Bool-cases (p x)) [
    | inl e ↦ rw (e, e) (ap (◌∷◌ x) (keep_if_idem p xs))
    | inr e ↦ rw e (keep_if_idem p xs)
  ]

  -- The second list is the first without the elements that do not satisfy P.
  pub data Filtered {κ} (P : A → Type κ) : List A → List A → Type (ℓ ⊔ κ) where
    done : Filtered P [] []
    keep : {x : A} {xs ys : List A} → P x → Filtered P xs ys → Filtered P (x ∷ xs) (x ∷ ys)
    omit : {x : A} {xs ys : List A} → ¬ (P x) → Filtered P xs ys → Filtered P (x ∷ xs) ys

  keep_if-Filtered {κ} :
      {P : A → Type κ} (p : A → Bool)
      → ((x : A) → (p x ≡ true) ↔ P x)
      → (xs : List A) → Filtered P xs (keep_if p xs)
  keep_if-Filtered p f [] = done
  keep_if-Filtered p f (x ∷ xs) = elim (Bool-cases (p x)) [
    | inl e ↦ rw e (keep ((f x).0 e) (keep_if-Filtered p f xs))
    | inr e ↦ rw e (omit (λ h. ground (arith, (f x).1 h)) (keep_if-Filtered p f xs))
  ]

  keep_if-All : (p : A → Bool) (xs : List A) → All (λ x. p x ≡ true) (keep_if p xs)
  keep_if-All p [] = tt
  keep_if-All p (x ∷ xs) = ground (arith, keep_if-All p xs)

  All-weaken {κ μ} :
      {P : A → Type κ} {Q : A → Type μ} (xs : List A) → ((x : A) → P x → Q x) → All P xs → All Q xs
  All-weaken [] f h = tt
  All-weaken (x ∷ xs) f h = (f x h.0, All-weaken xs f h.1)

  any-append : (p : A → Bool) (xs ys : List A) → any p (xs ++ ys) ≡ (any p xs || any p ys)
  any-append p [] ys = refl
  any-append p (x ∷ xs) ys = ground (arith, any-append p xs ys)

module _ {J : Type 0} where
  ids-keep_if :
      (ids : List String) (h : List (LlmMessage J))
      → valid_tool_call_ids (keep_if (λ m. not (is_orphan ids m)) h) ≡ valid_tool_call_ids h
  unfolding valid_tool_call_ids
  ids-keep_if ids [] = refl
  ids-keep_if ids (m ∷ h) = ground (
    arith,
    ids-keep_if ids h,
    eq_iff m.role "assistant",
    eq_iff m.role "tool",
    eq_iff "assistant" "tool",
  )

  ids-sanitize :
      (h : List (LlmMessage J)) → valid_tool_call_ids (sanitize_history h) ≡ valid_tool_call_ids h
  unfolding sanitize_history
  ids-sanitize h = ids-keep_if (valid_tool_call_ids h) h

  -- A call with the id is among the calls.
  abbrev pub Makes : String → List (ToolCall J) → Type 0
  Makes id [] = ⊥
  Makes id (tc ∷ rest) = (tc.id ≡ id) ⊎ Makes id rest

  -- An assistant message of the history makes a call with the id.
  abbrev pub IsCalled : String → List (LlmMessage J) → Type 0
  IsCalled id [] = ⊥
  IsCalled id (m ∷ h) = ((m.role ≡ "assistant") × Makes id m.tool_calls) ⊎ IsCalled id h

  -- A message that is no tool result, or a result of a call that the history makes.
  abbrev pub Belongs : List (LlmMessage J) → LlmMessage J → Type 0
  Belongs h m = ¬ (m.role ≡ "tool") ⊎ (¬ (m.tool_call_id ≡ "") × IsCalled m.tool_call_id h)

  call_ids_iff :
      (id : String) (calls : List (ToolCall J))
      → ¬ (id ≡ "")
      → (in_ids id (call_ids calls) ≡ true) ↔ Makes id calls
  unfolding call_ids
  call_ids_iff id [] named = (λ h. ground arith, λ h. elim h [ ])
  call_ids_iff id (tc ∷ rest) named =
      ground (arith, call_ids_iff id rest named, eq_iff tc.id "", eq_iff tc.id id)

  valid_ids_iff :
      (id : String) (h : List (LlmMessage J))
      → ¬ (id ≡ "")
      → (in_ids id (valid_tool_call_ids h) ≡ true) ↔ IsCalled id h
  unfolding valid_tool_call_ids
  valid_ids_iff id [] named = (λ h. ground arith, λ h. elim h [ ])
  valid_ids_iff id (m ∷ h) named = ground (
    arith,
    valid_ids_iff id h named,
    call_ids_iff id m.tool_calls named,
    eq_iff m.role "assistant",
    any-append (λ i. i == id) (call_ids m.tool_calls) (valid_tool_call_ids h),
  )

  is_orphan_iff :
      (h : List (LlmMessage J)) (m : LlmMessage J)
      → (not (is_orphan (valid_tool_call_ids h) m) ≡ true) ↔ Belongs h m
  is_orphan_iff h m =
      ground (arith, valid_ids_iff m.tool_call_id h, eq_iff m.tool_call_id "", eq_iff m.role "tool")

  -- After sanitizing, every message of the history that is no tool result, and every result with an
  -- id that an assistant message of it calls, is still there in its place; every other one is gone;
  -- what is left belongs to the sanitized history itself; and sanitizing again changes nothing.
  pub sanitize_history_lem :
      (h : List (LlmMessage J))
      → Filtered (Belongs h) h (sanitize_history h)
        × All (Belongs (sanitize_history h)) (sanitize_history h)
        × (sanitize_history (sanitize_history h) ≡ sanitize_history h)
  unfolding sanitize_history
  sanitize_history_lem h =
      let ids = valid_tool_call_ids h in
      let kept = λ (m : LlmMessage J). not (is_orphan ids m) in
      (
        keep_if-Filtered kept (is_orphan_iff h) h,
        All-weaken (keep_if kept h)
            (λ m e.
              (is_orphan_iff (keep_if kept h) m).0
                (subst (λ i. not (is_orphan i m) ≡ true) (sym (ids-sanitize h)) e))
            (keep_if-All kept h),
        ap (λ i. keep_if (λ m. not (is_orphan i m)) (keep_if kept h)) (ids-sanitize h)
            ∙ keep_if_idem kept h,
      )
