-- ===== src/ToolPolicy/Idle.antt =====
-- The window of recent outputs that ToolPolicy keeps for each session, after any history.
use claw.Base.{
  ℕ, String, ◌≡◌, ◌↔◌, refl, ◌∙◌, ap, sym, true, List, [], ◌∷◌, ◌++◌, arith, length-append, ◌==◌,
  eq_iff, string_eq, if◌then◌else◌,
}
use claw.Base.Dict.{entry-insert, entry-erase}
use claw.Json.{JsonLib}
use claw.ToolPolicy.Defs.{
  ToolPolicy, outputs_of, trim_front, is_idle, check_policy, check_idle_progress, reset_session,
  reset_idle_tracking,
}
use claw.ToolPolicy.Counts.{Op, call, output, reset, reset_idle, apply, run}

-- Trimming as one goes, and trimming at the end, leave the same window.
trim_front-append :
    (xs : List String) (x : String)
    → trim_front (trim_front xs ++ x ∷ []) ≡ trim_front (xs ++ x ∷ [])
unfolding trim_front
trim_front-append [] x = refl
trim_front-append (y ∷ xs) x = ground (arith, length-append xs (x ∷ []), trim_front-append xs x)

trim_front-nil : trim_front [] ≡ []
unfolding trim_front
trim_front-nil = refl

-- Three equal outputs at the end.
abbrev pub EndsIdle : List String → Type 0
EndsIdle xs = (front : List String) × (a : String) × (xs ≡ front ++ a ∷ a ∷ a ∷ [])

EndsIdle-cons : (x : String) (xs : List String) → EndsIdle xs → EndsIdle (x ∷ xs)
EndsIdle-cons x xs (front, a, e) = (x ∷ front, a, ap (◌∷◌ x) e)

is_idle→EndsIdle : (xs : List String) → is_idle (trim_front xs) ≡ true → EndsIdle xs
unfolding is_idle trim_front
is_idle→EndsIdle [] h = ground arith
is_idle→EndsIdle (a ∷ []) h = ground arith
is_idle→EndsIdle (a ∷ b ∷ []) h = ground arith
is_idle→EndsIdle (a ∷ b ∷ c ∷ []) h = ([], a, ground (arith, eq_iff b a, eq_iff c a))
is_idle→EndsIdle (a ∷ b ∷ c ∷ d ∷ r) h =
    EndsIdle-cons a (b ∷ c ∷ d ∷ r) (is_idle→EndsIdle (b ∷ c ∷ d ∷ r) (ground arith))

EndsIdle→is_idle :
    (front : List String) (a : String) → is_idle (trim_front (front ++ a ∷ a ∷ a ∷ [])) ≡ true
unfolding is_idle trim_front
EndsIdle→is_idle [] a = ground (arith, eq_iff a a)
EndsIdle→is_idle (x ∷ front) a =
    ground (arith, length-append front (a ∷ a ∷ a ∷ []), EndsIdle→is_idle front a)

module _ (json : JsonLib) (std_hash : String → ℕ) where
  open json use {Json}

  -- The outputs of a session since its last reset, oldest first.
  abbrev since_step : String → List String → Op Json → List String
  since_step session xs (output s text) = if s == session then xs ++ text ∷ [] else xs
  since_step session xs (call s skill args) = xs
  since_step session xs (reset s) = if s == session then [] else xs
  since_step session xs (reset_idle s) = if s == session then [] else xs

  abbrev pub since_reset : String → List String → List (Op Json) → List String
  since_reset session xs [] = xs
  since_reset session xs (op ∷ ops) = since_reset session (since_step session xs op) ops

  outputs-apply :
      (p : ToolPolicy) (op : Op Json) (session : String) (xs : List String)
      → outputs_of p.idle_history session ≡ trim_front xs
      → outputs_of (apply json std_hash p op).idle_history session
        ≡ trim_front (since_step session xs op)
  unfolding apply check_policy check_idle_progress reset_session reset_idle_tracking
  outputs-apply p (call s skill args) session xs h = ground arith
  outputs-apply p (output s text) session xs h = ground (
    arith,
    eq_iff s session,
    trim_front-append xs text,
    entry-insert [] s session (trim_front (outputs_of p.idle_history s ++ text ∷ []))
        p.idle_history,
  )
  outputs-apply p (reset s) session xs h =
      ground (arith, trim_front-nil, entry-erase [] s session p.idle_history)
  outputs-apply p (reset_idle s) session xs h =
      ground (arith, trim_front-nil, entry-erase [] s session p.idle_history)

  outputs-run :
      (p : ToolPolicy) (ops : List (Op Json)) (session : String) (xs : List String)
      → outputs_of p.idle_history session ≡ trim_front xs
      → outputs_of (run json std_hash p ops).idle_history session
        ≡ trim_front (since_reset session xs ops)
  unfolding run
  outputs-run p [] session xs h = h
  outputs-run p (op ∷ ops) session xs h =
      outputs-run (apply json std_hash p op) ops session (since_step session xs op)
        (outputs-apply p op session xs h)

  -- The window that CheckIdleProgress judges is the last three of all the outputs since the reset.
  judged :
      (p : ToolPolicy) (session text : String) (xs : List String)
      → outputs_of p.idle_history session ≡ trim_front xs
      → (check_idle_progress p session text).1 ≡ is_idle (trim_front (xs ++ text ∷ []))
  unfolding check_idle_progress
  judged p session text xs h = rw h (ap is_idle (trim_front-append xs text))

  -- From a policy that holds no outputs of a session, and after any history, CheckIdleProgress
  -- reports no progress exactly when the outputs of the session since its last reset, with the new
  -- one, end in three equal texts.
  pub check_idle_progress-run :
      (p : ToolPolicy) (ops : List (Op Json)) (session text : String)
      → outputs_of p.idle_history session ≡ []
      → ((check_idle_progress (run json std_hash p ops) session text).1 ≡ true)
        ↔ EndsIdle (since_reset session [] ops ++ text ∷ [])
  check_idle_progress-run p ops session text h =
      let past = since_reset session [] ops in
      let e =
        judged (run json std_hash p ops) session text past
          (outputs-run p ops session [] (h ∙ sym trim_front-nil)) in
      (
        λ idle. is_idle→EndsIdle (past ++ text ∷ []) (sym e ∙ idle),
        λ ends. e ∙ ap (λ l. is_idle (trim_front l)) ends.2 ∙ EndsIdle→is_idle ends.0 ends.1,
      )
