-- ===== src/SafetyGuard/Window.antt =====
-- The rate limit against a sliding window: the trimmed history answers as the full record of the
-- calls that were let through would.
use claw.Base.{
  ℕ, suc, ◌+◌, ◌≡◌, refl, ap, sym, ◌∙◌, Bool, true, false, List, [], ◌∷◌, ◌++◌, All, All-append,
  length, arith, if_cases, if◌then◌else◌,
}
use mathlib.Core.Path.{ap₂}
use claw.Base.Int.{ℤ, pos, ◌-ℤ◌, ◌≤ℤ◌, ltb_ℤ, leb_ℤ, -ℤ_parts}
use claw.SafetyGuard.Defs.{ActionRateRule}
use claw.SafetyGuard.Rate.{drop_expired, rate_step}

-- How many of the times are not before the cutoff.
abbrev pub count_since : ℤ → List ℤ → ℕ
count_since cutoff [] = 0
count_since cutoff (t ∷ ts) =
    if ltb_ℤ t cutoff then count_since cutoff ts else suc (count_since cutoff ts)

abbrev Ascending : List ℤ → Type 0
Ascending [] = Unit
Ascending (t ∷ ts) = All (λ u. t ≤ℤ u) ts × Ascending ts

count_since-append :
    (c : ℤ) (xs ys : List ℤ) → count_since c (xs ++ ys) ≡ count_since c xs + count_since c ys
count_since-append c [] ys = omega arith
count_since-append c (x ∷ xs) ys = ground (arith, count_since-append c xs ys)

-- Times that are all from the cutoff on are all counted.
count_since-All : (c : ℤ) (xs : List ℤ) → All (λ u. c ≤ℤ u) xs → count_since c xs ≡ length xs
count_since-All c [] h = refl
count_since-All c (x ∷ xs) h = ground (arith, count_since-All c xs h.1)

All-mono_le : (c t : ℤ) (xs : List ℤ) → c ≤ℤ t → All (λ u. t ≤ℤ u) xs → All (λ u. c ≤ℤ u) xs
All-mono_le c t [] le h = tt
All-mono_le c t (x ∷ xs) le h = (omega arith, All-mono_le c t xs le h.1)

-- What is dropped is not counted, and in an ascending history what stays is.
length-drop_expired :
    (c : ℤ) (xs : List ℤ) → Ascending xs → length (drop_expired c xs) ≡ count_since c xs
unfolding drop_expired
length-drop_expired c [] h = refl
length-drop_expired c (x ∷ xs) h =
    ground (arith, length-drop_expired c xs h.1, count_since-All c xs, All-mono_le c x xs)

count_since-drop_expired :
    (c d : ℤ) (xs : List ℤ) → c ≤ℤ d → count_since d (drop_expired c xs) ≡ count_since d xs
unfolding drop_expired
count_since-drop_expired c d [] le = refl
count_since-drop_expired c d (x ∷ xs) le = ground (arith, count_since-drop_expired c d xs)

Ascending-drop_expired : (c : ℤ) (xs : List ℤ) → Ascending xs → Ascending (drop_expired c xs)
unfolding drop_expired
Ascending-drop_expired c [] h = tt
Ascending-drop_expired c (x ∷ xs) h = ground (arith, Ascending-drop_expired c xs h.1)

All-drop_expired {ℓ} : (P : ℤ → Type ℓ) (c : ℤ) (xs : List ℤ) → All P xs → All P (drop_expired c xs)
unfolding drop_expired
All-drop_expired P c [] h = tt
All-drop_expired P c (x ∷ xs) h =
    if_cases (All P) (ltb_ℤ x c) _ _ (λ _. All-drop_expired P c xs h.1) (λ _. h)

Ascending-append :
    (xs : List ℤ) (now : ℤ) → Ascending xs → All (λ t. t ≤ℤ now) xs → Ascending (xs ++ now ∷ [])
Ascending-append [] now a h = (tt, tt)
Ascending-append (x ∷ xs) now a h =
    (All-append (λ u. x ≤ℤ u) xs (now ∷ []) a.0 (h.0, tt), Ascending-append xs now a.1 h.1)

-- The limiter as it is meant: the record of all calls let through, oldest first, of which those
-- within the window are counted.
unfoldable pub window_step : ActionRateRule → List ℤ → ℤ → List ℤ × Bool
window_step rule through now =
    if leb_ℤ rule.max_calls (pos (count_since (now -ℤ rule.window_seconds) through))
    then (through, true)
    else (through ++ now ∷ [], false)

-- The verdicts on calls at the given times.
abbrev pub verdicts : (List ℤ → ℤ → List ℤ × Bool) → List ℤ → List ℤ → List Bool
verdicts step history [] = []
verdicts step history (now ∷ times) =
    (step history now).1 ∷ verdicts step (step history now).0 times

module _ (rule : ActionRateRule) where
  cutoff : ℤ → ℤ
  cutoff now = now -ℤ rule.window_seconds

  -- The trimmed history counts like the full record from the last cutoff on.
  record Tracks (last : ℤ) (history through : List ℤ) : Type 0 where
    ascending : Ascending history
    past : All (λ t. t ≤ℤ last) history
    same : (c : ℤ) → cutoff last ≤ℤ c → count_since c through ≡ count_since c history

  cutoff-mono : (a b : ℤ) → a ≤ℤ b → cutoff a ≤ℤ cutoff b
  unfolding cutoff
  cutoff-mono a b h = omega (arith, -ℤ_parts a rule.window_seconds, -ℤ_parts b rule.window_seconds)

  All-later : (a b : ℤ) (xs : List ℤ) → a ≤ℤ b → All (λ t. t ≤ℤ a) xs → All (λ t. t ≤ℤ b) xs
  All-later a b [] le h = tt
  All-later a b (x ∷ xs) le h = (omega arith, All-later a b xs le h.1)

  module _ (last now : ℤ) (history through : List ℤ) (le : last ≤ℤ now)
      (t : Tracks last history through) where
    live-counts : length (drop_expired (cutoff now) history) ≡ count_since (cutoff now) through
    live-counts =
        length-drop_expired (cutoff now) history t.ascending
        ∙ sym (t.same (cutoff now) (cutoff-mono last now le))

    same_verdict : (rate_step rule history now).1 ≡ (window_step rule through now).1
    unfolding rate_step window_step cutoff
    same_verdict = ground (arith, live-counts)

    live-Tracks : Tracks now (drop_expired (cutoff now) history) through
    live-Tracks = record {
      ascending = Ascending-drop_expired (cutoff now) history t.ascending;
      past =
          All-drop_expired (λ u. u ≤ℤ now) (cutoff now) history
            (All-later last now history le t.past);
      same = λ c h.
          let h' : cutoff last ≤ℤ c = omega (arith, cutoff-mono last now le) in
          t.same c h' ∙ sym (count_since-drop_expired (cutoff now) c history h);
    }

    append-Tracks : Tracks now (drop_expired (cutoff now) history ++ now ∷ []) (through ++ now ∷ [])
    append-Tracks = record {
      ascending = Ascending-append _ now live-Tracks.ascending live-Tracks.past;
      past =
          All-append _ (drop_expired (cutoff now) history) (now ∷ []) live-Tracks.past
            (omega arith, tt);
      same = λ c h. omega (
        arith,
        count_since-append c through (now ∷ []),
        count_since-append c (drop_expired (cutoff now) history) (now ∷ []),
        live-Tracks.same c h,
      );
    }

    -- The two tests agree, so the two branches are taken together.
    both_branches :
        (b b' : Bool)
        → b ≡ b'
        → let live = drop_expired (cutoff now) history in
          Tracks now
            (if◌then◌else◌ {A = List ℤ × Bool} b (live, true) (live ++ now ∷ [], false)).0
            (if◌then◌else◌ {A = List ℤ × Bool} b' (through, true) (through ++ now ∷ [], false)).0
    both_branches true true e = live-Tracks
    both_branches false false e = append-Tracks
    both_branches true false e = cc
    both_branches false true e = cc

    step-Tracks : Tracks now (rate_step rule history now).0 (window_step rule through now).0
    unfolding rate_step window_step cutoff
    step-Tracks = both_branches _ _ (ap (λ n. leb_ℤ rule.max_calls (pos n)) live-counts)

  -- Times that do not run backwards.
  abbrev pub Forward : ℤ → List ℤ → Type 0
  Forward last [] = Unit
  Forward last (now ∷ times) = (last ≤ℤ now) × Forward now times

  verdicts-track :
      (last : ℤ) (history through times : List ℤ)
      → Forward last times
      → Tracks last history through
      → verdicts (rate_step rule) history times ≡ verdicts (window_step rule) through times
  verdicts-track last history through [] f t = refl
  verdicts-track last history through (now ∷ times) f t =
      ap₂ ◌∷◌ (same_verdict last now history through f.0 t)
        (verdicts-track now _ _ times f.1 (step-Tracks last now history through f.0 t))

  -- If the clock does not run backwards, the rate limit refuses exactly those calls of a tool that
  -- come when max_calls calls or more, made window_seconds ago or later, have been let through:
  -- forgetting the expired times changes no verdict.
  pub rate_step-window :
      (start : ℤ) (times : List ℤ)
      → Forward start times
      → verdicts (rate_step rule) [] times ≡ verdicts (window_step rule) [] times
  rate_step-window start times f =
      verdicts-track start [] [] times f (record { ascending = tt; past = tt; same = λ c h. refl })
