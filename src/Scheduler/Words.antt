-- ===== src/Scheduler/Words.antt =====
-- The words of a schedule, and the numbers in them.
use claw.Base.{
  ℕ, ◌≤◌, String, ◌⧺◌, ◌≡◌, refl, ap, ◌∙◌, Bool, true, false, ◌&&◌, Option, none, some, [], ◌∷◌,
  ◌++◌, arith, ltb, decimal, All, All-append, ◌==◌, nat_eq,
}
use claw.Base.Int.{pos}
use claw.Base.Bytes.{Bytes, codes, bytes_eq}
use claw.Base.Text.Decimal.{is_digit, AllDigits-decimal, codes-append}
use claw.Scheduler.Defs.{ScheduledTask}
use claw.Scheduler.Files.Rows.{stoi-decimal}
use claw.Scheduler.Parse.{
  is_blank, split_word, next_word, split_at, split_last, stoi, int_max, set_time, parse_time, times,
  seconds_in, parse_interval,
}

abbrev pub clock : ℕ → ℕ → String
clock h m = decimal h ⧺ (":" ⧺ decimal m)

IsSolid : ℕ → Type 0
IsSolid c = is_blank c ≡ false

All-IsSolid : (x : Bytes) → All (λ c. is_digit c ≡ true) x → All IsSolid x
unfolding IsSolid
All-IsSolid [] h = tt
All-IsSolid (c ∷ x) h = (ground (arith, h.0), All-IsSolid x h.1)

split_word-solid : (x : Bytes) → All IsSolid x → split_word x ≡ (x, [])
unfolding IsSolid
split_word-solid [] h = refl
split_word-solid (c ∷ x) h =
    rw h.0 (ap (λ (later : Bytes × Bytes). (c ∷ later.0, later.1)) (split_word-solid x h.1))

next_word-solid : (x : Bytes) → All IsSolid x → next_word (0x20 ∷ x) ≡ (x, [])
unfolding next_word IsSolid
next_word-solid [] h = refl
next_word-solid (c ∷ x) h = rw h.0 (split_word-solid (c ∷ x) h)

digit-ne-colon : (c : ℕ) → is_digit c ≡ true → (c == 0x3a) ≡ false
digit-ne-colon c h = ground (arith, h)

abbrev behind_colon : ℕ → Option (Bytes × Bytes) → Option (Bytes × Bytes)
behind_colon c none = none
behind_colon c (some p) = some (c ∷ p.0, p.1)

split_at-digits :
    (x y : Bytes) → All (λ c. is_digit c ≡ true) x → split_at 0x3a (x ++ (0x3a ∷ y)) ≡ some (x, y)
split_at-digits [] y h = refl
split_at-digits (c ∷ x) y h =
    rw (digit-ne-colon c h.0) (ap (behind_colon c) (split_at-digits x y h.1))

split_last-append : (c u : ℕ) (x : Bytes) → split_last c (x ++ (u ∷ [])) ≡ (c ∷ x, u)
split_last-append c u [] = refl
split_last-append c u (d ∷ x) = ap (λ later. (c ∷ later.0, later.1)) (split_last-append d u x)

pub parse_interval-append :
    (x : Bytes) (u : ℕ) → parse_interval (x ++ (u ∷ [])) ≡ times (stoi x) (seconds_in u)
unfolding parse_interval
parse_interval-append [] u = refl
parse_interval-append (c ∷ x) u =
    ap (λ p. times (stoi p.0) (seconds_in p.1)) (split_last-append c u x)

codes-clock : (h m : ℕ) → codes (clock h m) ≡ codes (decimal h) ++ (0x3a ∷ codes (decimal m))
codes-clock h m =
    codes-append (decimal h) (":" ⧺ decimal m)
    ∙ ap (◌++◌ (codes (decimal h))) (codes-append ":" (decimal m))

clock-IsSolid : (h m : ℕ) → All IsSolid (codes (decimal h) ++ (0x3a ∷ codes (decimal m)))
unfolding IsSolid
clock-IsSolid h m =
    All-append IsSolid (codes (decimal h)) (0x3a ∷ codes (decimal m))
      (All-IsSolid (codes (decimal h)) (AllDigits-decimal h))
      (refl, All-IsSolid (codes (decimal m)) (AllDigits-decimal m))

abbrev time_of : ScheduledTask → Option (Bytes × Bytes) → ScheduledTask × Bool
time_of task none = (task, false)
time_of task (some parts) = set_time task (stoi parts.0) (stoi parts.1)

pub parse_time-clock :
    (h m : ℕ) (task : ScheduledTask)
    → h ≤ int_max
    → m ≤ int_max
    → parse_time (codes (decimal h) ++ (0x3a ∷ codes (decimal m))) task
      ≡ (record task { hour = pos h; minute = pos m }, ltb h 24 && ltb m 60)
unfolding parse_time
parse_time-clock h m task lh lm =
    ap (time_of task)
      (split_at-digits (codes (decimal h)) (codes (decimal m)) (AllDigits-decimal h))
    ∙ ap (λ o. set_time task o (stoi (codes (decimal m)))) (stoi-decimal h lh)
    ∙ ap (set_time task (some (pos h))) (stoi-decimal m lm)

-- What follows the word before it, as the next word of the text.
pub next_word-clock :
    (h m : ℕ)
    → next_word (0x20 ∷ codes (clock h m)) ≡ (codes (decimal h) ++ (0x3a ∷ codes (decimal m)), [])
next_word-clock h m =
    ap (λ x. next_word (0x20 ∷ x)) (codes-clock h m) ∙ next_word-solid _ (clock-IsSolid h m)

pub next_word-number :
    (n u : ℕ)
    → is_blank u ≡ false
    → next_word (0x20 ∷ (codes (decimal n) ++ (u ∷ []))) ≡ (codes (decimal n) ++ (u ∷ []), [])
unfolding IsSolid
next_word-number n u h = next_word-solid (codes (decimal n) ++ (u ∷ [])) (
    All-append IsSolid (codes (decimal n)) (u ∷ [])
      (All-IsSolid (codes (decimal n)) (AllDigits-decimal n)) (h, tt))
