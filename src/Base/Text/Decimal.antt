-- ===== src/Base/Text/Decimal.antt =====
-- The bytes that std::to_string writes: digits, and std::stoi's way of reading them.
use Prim.Native.Nat.{ℕ, zero, suc, ◌+◌, ◌-◌, ◌*◌, ◌/◌, ◌%◌, ◌<◌}
use Prim.Native.Char.{code}
use Prim.Native.String.{String}
use mathlib.Core.Path.{◌≡◌, refl, ap, sym, ◌∙◌, subst}
use mathlib.Core.Bool.{Bool, true, ◌&&◌}
use mathlib.Core.Logic.{◌≢◌}
use mathlib.Core.List.{append-nil, [], ◌∷◌, ◌++◌, append_assoc}
use text.Mathlib.TextLemmas.{nil-append, cons-append}
use native.Mathlib.Omega.{arith}
use claw.Base.Tests.{leb, ltb, if◌then◌else◌, if_cases}
use claw.Base.Bytes.{Bytes, codes}
use claw.Base.Lists.{All, All-append}
use claw.Base.Find.{Without}
use claw.Base.Text.{◌⧺◌, digit, in_base, decimal}

abbrev pub is_digit : ℕ → Bool
is_digit c = leb 0x30 c && leb c 0x39

abbrev pub digits : ℕ → Bytes → ℕ
digits value [] = value
digits value (c ∷ text) =
    let later = digits (value * 10 + (c - 0x30)) text in if is_digit c then later else value

pub codes-append : (s t : String) → codes (s ⧺ t) ≡ codes s ++ codes t
codes-append String.[] t = ap codes (nil-append t)
codes-append (String.◌∷◌ c s) t =
    ap codes (cons-append c s t) ∙ ap (◌∷◌ (code c)) (codes-append s t)

codes-digit : (d : ℕ) → d < 10 → codes (digit d) ≡ (0x30 + d) ∷ []
unfolding digit
codes-digit zero h = refl
codes-digit (suc zero) h = refl
codes-digit (suc (suc zero)) h = refl
codes-digit (suc (suc (suc zero))) h = refl
codes-digit (suc (suc (suc (suc zero)))) h = refl
codes-digit (suc (suc (suc (suc (suc zero))))) h = refl
codes-digit (suc (suc (suc (suc (suc (suc zero)))))) h = refl
codes-digit (suc (suc (suc (suc (suc (suc (suc zero))))))) h = refl
codes-digit (suc (suc (suc (suc (suc (suc (suc (suc zero)))))))) h = refl
codes-digit (suc (suc (suc (suc (suc (suc (suc (suc (suc zero))))))))) h = refl
codes-digit (suc (suc (suc (suc (suc (suc (suc (suc (suc (suc d)))))))))) h = ground (arith, h)

abbrev AllDigits : Bytes → Type 0
AllDigits = All (λ c. is_digit c ≡ true)

digits-digit :
    (v d n : ℕ) (rest : Bytes)
    → d < 10
    → v * 10 + d ≡ n
    → digits v ((0x30 + d) ∷ rest) ≡ digits n rest
digits-digit v d n rest h e = ground (arith, h) ∙ ap (λ x. digits x rest) e

codes_last : (s : String) (d : ℕ) → d < 10 → codes (s ⧺ digit d) ≡ codes s ++ ((0x30 + d) ∷ [])
codes_last s d h = codes-append s (digit d) ∙ ap (◌++◌ (codes s)) (codes-digit d h)

digits-in_base :
    (fuel n : ℕ) (rest : Bytes)
    → n < fuel
    → digits 0 (codes (in_base 10 fuel n) ++ rest) ≡ digits n rest
unfolding in_base
digits-in_base zero n rest h = ground (arith, h)
digits-in_base (suc fuel) n rest h =
    if_cases (λ s. digits 0 (codes s ++ rest) ≡ digits n rest) (ltb n 10) (digit n)
      (in_base 10 fuel (n / 10) ⧺ digit (n % 10))
      (λ e.
        ap (λ b. digits 0 (b ++ rest)) (codes-digit n (ground (arith, e)))
        ∙ digits-digit 0 n n rest (ground (arith, e)) (omega arith))
      (λ e.
        ap (λ b. digits 0 (b ++ rest))
          (codes_last (in_base 10 fuel (n / 10)) (n % 10) (omega arith))
        ∙ ap (digits 0)
            (append_assoc (codes (in_base 10 fuel (n / 10))) ((0x30 + n % 10) ∷ []) rest)
        ∙ digits-in_base fuel (n / 10) ((0x30 + n % 10) ∷ rest) (ground (arith, e, h))
        ∙ digits-digit (n / 10) (n % 10) n rest (omega arith) (omega arith))

is_digit-digit : (d : ℕ) → d < 10 → is_digit (0x30 + d) ≡ true
is_digit-digit d h = ground (arith, h)

AllDigits-in_base : (fuel n : ℕ) → AllDigits (codes (in_base 10 fuel n))
unfolding in_base
AllDigits-in_base zero n = tt
AllDigits-in_base (suc fuel) n =
    if_cases (λ s. AllDigits (codes s)) (ltb n 10) (digit n)
      (in_base 10 fuel (n / 10) ⧺ digit (n % 10))
      (λ e.
        subst AllDigits (sym (codes-digit n (ground (arith, e))))
          (is_digit-digit n (ground (arith, e)), tt))
      (λ e. subst AllDigits (sym (codes_last (in_base 10 fuel (n / 10)) (n % 10) (omega arith))) (
        All-append (λ c. is_digit c ≡ true) (codes (in_base 10 fuel (n / 10)))
          ((0x30 + n % 10) ∷ []) (AllDigits-in_base fuel (n / 10))
          (is_digit-digit (n % 10) (omega arith), tt)))

pub AllDigits-decimal : (n : ℕ) → AllDigits (codes (decimal n))
unfolding decimal
AllDigits-decimal n = AllDigits-in_base (suc n) n

-- The digits of a number read back as that number.
pub digits-decimal : (n : ℕ) → digits 0 (codes (decimal n)) ≡ n
unfolding decimal
digits-decimal n =
    ap (digits 0) (sym (append-nil (codes (in_base 10 (suc n) n))))
    ∙ digits-in_base (suc n) n [] (omega arith)

not-cons : (bs : Bytes) (c : ℕ) → (bs ++ (c ∷ []) ≡ []) → ⊥
not-cons [] c e = ground (arith, e)
not-cons (b ∷ bs) c e = ground (arith, e)

pub decimal-ne-nil : (n : ℕ) → codes (decimal n) ≢ []
unfolding decimal in_base
decimal-ne-nil n =
    if_cases (λ s. codes s ≢ []) (ltb n 10) (digit n) (in_base 10 n (n / 10) ⧺ digit (n % 10))
      (λ e h. ground (arith, h, codes-digit n (ground (arith, e))))
      (λ e h.
        not-cons (codes (in_base 10 n (n / 10))) (0x30 + n % 10)
          (sym (codes_last (in_base 10 n (n / 10)) (n % 10) (omega arith)) ∙ h))

pub digits-Without : (x : Bytes) → All (λ c. is_digit c ≡ true) x → Without 0x0a x
digits-Without [] h = tt
digits-Without (c ∷ x) h = (ground (arith, h.0), digits-Without x h.1)
