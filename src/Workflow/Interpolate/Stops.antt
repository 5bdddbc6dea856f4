-- ===== src/Workflow/Interpolate/Stops.antt =====
-- Where no placeholder begins, none begins once a later one has become its value.
use claw.Base.{
  ℕ, ◌≡◌, refl, sym, ap, ◌∙◌, Bool, true, false, Option, none, some, [], ◌∷◌, ◌++◌, ◌==◌, nat_eq,
  if◌then◌else◌, arith, All,
}
use claw.Base.Bytes.{Bytes}
use claw.Base.Find.{after}
use claw.Workflow.Interpolate.{with_char, past_brace, name_end, named, name_after, placeholder}

-- No placeholder begins in the first text when the second follows it.
abbrev pub Quiet : Bytes → Bytes → Type 0
Quiet [] rest = Unit
Quiet (c ∷ text) rest = (placeholder (c ∷ text ++ rest) ≡ none) × Quiet text rest

-- Not empty, and without braces.
abbrev pub IsPlain : Bytes → Type 0
IsPlain [] = ⊥
IsPlain (c ∷ text) = All (λ b. ((b == 0x7b) ≡ false) × ((b == 0x7d) ≡ false)) (c ∷ text)

abbrev is_some : Option (Bytes × Bytes) → Bool
is_some none = false
is_some (some m) = true

is_some-with_char : (c : ℕ) (o : Option (Bytes × Bytes)) → is_some (with_char c o) ≡ is_some o
is_some-with_char c none = refl
is_some-with_char c (some m) = refl

-- A placeholder, and what follows it.
abbrev pub marked : Bytes → Bytes → Bytes
marked name suffix = 0x7b ∷ 0x7b ∷ name ++ (0x7d ∷ 0x7d ∷ suffix)

-- A name up to its braces.
abbrev pub IsName : Bytes → Type 0
IsName = All (λ b. (b == 0x7d) ≡ false)

pub name_end-name :
    (name suffix : Bytes)
    → IsName name
    → name_end (name ++ (0x7d ∷ 0x7d ∷ suffix)) ≡ some (name, suffix)
name_end-name [] suffix h = refl
name_end-name (c ∷ name) suffix h = rw h.0 (ap (with_char c) (name_end-name name suffix h.1))

-- What passes from each branch to another passes from the conditional.
pub if_swap {ℓ κ} :
    {A : Type ℓ} (P : A → Type κ) (b : Bool) {x y x' y' : A}
    → (P x → P x')
    → (P y → P y')
    → P (if b then x else y)
    → P (if b then x' else y')
if_swap P true f g h = f h
if_swap P false f g h = g h

abbrev IsNone : Option (Bytes × Bytes) → Type 0
IsNone o = is_some o ≡ false

IsNone-with_char : (c : ℕ) (o : Option (Bytes × Bytes)) → IsNone o → named (with_char c o) ≡ none
IsNone-with_char c none h = refl
IsNone-with_char c (some m) h = ground (arith, h)

with_char-IsNone : (c : ℕ) (o : Option (Bytes × Bytes)) → named (with_char c o) ≡ none → IsNone o
with_char-IsNone c none h = refl
with_char-IsNone c (some m) h = ground (arith, h)

named-past_brace : (o : Option Bytes) → named (past_brace o) ≡ none
named-past_brace none = refl
named-past_brace (some rest) = refl

pub brace_first : (mark b : ℕ) → (b == mark) ≡ false → (mark == b) ≡ false
brace_first mark b h = ground (arith, h)

-- No plain text begins with a brace.
pub after-plain :
    (mark : ℕ) (value rest : Bytes)
    → IsPlain value
    → ((b : ℕ) → ((b == 0x7b) ≡ false) × ((b == 0x7d) ≡ false) → (b == mark) ≡ false)
    → after (mark ∷ []) (value ++ rest) ≡ none
after-plain mark [] rest plain pick = elim plain [ ]
after-plain mark (b ∷ value) rest plain pick = rw (brace_first mark b (pick b plain.0)) refl

module _ (name suffix value : Bytes) (is_name : IsName name) (plain : IsPlain value) where
  name_end-before : name_end (marked name suffix) ≡ some (0x7b ∷ 0x7b ∷ name, suffix)
  name_end-before = ap (λ o. with_char 0x7b (with_char 0x7b o)) (name_end-name name suffix is_name)

  -- A name that the placeholder stopped from ending is stopped by the value too.
  name_end-swap :
      (w : Bytes)
      → IsNone (name_end (w ++ (marked name suffix)))
      → IsNone (name_end (w ++ (value ++ suffix)))
  name_end-swap [] h = absurd (ground (arith, h, name_end-before))
  name_end-swap (c ∷ []) h =
      if_swap IsNone (c == 0x7d)
        (λ h'. ap (λ o. is_some (past_brace o)) (after-plain 0x7d value suffix plain (λ b p. p.1)))
        (λ h'.
          is_some-with_char c (name_end (value ++ suffix))
          ∙ name_end-swap [] (sym (is_some-with_char c (name_end (marked name suffix))) ∙ h'))
        h
  name_end-swap (c ∷ d ∷ w) h =
      if_swap IsNone (c == 0x7d)
        (if_swap (λ o. IsNone (past_brace o)) (0x7d == d) (λ h'. absurd (ground (arith, h')))
          (λ h'. refl))
        (λ h'.
          is_some-with_char c (name_end (d ∷ w ++ (value ++ suffix)))
          ∙ name_end-swap (d ∷ w)
              (sym (is_some-with_char c (name_end (d ∷ w ++ (marked name suffix)))) ∙ h'))
        h

  named-swap :
      (w : Bytes)
      → named (name_end (w ++ (marked name suffix))) ≡ none
      → named (name_end (w ++ (value ++ suffix))) ≡ none
  named-swap [] h = absurd (ground (arith, h, name_end-before))
  named-swap (c ∷ w) h =
      if_swap (λ o. named o ≡ none) (c == 0x7d)
        (λ h'. named-past_brace (after (0x7d ∷ []) (w ++ (value ++ suffix))))
        (λ h'.
          IsNone-with_char c _
            (name_end-swap w (with_char-IsNone c (name_end (w ++ (marked name suffix))) h')))
        h

  -- What does not begin a placeholder before one begins none before its value.
  placeholder-swap :
      (c : ℕ) (s : Bytes)
      → placeholder (c ∷ s ++ (marked name suffix)) ≡ none
      → placeholder (c ∷ s ++ (value ++ suffix)) ≡ none
  placeholder-swap c [] =
      if_swap (λ o. name_after o ≡ none) (0x7b == c)
        (λ h. ap name_after (after-plain 0x7b value suffix plain (λ b p. p.0))) (λ h. refl)
  placeholder-swap c (d ∷ s) =
      if_swap (λ o. name_after o ≡ none) (0x7b == c)
        (if_swap (λ o. name_after o ≡ none) (0x7b == d) (named-swap s) (λ h. h)) (λ h. h)

  pub Quiet-swap : (text : Bytes) → Quiet text (marked name suffix) → Quiet text (value ++ suffix)
  Quiet-swap [] h = tt
  Quiet-swap (c ∷ text) h = (placeholder-swap c text h.0, Quiet-swap text h.1)
