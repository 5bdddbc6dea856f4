-- ===== src/Base/Bytes.antt =====
-- std::string where its bytes are read: a list of numbers below 256.
use Prim.Native.Nat.{ℕ, ◌<◌, Ordering, compare}
use Prim.Native.Char.{Char, char, code, nul, IsLt}
use Prim.Native.String.{String}
use mathlib.Core.Path.{◌≡◌, refl, ap, ◌∙◌}
use mathlib.Core.Option.{Option, none, some}
use mathlib.Core.Logic.{◌↔◌, inl, inr}
use mathlib.Core.Bool.{Bool, true, false}
use mathlib.Core.List.{List, [], ◌∷◌}
use native.Mathlib.Omega.{arith}
use claw.Base.Tests.{if◌then◌else◌, Option-cases}
use claw.Base.Lists.{All}
use claw.Base.Eq.{Equality, ◌==◌, nat_eq}

abbrev pub Bytes : Type 0
Bytes = List ℕ

-- The bytes of a literal, which is ASCII.
abbrev pub codes : String → Bytes
codes String.[] = []
codes (String.◌∷◌ c s) = code c ∷ codes s

-- The built-in predicate of a character's number has two private helpers: these have the same clauses.
abbrev BothLt : Ordering → Ordering → Type 0
BothLt Ordering.lt o = IsLt o
BothLt Ordering.eq _ = ⊥
BothLt Ordering.gt _ = ⊥

abbrev Scalar : Ordering → Ordering → Ordering → Type 0
Scalar Ordering.lt _ _ = Unit
Scalar Ordering.eq o p = BothLt o p
Scalar Ordering.gt o p = BothLt o p

abbrev both : (o p : Ordering) → Option (BothLt o p)
both Ordering.lt Ordering.lt = some tt
both Ordering.lt Ordering.eq = none
both Ordering.lt Ordering.gt = none
both Ordering.eq p = none
both Ordering.gt p = none

abbrev in_range : (o p q : Ordering) → Option (Scalar o p q)
in_range Ordering.lt p q = some tt
in_range Ordering.eq p q = both p q
in_range Ordering.gt p q = both p q

both-some : (o p : Ordering) (h : BothLt o p) → both o p ≡ some h
both-some Ordering.lt Ordering.lt h = refl
both-some Ordering.lt Ordering.eq h = elim h [ ]
both-some Ordering.lt Ordering.gt h = elim h [ ]
both-some Ordering.eq p h = elim h [ ]
both-some Ordering.gt p h = elim h [ ]

in_range-some : (o p q : Ordering) (h : Scalar o p q) → in_range o p q ≡ some h
in_range-some Ordering.lt p q h = refl
in_range-some Ordering.eq p q h = both-some p q h
in_range-some Ordering.gt p q h = both-some p q h

abbrev char_of : ℕ → Char
char_of n = elim (in_range (compare n 55296) (compare 57343 n) (compare n 1114112)) [
  | none ↦ nul
  | some h ↦ char n h
]

char_of-code : (c : Char) → char_of (code c) ≡ c
char_of-code (char n h) =
    ap (λ o. elim o as (λ _. Char) [ none ↦ nul | some h' ↦ char n h' ])
      (in_range-some (compare n 55296) (compare 57343 n) (compare n 1114112) h)

-- The string of some bytes.
abbrev pub text_of : Bytes → String
text_of [] = String.[]
text_of (b ∷ bs) = String.◌∷◌ (char_of b) (text_of bs)

pub text_of-codes : (s : String) → text_of (codes s) ≡ s
text_of-codes String.[] = refl
text_of-codes (String.◌∷◌ c s) =
    ap (λ d. String.◌∷◌ d (text_of (codes s))) (char_of-code c)
    ∙ ap (String.◌∷◌ c) (text_of-codes s)

in_range-ne-none : (o p q : Ordering) → o ≡ Ordering.lt → in_range o p q ≡ none → ⊥
in_range-ne-none Ordering.lt p q h e = cc
in_range-ne-none Ordering.eq p q h e = cc
in_range-ne-none Ordering.gt p q h e = cc

code-char_of : (n : ℕ) → n < 256 → code (char_of n) ≡ n
code-char_of n h =
    elim (Option-cases (in_range (compare n 55296) (compare 57343 n) (compare n 1114112))) [
      | inl e ↦ absurd (in_range-ne-none _ _ _ (ground (arith, h)) e)
      | inr (scalar, e) ↦
          ap (λ o. code (elim o as (λ _. Char) [ none ↦ nul | some h' ↦ char n h' ])) e
    ]

pub codes-text_of : (b : Bytes) → All (λ c. c < 256) b → codes (text_of b) ≡ b
codes-text_of [] h = refl
codes-text_of (c ∷ b) h =
    ap (λ n. n ∷ codes (text_of b)) (code-char_of c h.0) ∙ ap (◌∷◌ c) (codes-text_of b h.1)

abbrev pub same_bytes : Bytes → Bytes → Bool
same_bytes [] [] = true
same_bytes [] (b ∷ bs) = false
same_bytes (a ∷ as_) [] = false
same_bytes (a ∷ as_) (b ∷ bs) = if a == b then same_bytes as_ bs else false

pub same_bytes_iff : (a b : Bytes) → (same_bytes a b ≡ true) ↔ (a ≡ b)
same_bytes_iff [] [] = ground arith
same_bytes_iff [] (b ∷ bs) = ground arith
same_bytes_iff (a ∷ as_) [] = ground arith
same_bytes_iff (a ∷ as_) (b ∷ bs) = ground (arith, same_bytes_iff as_ bs)

instance abbrev pub bytes_eq : Equality Bytes
bytes_eq = record { same = same_bytes; same_iff = same_bytes_iff }
