-- ===== src/OfflineFallback/Keywords.antt =====
-- Which texts contain a keyword of a rule.
use claw.Base.{
  ℕ, ◌≡◌, ◌⊎◌, ◌↔◌, inl, inr, refl, sym, ap, subst, Bool-cases, true, List, [], ◌∷◌, ◌++◌, ◌==◌,
  nat_eq, arith, any,
}
use claw.Base.Bytes.{Bytes}
use claw.OfflineFallback.Defs.{starts_with, contains_keyword}

-- The keyword stands somewhere in the text.
abbrev pub Contains : Bytes → Bytes → Type 0
Contains text keyword = (a : Bytes) × (b : Bytes) × (text ≡ a ++ (keyword ++ b))

abbrev pub HasKeyword : Bytes → List Bytes → Type 0
HasKeyword text [] = ⊥
HasKeyword text (keyword ∷ rest) = Contains text keyword ⊎ HasKeyword text rest

same_byte : (c k : ℕ) → (c == k) ≡ true → c ≡ k
same_byte c k e = ground (arith, e)

starts_with-split :
    (text keyword : Bytes) → starts_with text keyword ≡ true → (b : Bytes) × (text ≡ keyword ++ b)
starts_with-split text [] e = (text, refl)
starts_with-split [] (k ∷ keyword) e = ground (arith, e)
starts_with-split (c ∷ text) (k ∷ keyword) e =
    let same : (c == k) ≡ true = ground (arith, e) in
    let (b, rest) = starts_with-split text keyword (ground (arith, e)) in
    (b, λ i. same_byte c k same i ∷ rest i)

starts_with-append : (keyword b : Bytes) → starts_with (keyword ++ b) keyword ≡ true
starts_with-append [] b = refl
starts_with-append (k ∷ keyword) b = let rest = starts_with-append keyword b in ground (arith, rest)

contains_keyword-Contains :
    (text keyword : Bytes) → contains_keyword text keyword ≡ true → Contains text keyword
contains_keyword-Contains [] keyword e =
    let (b, same) = starts_with-split [] keyword e in ([], b, same)
contains_keyword-Contains (c ∷ text) keyword e =
    elim (Bool-cases (starts_with (c ∷ text) keyword)) [
      | inl here_ ↦ let (b, same) = starts_with-split (c ∷ text) keyword here_ in ([], b, same)
      | inr later ↦
          let (a, b, same) = contains_keyword-Contains text keyword (ground (arith, e, later)) in
          (c ∷ a, b, ap (◌∷◌ c) same)
    ]

contains_keyword-here :
    (text keyword : Bytes) → starts_with text keyword ≡ true → contains_keyword text keyword ≡ true
contains_keyword-here [] keyword e = e
contains_keyword-here (c ∷ text) keyword e = ground (arith, e)

contains_keyword-append :
    (a keyword b : Bytes) → contains_keyword (a ++ (keyword ++ b)) keyword ≡ true
contains_keyword-append [] keyword b =
    contains_keyword-here (keyword ++ b) keyword (starts_with-append keyword b)
contains_keyword-append (c ∷ a) keyword b =
    let later = contains_keyword-append a keyword b in ground (arith, later)

contains_keyword_iff :
    (text keyword : Bytes) → (contains_keyword text keyword ≡ true) ↔ Contains text keyword
contains_keyword_iff text keyword = (
  contains_keyword-Contains text keyword,
  λ (a, b, same).
      subst (λ t. contains_keyword t keyword ≡ true) (sym same)
        (contains_keyword-append a keyword b),
)

pub any_keyword_iff :
    (text : Bytes) (keywords : List Bytes)
    → (any (λ kw. contains_keyword text kw) keywords ≡ true) ↔ HasKeyword text keywords
any_keyword_iff text [] = (λ h. ground (arith, h), λ h. absurd h)
any_keyword_iff text (keyword ∷ rest) =
    ground (arith, contains_keyword_iff text keyword, any_keyword_iff text rest)
