-- ===== src/Tokenizer/Greedy.antt =====
-- WordPieceTokenize against the greedy splitting by the longest piece.
use claw.Base.{
  ℕ, zero, suc, ◌≤◌, ◌<◌, ◌≡◌, ◌≢◌, refl, sym, subst, ap, ◌∙◌, Bool, true, false, Bool-cases, ◌⊎◌,
  leb, inl, inr, Option, none, some, List, [], ◌∷◌, ◌++◌, arith, length, length-drop, take, drop,
}
use claw.Base.Bytes.{Bytes, bytes_eq}
use claw.Base.Dict.{Dict, member}
use claw.Tokenizer.Defs.{mark, unk, best_match, pieces, word_piece_tokenize}

abbrev known : Dict Bytes ℕ → Bool → Bytes → ℕ → Bool
known vocab first rest n = member (mark first ++ take n rest) vocab

-- The longest piece of at most `size` bytes that is in the vocabulary, if there is one.
abbrev pub IsLongest : Dict Bytes ℕ → Bool → Bytes → ℕ → Option ℕ → Type 0
IsLongest vocab first rest size none = (n : ℕ) → 0 < n → n ≤ size → known vocab first rest n ≡ false
IsLongest vocab first rest size (some k) =
    (0 < k)
    × (k ≤ size)
    × (known vocab first rest k ≡ true)
    × ((n : ℕ) → k < n → n ≤ size → known vocab first rest n ≡ false)

-- A token is split into longest pieces from the left, the later ones with the mark in front; where no
-- piece fits, the unknown token stands for the rest.
pub data IsGreedy (vocab : Dict Bytes ℕ) : Bool → Bytes → List Bytes → Type 0 where
  done : (first : Bool) → IsGreedy vocab first [] []
  stuck :
      (first : Bool) (rest : Bytes)
      → rest ≢ []
      → IsLongest vocab first rest (length rest) none
      → IsGreedy vocab first rest (unk ∷ [])
  piece :
      (first : Bool) (rest : Bytes) (k : ℕ) (ps : List Bytes)
      → IsLongest vocab first rest (length rest) (some k)
      → IsGreedy vocab false (drop k rest) ps
      → IsGreedy vocab first rest ((mark first ++ take k rest) ∷ ps)

le_suc_cases : (m n : ℕ) → m ≤ suc n → (m ≡ suc n) ⊎ (m ≤ n)
le_suc_cases m n h = elim (Bool-cases (leb m n)) [
  | inl le ↦ inr (ground (arith, le))
  | inr gt ↦ inl (ground (arith, gt, h))
]

module _ (vocab : Dict Bytes ℕ) (first : Bool) (rest : Bytes) where
  unknown_below :
      (k n : ℕ)
      → known vocab first rest (suc n) ≡ false
      → ((m : ℕ) → k < m → m ≤ n → known vocab first rest m ≡ false)
      → (m : ℕ) → k < m
      → m ≤ suc n
      → known vocab first rest m ≡ false
  unknown_below k n miss below m pos_ le = elim (le_suc_cases m n le) [
    | inl e ↦ rw e miss
    | inr smaller ↦ below m pos_ smaller
  ]

  IsLongest-suc :
      (n : ℕ) (o : Option ℕ)
      → known vocab first rest (suc n) ≡ false
      → IsLongest vocab first rest n o
      → IsLongest vocab first rest (suc n) o
  IsLongest-suc n none miss h = unknown_below 0 n miss h
  IsLongest-suc n (some k) miss h = (h.0, omega (arith, h.1), h.2, unknown_below k n miss h.3)

  best_match-IsLongest : (n : ℕ) → IsLongest vocab first rest n (best_match vocab first rest n)
  unfolding best_match
  best_match-IsLongest zero = λ m pos_ le. absurd (omega (arith, pos_, le))
  best_match-IsLongest (suc n) = elim (Bool-cases (known vocab first rest (suc n))) [
    | inl hit ↦
        rw hit (omega arith, omega arith, hit, λ m more le. absurd (omega (arith, more, le)))
    | inr miss ↦
        rw miss (IsLongest-suc n (best_match vocab first rest n) miss (best_match-IsLongest n))
  ]

Splits : Dict Bytes ℕ → Bool → Bytes → Option (List Bytes) → Type 0
Splits vocab first rest result =
    (ps : List Bytes) × (result ≡ some ps) × IsGreedy vocab first rest ps

pieces-IsGreedy :
    (fuel : ℕ) (vocab : Dict Bytes ℕ) (first : Bool) (rest : Bytes)
    → length rest ≤ fuel
    → Splits vocab first rest (pieces fuel vocab first rest)
unfolding pieces Splits
pieces-IsGreedy zero vocab first [] enough = ([], refl, done first)
pieces-IsGreedy (suc fuel) vocab first [] enough = ([], refl, done first)
pieces-IsGreedy zero vocab first (c ∷ cs) enough = absurd (omega (arith, enough))
pieces-IsGreedy (suc fuel) vocab first (c ∷ cs) enough =
    (elim (best_match vocab first (c ∷ cs) (length (c ∷ cs)))
        as (λ o.
          IsLongest vocab first (c ∷ cs) (length (c ∷ cs)) o
          → Splits vocab first (c ∷ cs) (elim o [
            | none ↦ some (unk ∷ [])
            | some n ↦ elim (pieces fuel vocab false (drop n (c ∷ cs))) [
              | none ↦ none
              | some later ↦ some ((mark first ++ take n (c ∷ cs)) ∷ later)
            ]
          ])) [
            | none ↦ λ h. (unk ∷ [], refl, stuck first (c ∷ cs) (cc) h)
            | some n ↦ λ h.
                (let (later, e, g) =
                    pieces-IsGreedy fuel vocab false (drop n (c ∷ cs))
                      (omega (arith, length-drop n (c ∷ cs), enough, h.0)) in
                  (
                    (mark first ++ take n (c ∷ cs)) ∷ later,
                    rw e refl,
                    piece first (c ∷ cs) n later h g,
                  ))
          ])
      (best_match-IsLongest vocab first (c ∷ cs) (length (c ∷ cs)))

take-length : (l : Bytes) → take (length l) l ≡ l
take-length [] = refl
take-length (c ∷ l) = ap (◌∷◌ c) (take-length l)

drop-length : (l : Bytes) → drop (length l) l ≡ []
drop-length [] = refl
drop-length (c ∷ l) = drop-length l

whole-IsGreedy :
    (vocab : Dict Bytes ℕ) (c : ℕ) (cs : Bytes)
    → member (c ∷ cs) vocab ≡ true
    → IsGreedy vocab true (c ∷ cs) ((c ∷ cs) ∷ [])
whole-IsGreedy vocab c cs hit =
    let k = length (c ∷ cs) in
    let same = take-length (c ∷ cs) in
    subst (λ p. IsGreedy vocab true (c ∷ cs) (p ∷ [])) same
      (piece true (c ∷ cs) k []
        (
          omega arith,
          omega arith,
          ap (λ p. member p vocab) same ∙ hit,
          λ n more le. absurd (omega (arith, more, le)),
        )
        (subst (λ r. IsGreedy vocab false r []) (sym (drop-length (c ∷ cs))) (done false)))

-- WordPieceTokenize always ends, and it splits its token as the greedy specification says: from the
-- left into the longest pieces of the vocabulary, the later ones marked with "##", and the unknown
-- token for the rest where no piece fits. A token that is in the vocabulary is one piece.
pub word_piece_tokenize-IsGreedy :
    (vocab : Dict Bytes ℕ) (token : Bytes)
    → (ps : List Bytes) × (word_piece_tokenize vocab token ≡ some ps) × IsGreedy vocab true token ps
unfolding word_piece_tokenize Splits
word_piece_tokenize-IsGreedy vocab [] = ([], refl, done true)
word_piece_tokenize-IsGreedy vocab (c ∷ cs) = elim (Bool-cases (member (c ∷ cs) vocab)) [
  | inl hit ↦ ((c ∷ cs) ∷ [], rw hit refl, whole-IsGreedy vocab c cs hit)
  | inr miss ↦
      (let (ps, e, g) = pieces-IsGreedy (length (c ∷ cs)) vocab true (c ∷ cs) (omega arith) in
        (ps, rw miss e, g))
]
