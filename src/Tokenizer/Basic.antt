-- ===== src/Tokenizer/Basic.antt =====
-- What BasicTokenize makes of a text.
use claw.Base.{
  ℕ, ◌≡◌, ◌⊎◌, inl, inr, refl, ap, ◌∙◌, true, false, not, Bool-cases, List, [], ◌∷◌, ◌++◌,
  append_assoc, All, All-append, keep_if, subst,
}
use claw.Base.Bytes.{Bytes}
use claw.Tokenizer.Defs.{is_space, is_punct, flush, basic_from, basic_tokenize}

abbrev pub flatten : List Bytes → Bytes
flatten [] = []
flatten (x ∷ xs) = x ++ flatten xs

abbrev IsWord : ℕ → Type 0
IsWord c = (is_space c ≡ false) × (is_punct c ≡ false)

-- One punctuation mark, or bytes that are neither marks nor spaces; never empty.
abbrev pub IsToken : Bytes → Type 0
IsToken [] = ⊥
IsToken (c ∷ cs) = ((is_punct c ≡ true) × (cs ≡ [])) ⊎ All IsWord (c ∷ cs)

flatten-flush :
    (current : Bytes) (tokens : List Bytes)
    → flatten (flush current tokens) ≡ current ++ flatten tokens
flatten-flush [] tokens = refl
flatten-flush (c ∷ cs) tokens = refl

flush-IsToken :
    (current : Bytes) (tokens : List Bytes)
    → All IsWord current
    → All IsToken tokens
    → All IsToken (flush current tokens)
flush-IsToken [] tokens w h = h
flush-IsToken (c ∷ cs) tokens w h = (inr w, h)

basic_from_lem :
    (current text : Bytes)
    → All IsWord current
    → (flatten (basic_from current text) ≡ current ++ keep_if (λ c. not (is_space c)) text)
      × All IsToken (basic_from current text)
unfolding basic_from
basic_from_lem current [] w = (flatten-flush current [], flush-IsToken current [] w tt)
basic_from_lem current (c ∷ text) w = elim (Bool-cases (is_space c)) [
  | inl space ↦
      let (same, good) = basic_from_lem [] text tt in
      rw space
        (flatten-flush current _ ∙ ap (λ l. current ++ l) same, flush-IsToken current _ w good)
  | inr solid ↦ elim (Bool-cases (is_punct c)) [
    | inl punct ↦
        let (same, good) = basic_from_lem [] text tt in
        rw (solid, punct)
          (
            flatten-flush current _ ∙ ap (λ l. current ++ (c ∷ l)) same,
            flush-IsToken current _ w (inl (punct, refl), good),
          )
    | inr word ↦
        let (same, good) =
          basic_from_lem (current ++ (c ∷ [])) text
            (All-append IsWord current (c ∷ []) w ((solid, word), tt)) in
        rw (solid, word) (same ∙ append_assoc current (c ∷ []) _, good)
  ]
]

-- Where a word ends: at the end of the text, before white space or before a mark.
abbrev pub Stops : Bytes → Type 0
Stops [] = Unit
Stops (c ∷ rest) = (is_space c ≡ true) ⊎ (is_punct c ≡ true)

-- A token where it stands before the rest of a text: a mark, or a word that goes on no further.
abbrev pub IsWhole : Bytes → Bytes → Type 0
IsWhole [] rest = ⊥
IsWhole (c ∷ cs) rest = ((is_punct c ≡ true) × (cs ≡ [])) ⊎ (All IsWord (c ∷ cs) × Stops rest)

-- The text is the tokens in their order, each whole, with nothing but white space before and
-- between them and after the last.
abbrev pub Splits : Bytes → List Bytes → Type 0
Splits text [] = All (λ c. is_space c ≡ true) text
Splits text (token ∷ tokens) =
    (gap : Bytes) × (rest : Bytes) × (text ≡ gap ++ (token ++ rest))
    × All (λ c. is_space c ≡ true) gap
    × IsWhole token rest
    × Splits rest tokens

Splits-space :
    (c : ℕ) (text : Bytes) (tokens : List Bytes)
    → is_space c ≡ true
    → Splits text tokens
    → Splits (c ∷ text) tokens
Splits-space c text [] space s = (space, s)
Splits-space c text (token ∷ tokens) space (gap, rest, e, all, whole, s) =
    (c ∷ gap, rest, ap (◌∷◌ c) e, (space, all), whole, s)

Splits-flush :
    (current rest : Bytes) (tokens : List Bytes)
    → All IsWord current
    → Stops rest
    → Splits rest tokens
    → Splits (current ++ rest) (flush current tokens)
Splits-flush [] rest tokens w stops s = s
Splits-flush (c ∷ cs) rest tokens w stops s = ([], rest, refl, tt, inr (w, stops), s)

basic_from-Splits :
    (current text : Bytes) → All IsWord current → Splits (current ++ text) (basic_from current text)
unfolding basic_from
basic_from-Splits current [] w = Splits-flush current [] [] w tt tt
basic_from-Splits current (c ∷ text) w = elim (Bool-cases (is_space c)) [
  | inl space ↦ rw space (
      Splits-flush current (c ∷ text) _ w (inl space)
        (Splits-space c text _ space (basic_from-Splits [] text tt)))
  | inr solid ↦ elim (Bool-cases (is_punct c)) [
    | inl punct ↦
        rw (solid, punct)
          (Splits-flush current (c ∷ text) _ w (inr punct)
            ([], text, refl, tt, inl (punct, refl), basic_from-Splits [] text tt))
    | inr word ↦
        rw (solid, word)
          (subst (λ t. Splits t (basic_from (current ++ (c ∷ [])) text))
            (append_assoc current (c ∷ []) text)
            (basic_from-Splits (current ++ (c ∷ [])) text
              (All-append IsWord current (c ∷ []) w ((solid, word), tt))))
  ]
]

-- The tokens of a text, put together, are the text without its white space; each of them is one
-- punctuation mark or a word, which holds neither marks nor white space and is not empty; and they
-- stand in the text in their order, with nothing but white space around them, where each word goes on
-- up to white space, a mark or the end of the text.
pub basic_tokenize_lem :
    (text : Bytes)
    → (flatten (basic_tokenize text) ≡ keep_if (λ c. not (is_space c)) text)
      × All IsToken (basic_tokenize text)
      × Splits text (basic_tokenize text)
basic_tokenize_lem text =
    let (same, tokens) = basic_from_lem [] text tt in (same, tokens, basic_from-Splits [] text tt)
