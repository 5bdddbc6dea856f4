-- ===== src/Workflow/Markdown/Sections.antt =====
-- A Markdown text falls into its steps at their headers.
use claw.Base.{
  ℕ, ◌-◌, ◌≡◌, refl, sym, ap, ◌∙◌, subst, true, false, ◌||◌, Option, none, some, Option-cases, inl,
  inr, List, [], ◌∷◌, ◌++◌, map, ◌==◌, nat_eq, length, length-append, arith, All, append_assoc,
  append-nil,
}
use claw.Base.Bytes.{Bytes, codes}
use claw.Base.Find.{Without}
use claw.Base.Text.Decimal.{is_digit}
use claw.Json.{JsonLib}
use claw.Scheduler.Parse.{is_blank}
use claw.Workflow.Markdown.{
  trim, take_digits, take_line, header_end, header_number, step_header, RawStep, split_steps,
  parse_step_block, parse_steps,
}

-- The header of a step as a text, from the second character.
abbrev header_tail : RawStep → Bytes
header_tail s = codes "# Step " ++ (s.number ++ (0x3a ∷ 0x20 ∷ s.title))

-- Steps, each under its header.
abbrev pub render : List RawStep → Bytes
render [] = []
render (s ∷ steps) = 0x23 ∷ header_tail s ++ (s.body ++ render steps)

abbrev IsText : ℕ → Type 0
IsText c = ((c == 0x0a) || (c == 0x0d)) ≡ false

abbrev pub IsTitle : Bytes → Type 0
IsTitle [] = ⊥
IsTitle (c ∷ title) = (is_blank c ≡ false) × (trim (c ∷ title) ≡ c ∷ title) × All IsText (c ∷ title)

abbrev IsNumber : Bytes → Type 0
IsNumber [] = ⊥
IsNumber (d ∷ num) = All (λ c. is_digit c ≡ true) (d ∷ num)

abbrev pub IsBody : Bytes → Type 0
IsBody [] = ⊥
IsBody (c ∷ body) = ((c == 0x0a) ≡ true) × Without 0x23 (c ∷ body)

-- A step with a number, a title on one line and without margins, and a text that begins on the next
-- line and has no character #.
pub record IsSection (s : RawStep) : Type 0 where
  pub number : IsNumber s.number
  pub title : IsTitle s.title
  pub body : IsBody s.body

split-skip : (x y : Bytes) → split_steps (length x) (x ++ y) ≡ split_steps 0 y
split-skip [] y = refl
split-skip (c ∷ x) y = split-skip x y

no_header : (c : ℕ) (text : Bytes) → (c == 0x23) ≡ false → step_header (c ∷ text) ≡ none
no_header c text h = rw (other_char c h) refl
  where
    other_char : (c : ℕ) → (c == 0x23) ≡ false → (0x23 == c) ≡ false
    other_char c h = ground (arith, h)

-- A character of the text, from what the header's expression finds there.
abbrev split_turn : ℕ → Bytes → Option (Bytes × Bytes × Bytes) → Bytes × List RawStep
split_turn c text none = let later = split_steps 0 text in (c ∷ later.0, later.1)
split_turn c text (some (num, title, rest)) =
    let later = split_steps (length text - length rest) text in
    ([], record { number = num; title = trim title; body = later.0 } ∷ later.1)

split-turn :
    (c : ℕ) (text : Bytes) → split_steps 0 (c ∷ text) ≡ split_turn c text (step_header (c ∷ text))
split-turn c text = elim (Option-cases (step_header (c ∷ text))) [
  | inl e ↦ rw (e, split_steps) refl
  | inr (m, e) ↦ rw (e, split_steps) refl
]

split-Without :
    (text rest : Bytes)
    → Without 0x23 text
    → split_steps 0 (text ++ rest) ≡ (text ++ (split_steps 0 rest).0, (split_steps 0 rest).1)
split-Without [] rest h = refl
split-Without (c ∷ text) rest h =
    split-turn c (text ++ rest)
    ∙ ap (split_turn c (text ++ rest)) (no_header c (text ++ rest) h.0)
    ∙ ap (λ (r : Bytes × List RawStep). (c ∷ r.0, r.1)) (split-Without text rest h.1)

take_digits-number :
    (num rest : Bytes)
    → All (λ c. is_digit c ≡ true) num
    → take_digits (num ++ (0x3a ∷ rest)) ≡ (num, 0x3a ∷ rest)
take_digits-number [] rest h = refl
take_digits-number (d ∷ num) rest h =
    rw h.0 (ap (λ (r : Bytes × Bytes). (d ∷ r.0, r.1)) (take_digits-number num rest h.1))

take_line-title :
    (title rest : Bytes)
    → All IsText title
    → take_line (title ++ (0x0a ∷ rest)) ≡ (title, 0x0a ∷ rest)
take_line-title [] rest h = refl
take_line-title (c ∷ title) rest h =
    rw h.0 (ap (λ (r : Bytes × Bytes). (c ∷ r.0, r.1)) (take_line-title title rest h.1))

digit_not_blank : (d : ℕ) → is_digit d ≡ true → is_blank d ≡ false
digit_not_blank d h = ground (arith, h)

header_title :
    (num title rest : Bytes)
    → IsTitle title
    → header_end num (some (0x20 ∷ title ++ (0x0a ∷ rest))) ≡ some (num, title, 0x0a ∷ rest)
header_title num [] rest h = elim h [ ]
header_title num (c ∷ title) rest h =
    rw h.0 (ap (λ (r : Bytes × Bytes). some (num, r.0, r.1)) (take_line-title (c ∷ title) rest h.2))

header_lem :
    (num title rest : Bytes)
    → IsNumber num
    → IsTitle title
    → step_header (0x23 ∷ codes "# Step " ++ (num ++ (0x3a ∷ 0x20 ∷ title ++ (0x0a ∷ rest))))
      ≡ some (num, title, 0x0a ∷ rest)
header_lem [] title rest n h = elim n [ ]
header_lem (d ∷ num) title rest n h = rw (digit_not_blank d n.0) (
    ap header_number (take_digits-number (d ∷ num) (0x20 ∷ title ++ (0x0a ∷ rest)) n)
    ∙ header_title (d ∷ num) title rest h)

-- The text of a step, and what stands behind it.
split-body :
    (body rest : Bytes)
    → IsBody body
    → (split_steps 0 (body ++ rest) ≡ (body ++ (split_steps 0 rest).0, (split_steps 0 rest).1))
      × ((tail : Bytes) × (body ≡ 0x0a ∷ tail))
split-body [] rest h = elim h [ ]
split-body (c ∷ body) rest h = (split-Without (c ∷ body) rest h.1, (body, ground (arith, h.0)))

length-drop : (x y : Bytes) → length (x ++ y) - length y ≡ length x
length-drop x y = omega (arith, length-append x y)

trim-IsTitle : (title : Bytes) → IsTitle title → trim title ≡ title
trim-IsTitle [] h = elim h [ ]
trim-IsTitle (c ∷ title) h = h.1

section_header :
    (s : RawStep) (rest tail : Bytes)
    → IsSection s
    → s.body ≡ 0x0a ∷ tail
    → step_header (0x23 ∷ header_tail s ++ (s.body ++ rest))
      ≡ some (s.number, s.title, s.body ++ rest)
section_header s rest tail h is =
    ap (λ t. step_header (0x23 ∷ codes "# Step " ++ t))
      (append_assoc s.number (0x3a ∷ 0x20 ∷ s.title) (s.body ++ rest))
    ∙ subst
        (λ b.
          step_header
            (0x23 ∷ codes "# Step " ++ (s.number ++ (0x3a ∷ 0x20 ∷ s.title ++ (b ++ rest))))
          ≡ some (s.number, s.title, b ++ rest))
        (sym is) (header_lem s.number s.title (tail ++ rest) h.number h.title)

split-section :
    (s : RawStep) (rest : Bytes)
    → IsSection s
    → split_steps 0 (0x23 ∷ header_tail s ++ (s.body ++ rest))
      ≡ ([], record s { body = s.body ++ (split_steps 0 rest).0 } ∷ (split_steps 0 rest).1)
split-section s rest h =
    let after_ = s.body ++ rest in
    let (splits, (tail, is)) = split-body s.body rest h.body in
    split-turn 0x23 (header_tail s ++ after_)
    ∙ ap (split_turn 0x23 (header_tail s ++ after_)) (section_header s rest tail h is)
    ∙ ap
        (λ (r : Bytes × List RawStep).
          ([], record { number = s.number; title = trim s.title; body = r.0 } ∷ r.1))
        (ap (λ n. split_steps n (header_tail s ++ after_)) (length-drop (header_tail s) after_)
          ∙ split-skip (header_tail s) after_
          ∙ splits)
    ∙ ap
        (λ t. (
          [],
          record { number = s.number; title = t; body = s.body ++ (split_steps 0 rest).0 }
              ∷ (split_steps 0 rest).1,
        ))
        (trim-IsTitle s.title h.title)

split-render :
    (steps : List RawStep) → All IsSection steps → split_steps 0 (render steps) ≡ ([], steps)
split-render [] h = refl
split-render (s ∷ steps) h =
    split-section s (render steps) h.0
    ∙ ap (λ (r : Bytes × List RawStep). ([], record s { body = s.body ++ r.0 } ∷ r.1))
        (split-render steps h.1)
    ∙ ap (λ b. ([], record s { body = b } ∷ steps)) (append-nil s.body)

-- The steps of a Markdown text with any number of steps, each with a number and a title on its header
-- line, and without a # but in the headers: ParseStepBlock gets, for each of them and in their order,
-- the number, the title and the whole text up to the next header.
pub parse_steps-render :
    (json : JsonLib) (before : Bytes) (steps : List RawStep)
    → Without 0x23 before
    → All IsSection steps
    → parse_steps json (before ++ render steps)
      ≡ map
          (λ (s : RawStep). parse_step_block json (codes "step_" ++ s.number) s.title s.body)
          steps
unfolding parse_steps
parse_steps-render json before steps h sections =
    ap
      (λ (r : Bytes × List RawStep).
        map (λ (s : RawStep). parse_step_block json (codes "step_" ++ s.number) s.title s.body) r.1)
      (split-Without before (render steps) h
        ∙ ap (λ (r : Bytes × List RawStep). (before ++ r.0, r.1)) (split-render steps sections))
