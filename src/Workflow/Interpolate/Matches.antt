-- ===== src/Workflow/Interpolate/Matches.antt =====
-- What a match of the search says of a text, and where the text of a placeholder stands first.
use claw.Base.{
  ℕ, ◌≡◌, ◌≢◌, refl, sym, ap, ◌∙◌, subst, inl, inr, if_cases, Option, none, some, Option-cases, [],
  ◌∷◌, ◌++◌, ◌==◌, nat_eq, string_eq, arith, append_assoc,
}
use mathlib.Core.Option.{none-ne-some}
use claw.Base.Bytes.{Bytes}
use claw.Base.Find.{after, find, choose_place, behind, after-append}
use claw.Workflow.Interpolate.{
  with_char, past_brace, name_end, named, name_after, placeholder, found_or, search, target,
}
use claw.Workflow.Interpolate.Stops.{Quiet, IsName, name_end-name, marked}

pub marked-target : (name suffix : Bytes) → marked name suffix ≡ target name ++ suffix
marked-target name suffix =
    ap (λ t. 0x7b ∷ 0x7b ∷ t) (sym (append_assoc name (0x7d ∷ 0x7d ∷ []) suffix))

pub placeholder-marked :
    (name suffix : Bytes)
    → IsName name
    → name ≢ []
    → placeholder (marked name suffix) ≡ some (name, suffix)
placeholder-marked [] suffix h ne = absurd (ne refl)
placeholder-marked (c ∷ name) suffix h ne = ap named (name_end-name (c ∷ name) suffix h)

-- What a match says of a text.
record Matches (text name suffix : Bytes) : Type 0 where
  is_name : IsName name
  ne-nil : name ≢ []
  splits : text ≡ marked name suffix

past_brace-some :
    (o : Option Bytes) (name suffix : Bytes)
    → past_brace o ≡ some (name, suffix)
    → (name ≡ []) × (o ≡ some suffix)
past_brace-some none name suffix e = ground (arith, e)
past_brace-some (some rest) name suffix e = ground (arith, e)

with_char-some :
    (c : ℕ) (o : Option (Bytes × Bytes)) (name suffix : Bytes)
    → with_char c o ≡ some (name, suffix)
    → (name' : Bytes) × (name ≡ c ∷ name') × (o ≡ some (name', suffix))
with_char-some c none name suffix e = absurd (ground (arith, e))
with_char-some c (some m) name suffix e = (m.0, ground (arith, e), ground (arith, e))

name_end-splits :
    (text name suffix : Bytes)
    → name_end text ≡ some (name, suffix)
    → IsName name × (text ≡ name ++ (0x7d ∷ 0x7d ∷ suffix))
name_end-splits [] name suffix e = ground (arith, e)
name_end-splits (c ∷ text) name suffix e =
    if_cases
      (λ o. o ≡ some (name, suffix) → IsName name × (c ∷ text ≡ name ++ (0x7d ∷ 0x7d ∷ suffix)))
      (c == 0x7d) (past_brace (after (0x7d ∷ []) text)) (with_char c (name_end text))
      (λ brace h.
        let (no_name, rest) = past_brace-some (after (0x7d ∷ []) text) name suffix h in
        let split = after-append (0x7d ∷ []) text suffix rest in
        subst (λ n. IsName n × (c ∷ text ≡ n ++ (0x7d ∷ 0x7d ∷ suffix))) (sym no_name)
          (tt, ground (arith, brace, split)))
      (λ other h.
        let (name', is, rest) = with_char-some c (name_end text) name suffix h in
        let (names, split) = name_end-splits text name' suffix rest in
        subst (λ n. IsName n × (c ∷ text ≡ n ++ (0x7d ∷ 0x7d ∷ suffix))) (sym is)
          ((other, names), ap (◌∷◌ c) split))
      e

named-some :
    (o : Option (Bytes × Bytes)) (name suffix : Bytes)
    → named o ≡ some (name, suffix)
    → (o ≡ some (name, suffix)) × (name ≢ [])
named-some none name suffix e = absurd (ground (arith, e))
named-some (some ([], rest)) name suffix e = absurd (ground (arith, e))
named-some (some (c ∷ n, rest)) name suffix e = (e, λ h. ground (arith, e, h))

placeholder-Matches :
    (text name suffix : Bytes) → placeholder text ≡ some (name, suffix) → Matches text name suffix
placeholder-Matches text name suffix e = elim (Option-cases (after (0x7b ∷ 0x7b ∷ []) text)) [
  | inl e' ↦ absurd (none-ne-some (name, suffix) (ap name_after (sym e') ∙ e))
  | inr (rest, e') ↦
      let (ends, ne) = named-some (name_end rest) name suffix (ap name_after (sym e') ∙ e) in
      let (names, split) = name_end-splits rest name suffix ends in
      record {
        is_name = names;
        ne-nil = ne;
        splits = after-append (0x7b ∷ 0x7b ∷ []) text rest e' ∙ ap (λ t. 0x7b ∷ 0x7b ∷ t) split;
      }
]

after_self : (pattern rest : Bytes) → after pattern (pattern ++ rest) ≡ some rest
after_self [] rest = refl
after_self (p ∷ pattern) rest = ground (arith, after_self pattern rest)

after-marked : (name suffix : Bytes) → after (target name) (marked name suffix) ≡ some suffix
after-marked name suffix =
    ap (after (target name)) (marked-target name suffix) ∙ after_self (target name) suffix

-- The first place of a placeholder's text is the one that the search has come to.
pub find-Quiet :
    (name suffix text : Bytes)
    → IsName name
    → name ≢ []
    → Quiet text (marked name suffix)
    → find (target name) (text ++ marked name suffix) ≡ some (text, suffix)
find-Quiet name suffix [] h ne quiet =
    ap (λ o. choose_place 0x7b o (find (target name) (0x7b ∷ name ++ (0x7d ∷ 0x7d ∷ suffix))))
      (after-marked name suffix)
find-Quiet name suffix (c ∷ text) h ne quiet =
    let whole = c ∷ text ++ marked name suffix in
    let later = find (target name) (text ++ marked name suffix) in
    elim (Option-cases (after (target name) whole)) [
      | inl e ↦
          ap (λ o. choose_place c o later) e
          ∙ ap (behind c) (find-Quiet name suffix text h ne quiet.1)
      | inr (rest, e) ↦
          let begins = after-append (target name) whole rest e ∙ sym (marked-target name rest) in
          absurd (
            none-ne-some (name, rest)
              (sym quiet.0 ∙ ap placeholder begins ∙ placeholder-marked name rest h ne))
    ]

-- How the search splits a text.
pub record Found (text name suffix : Bytes) : Type 0 where
  pub before : Bytes
  pub splits : text ≡ before ++ marked name suffix
  pub quiet : Quiet before (marked name suffix)
  pub is_name : IsName name
  pub ne-nil : name ≢ []

pub search-Found :
    (text name suffix : Bytes) → search text ≡ some (name, suffix) → Found text name suffix
search-Found [] name suffix e = absurd (ground (arith, e))
search-Found (c ∷ text) name suffix e = elim (Option-cases (placeholder (c ∷ text))) [
  | inl e' ↦
      let later = search-Found text name suffix (ap (λ o. found_or o (search text)) (sym e') ∙ e) in
      record {
        before = c ∷ later.before;
        splits = ap (◌∷◌ c) later.splits;
        quiet = (subst (λ t. placeholder (c ∷ t) ≡ none) later.splits e', later.quiet);
        is_name = later.is_name;
        ne-nil = later.ne-nil;
      }
  | inr (m, e') ↦
      let here_ =
        placeholder-Matches (c ∷ text) name suffix
          (e' ∙ ap (λ o. found_or o (search text)) (sym e') ∙ e) in
      record {
        before = [];
        splits = here_.splits;
        quiet = tt;
        is_name = here_.is_name;
        ne-nil = here_.ne-nil;
      }
]
