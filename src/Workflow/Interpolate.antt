-- ===== src/Workflow/Interpolate.antt =====
-- Interpolate: the placeholders {{name}} of a text, replaced one after the other, each at the first
-- place where its text stands in the result so far.
pub mod Stops
mod Matches
pub mod Substitution
use claw.Base.{
  ℕ, zero, suc, String, Bool, true, false, Option, none, some, List, [], ◌∷◌, ◌++◌, ◌==◌, nat_eq,
  string_eq, length, if◌then◌else◌,
}
use claw.Base.Bytes.{Bytes, codes, text_of}
use claw.Base.Find.{after, find}
use claw.Base.Dict.{Dict, lookup}
use claw.Json.{JsonLib}

abbrev pub with_char : ℕ → Option (Bytes × Bytes) → Option (Bytes × Bytes)
with_char c none = none
with_char c (some (name, rest)) = some (c ∷ name, rest)

abbrev pub past_brace : Option Bytes → Option (Bytes × Bytes)
past_brace none = none
past_brace (some rest) = some ([], rest)

-- [^}]* and then "}}".
abbrev pub name_end : Bytes → Option (Bytes × Bytes)
name_end [] = none
name_end (c ∷ text) =
    let later = with_char c (name_end text) in
    if c == 0x7d then past_brace (after (0x7d ∷ []) text) else later

-- A name has a character at least.
abbrev pub named : Option (Bytes × Bytes) → Option (Bytes × Bytes)
named none = none
named (some ([], rest)) = none
named (some (c ∷ name, rest)) = some (c ∷ name, rest)

abbrev pub name_after : Option Bytes → Option (Bytes × Bytes)
name_after none = none
name_after (some rest) = named (name_end rest)

-- The regular expression \{\{([^}]+)\}\} at the start of a text: the name, and what follows.
abbrev pub placeholder : Bytes → Option (Bytes × Bytes)
placeholder text = name_after (after (0x7b ∷ 0x7b ∷ []) text)

abbrev pub found_or : Option (Bytes × Bytes) → Option (Bytes × Bytes) → Option (Bytes × Bytes)
found_or none later = later
found_or (some m) later = some m

-- regex_search: the first match in a text.
abbrev pub search : Bytes → Option (Bytes × Bytes)
search [] = none
search (c ∷ text) = found_or (placeholder (c ∷ text)) (search text)

abbrev pub target : Bytes → Bytes
target name = 0x7b ∷ 0x7b ∷ name ++ (0x7d ∷ 0x7d ∷ [])

abbrev pub put_at : Bytes → Bytes → Option (Bytes × Bytes) → Bytes
put_at result replacement none = result
put_at result replacement (some (before, rest)) = before ++ (replacement ++ rest)

-- result.find and result.replace
abbrev pub replace_first : Bytes → Bytes → Bytes → Bytes
replace_first target_ replacement result = put_at result replacement (find target_ result)

module _ (value : Bytes → Bytes) where
  -- The loop, on fuel: a match is never empty, so that the length of the text is enough.
  unfoldable pub replace_all : ℕ → Bytes → Bytes → Bytes
  replace_all zero working result = result
  replace_all (suc fuel) working result = elim (search working) [
    | none ↦ result
    | some (name, suffix) ↦
        replace_all fuel suffix (replace_first (target name) (value name) result)
  ]

module _ (json : JsonLib) where
  open json use {Json, is_string, get_string, dump}

  abbrev text_or_dump : Json → Option String → String
  text_or_dump j none = dump j
  text_or_dump j (some s) = s

  -- An unknown variable is an empty text.
  abbrev pub value_of : Dict String Json → Bytes → Bytes
  value_of vars name = elim (lookup (text_of name) vars) [
    | none ↦ []
    | some j ↦ codes (if is_string j then text_or_dump j (get_string j) else dump j)
  ]

  unfoldable pub interpolate : String → Dict String Json → String
  interpolate tmpl vars =
      let text = codes tmpl in text_of (replace_all (value_of vars) (length text) text text)
