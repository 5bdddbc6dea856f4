-- ===== src/Base/Find.antt =====
-- What the parsers of the program ask of a std::string: substr after find, starts_with, getline, and
-- the characters at the two ends.
use Prim.Native.Nat.{ℕ}
use mathlib.Core.Path.{◌≡◌, refl, ap, ◌∙◌}
use mathlib.Core.Bool.{false}
use mathlib.Core.Option.{Option, none, some}
use mathlib.Core.List.{List, [], ◌∷◌, ◌++◌}
use native.Mathlib.Omega.{arith}
use claw.Base.Tests.{if◌then◌else◌}
use claw.Base.Eq.{◌==◌, nat_eq}
use claw.Base.Bytes.{Bytes}
use claw.Base.Lists.{All}

-- What follows a prefix.
abbrev pub after : Bytes → Bytes → Option Bytes
after [] text = some text
after (p ∷ pattern) [] = none
after (p ∷ pattern) (c ∷ text) = let later = after pattern text in if p == c then later else none

abbrev pub behind : ℕ → Option (Bytes × Bytes) → Option (Bytes × Bytes)
behind c none = none
behind c (some (before, rest)) = some (c ∷ before, rest)

abbrev pub choose_place : ℕ → Option Bytes → Option (Bytes × Bytes) → Option (Bytes × Bytes)
choose_place c (some rest) later = some ([], rest)
choose_place c none later = behind c later

-- text.find(pattern), for a pattern that is not empty: what stands before it and after it.
abbrev pub find : Bytes → Bytes → Option (Bytes × Bytes)
find pattern [] = none
find pattern (c ∷ text) = choose_place c (after pattern (c ∷ text)) (find pattern text)

abbrev pub put_first : ℕ → List Bytes → List Bytes
put_first c [] = (c ∷ []) ∷ []
put_first c (piece ∷ pieces_) = (c ∷ piece) ∷ pieces_

-- std::getline until it fails: the pieces between the marks, and none after a last mark.
abbrev pub pieces : ℕ → Bytes → List Bytes
pieces mark [] = []
pieces mark (c ∷ text) =
    let later = pieces mark text in if c == mark then [] ∷ later else put_first c later

-- Lines, and the text after them.
abbrev pub with_lines : List Bytes → Bytes → Bytes
with_lines [] text = text
with_lines (line ∷ lines) text = line ++ (0x0a ∷ with_lines lines text)

abbrev pub Without : ℕ → Bytes → Type 0
Without mark = All (λ c. (c == mark) ≡ false)

pub after-append :
    (pattern text rest : Bytes) → after pattern text ≡ some rest → text ≡ pattern ++ rest
after-append [] text rest e = ground (arith, e)
after-append (p ∷ pattern) [] rest e = ground (arith, e)
after-append (p ∷ pattern) (c ∷ text) rest e = ground (arith, e, after-append pattern text rest)

pub pieces-append :
    (mark : ℕ) (line text : Bytes)
    → Without mark line
    → pieces mark (line ++ (mark ∷ text)) ≡ line ∷ pieces mark text
pieces-append mark [] text h = ground arith
pieces-append mark (c ∷ line) text h = rw (h.0, pieces-append mark line text h.1) refl

pub pieces_last :
    (mark c : ℕ) (line : Bytes) → Without mark (c ∷ line) → pieces mark (c ∷ line) ≡ (c ∷ line) ∷ []
pieces_last mark c [] h = rw h.0 refl
pieces_last mark c (d ∷ line) h = rw (h.0, pieces_last mark d line h.1) refl

pub pieces-with_lines :
    (lines : List Bytes) (text : Bytes)
    → All (Without 0x0a) lines
    → pieces 0x0a (with_lines lines text) ≡ lines ++ pieces 0x0a text
pieces-with_lines [] text h = refl
pieces-with_lines (line ∷ lines) text h =
    pieces-append 0x0a line (with_lines lines text) h.0
    ∙ ap (◌∷◌ line) (pieces-with_lines lines text h.1)
