-- ===== src/Scheduler/Load/Front.antt =====
-- The lines of a front matter, joined and taken apart again.
use claw.Base.{
  ℕ, ◌≡◌, refl, ap, ◌∙◌, Bool, true, false, Option, some, List, [], ◌∷◌, ◌++◌, ◌==◌, nat_eq, arith,
  All, All-append, if◌then◌else◌, append-nil,
}
use claw.Base.Bytes.{Bytes}
use claw.Base.Find.{find, pieces, with_lines, Without, pieces-append, pieces_last, behind}
use claw.Scheduler.Defs.{TaskExecEntry}
use claw.Scheduler.Files.Places.{Gives, line-Gives}
use claw.Scheduler.Load.{delimiter}

abbrev pub joined : Bytes → List Bytes → Bytes
joined line [] = line
joined line (next ∷ lines) = line ++ (0x0a ∷ joined next lines)

-- Not empty, on one line, and not begun as a delimiter or a row of the table.
abbrev pub IsLine : Bytes → Type 0
IsLine [] = ⊥
IsLine (c ∷ line) = ((c == 0x2d) ≡ false) × ((c == 0x7c) ≡ false) × Without 0x0a (c ∷ line)

abbrev pub without : Bytes → Bool
without [] = true
without (c ∷ text) = if c == 0x0a then false else without text

pub without→Without : (text : Bytes) → without text ≡ true → Without 0x0a text
without→Without [] h = tt
without→Without (c ∷ text) h = ground (arith, h, without→Without text)

abbrev pub is_key : Bytes → Bool
is_key [] = false
is_key (c ∷ key) = if c == 0x2d then false else if c == 0x7c then false else without (c ∷ key)

-- A line of a front matter, from its key and its value.
pub is_key→IsLine :
    (key value : Bytes)
    → is_key key ≡ true
    → Without 0x0a value
    → IsLine (key ++ (0x3a ∷ 0x20 ∷ value))
is_key→IsLine [] value h v = ground (arith, h)
is_key→IsLine (c ∷ key) value h v = (
  ground (arith, h),
  ground (arith, h),
  All-append (λ c. (c == 0x0a) ≡ false) (c ∷ key) (0x3a ∷ 0x20 ∷ value)
      (without→Without (c ∷ key) (key-without c key h)) (refl, (refl, v)),
)
  where
    key-without : (c : ℕ) (key : Bytes) → is_key (c ∷ key) ≡ true → without (c ∷ key) ≡ true
    key-without c key h = ground (arith, h)

abbrev onto : Bytes → Option (Bytes × Bytes) → Option (Bytes × Bytes)
onto [] o = o
onto (c ∷ line) o = behind c (onto line o)

onto-some :
    (line before rest : Bytes) → onto line (some (before, rest)) ≡ some (line ++ before, rest)
onto-some [] before rest = refl
onto-some (c ∷ line) before rest = ap (behind c) (onto-some line before rest)

other_byte : (c : ℕ) → (c == 0x0a) ≡ false → (0x0a == c) ≡ false
other_byte c h = ground (arith, h)

find-line :
    (line text : Bytes)
    → Without 0x0a line
    → find (0x0a ∷ delimiter) (line ++ (0x0a ∷ text))
      ≡ onto line (find (0x0a ∷ delimiter) (0x0a ∷ text))
find-line [] text h = refl
find-line (c ∷ line) text h = rw (other_byte c h.0) (ap (behind c) (find-line line text h.1))

not_dash : (c : ℕ) → (c == 0x2d) ≡ false → (0x2d == c) ≡ false
not_dash c h = ground (arith, h)

find_next :
    (line text : Bytes)
    → IsLine line
    → find (0x0a ∷ delimiter) (0x0a ∷ line ++ text)
      ≡ behind 0x0a (find (0x0a ∷ delimiter) (line ++ text))
find_next [] text h = elim h [ ]
find_next (c ∷ line) text h = rw (not_dash c h.0) refl

line-Without : (line : Bytes) → IsLine line → Without 0x0a line
line-Without [] h = elim h [ ]
line-Without (c ∷ line) h = h.2

pub find-with_lines :
    (line : Bytes) (lines : List Bytes) (text : Bytes)
    → All IsLine (line ∷ lines)
    → find (0x0a ∷ delimiter) (with_lines (line ∷ lines) (delimiter ++ text))
      ≡ some (joined line lines, text)
find-with_lines line [] text h =
    find-line line (delimiter ++ text) (line-Without line h.0)
    ∙ onto-some line [] text
    ∙ ap (λ b. some (b, text)) (append-nil line)
find-with_lines line (next ∷ lines) text h =
    find-line line (with_lines (next ∷ lines) (delimiter ++ text)) (line-Without line h.0)
    ∙ ap (onto line)
        (find_next next _ h.1.0 ∙ ap (behind 0x0a) (find-with_lines next lines text h.1))
    ∙ onto-some line (0x0a ∷ joined next lines) text

pub pieces-joined :
    (line : Bytes) (lines : List Bytes)
    → All IsLine (line ∷ lines)
    → pieces 0x0a (joined line lines) ≡ line ∷ lines
pieces-joined [] [] h = elim h.0 [ ]
pieces-joined (c ∷ line) [] h = pieces_last 0x0a c line h.0.2
pieces-joined line (next ∷ lines) h =
    pieces-append 0x0a line (joined next lines) (line-Without line h.0)
    ∙ ap (◌∷◌ line) (pieces-joined next lines h.1)

pub with_lines-Gives :
    {text : Bytes} {entries : List TaskExecEntry} (lines : List Bytes)
    → All IsLine lines
    → Gives text entries
    → Gives (with_lines lines text) entries
with_lines-Gives [] h g = g
with_lines-Gives ([] ∷ lines) h g = elim h.0 [ ]
with_lines-Gives ((c ∷ line) ∷ lines) h g =
    line-Gives (c ∷ line) h.0.2 h.0.1 (with_lines-Gives lines h.1 g)
