-- ===== src/Scheduler/Files/Places.antt =====
-- The table of runs is found wherever the title of the table stands in the file for the first time.
use claw.Base.{
  ℕ, ◌≡◌, refl, sym, ap, ◌∙◌, inl, inr, false, Option, none, some, List, [], ◌∷◌, ◌++◌, ◌==◌,
  nat_eq, arith, All, if_cases, Option-cases,
}
use claw.Base.Int.{ℤ}
use claw.Base.Bytes.{Bytes}
use claw.Base.Find.{after, find, pieces, Without, pieces-append, choose_place, behind, after-append}
use claw.Scheduler.Defs.{TaskExecEntry}
use claw.Scheduler.Files.{title, table_text, read_rows, rows_at}
use claw.Scheduler.Files.Rows.{read_rows-row_lines}
use claw.Scheduler.Files.Cells.{IsClean}

-- A text that gives these entries, read from a line's start in any state or searched for the title.
pub record Gives (text : Bytes) (entries : List TaskExecEntry) : Type 0 where
  pub rows : (skip : ℕ) → read_rows skip (pieces 0x0a text) ≡ entries
  pub found : rows_at (find title text) ≡ entries

pub table-Gives :
    (num : ℤ) (entries : List TaskExecEntry)
    → All IsClean entries
    → Gives (table_text num entries) entries
table-Gives num [] h = record { rows = λ skip. refl; found = refl }
table-Gives num (e ∷ entries) h = record {
  rows = λ skip. read_rows-row_lines 2 num (e ∷ entries) (omega arith) h;
  found = read_rows-row_lines 2 num (e ∷ entries) (omega arith) h;
}

abbrev pub NoRow : Bytes → Type 0
NoRow [] = Unit
NoRow (c ∷ line) = (c == 0x7c) ≡ false

rows-line :
    {text : Bytes} {entries : List TaskExecEntry} (line : Bytes)
    → Gives text entries
    → Without 0x0a line
    → NoRow line
    → (skip : ℕ) → read_rows skip (pieces 0x0a (line ++ (0x0a ∷ text))) ≡ entries
rows-line {text} [] g h quiet skip = g.rows skip
rows-line {text} {entries} (c ∷ line) g h quiet skip =
    ap (read_rows skip) (pieces-append 0x0a (c ∷ line) text h)
    ∙ rw quiet (
        if_cases (λ es. es ≡ entries) (c == 0x23) (read_rows 0 (pieces 0x0a text))
          (read_rows skip (pieces 0x0a text)) (λ e. g.rows 0) (λ e. g.rows skip))

rows_at-behind : (c : ℕ) (o : Option (Bytes × Bytes)) → rows_at (behind c o) ≡ rows_at o
rows_at-behind c none = refl
rows_at-behind c (some p) = refl

hash-NoRow : (c : ℕ) (text rest : Bytes) → c ∷ text ≡ title ++ rest → (c == 0x7c) ≡ false
hash-NoRow c text rest e = ground (arith, e)

found-line :
    {text : Bytes} {entries : List TaskExecEntry} (line : Bytes)
    → Gives text entries
    → Without 0x0a line
    → rows_at (find title (line ++ (0x0a ∷ text))) ≡ entries
found-line {text} [] g h = rows_at-behind 0x0a (find title text) ∙ g.found
found-line {text} {entries} (c ∷ line) g h =
    let whole = c ∷ line ++ (0x0a ∷ text) in
    let later = find title (line ++ (0x0a ∷ text)) in
    elim (Option-cases (after title whole)) [
      | inl e ↦
          ap (λ o. rows_at (choose_place c o later)) e
          ∙ rows_at-behind c later
          ∙ found-line line g h.1
      | inr (rest, e) ↦
          let split = after-append title whole rest e in
          ap (λ o. rows_at (choose_place c o later)) e
          ∙ ap (λ t. read_rows 0 (pieces 0x0a t)) (sym split)
          ∙ rows-line (c ∷ line) g h (hash-NoRow c (line ++ (0x0a ∷ text)) rest split) 0
    ]

pub line-Gives :
    {text : Bytes} {entries : List TaskExecEntry} (line : Bytes)
    → Without 0x0a line
    → NoRow line
    → Gives text entries
    → Gives (line ++ (0x0a ∷ text)) entries
line-Gives line h quiet g = record { rows = rows-line line g h quiet; found = found-line line g h }
