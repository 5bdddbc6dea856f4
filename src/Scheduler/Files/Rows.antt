-- ===== src/Scheduler/Files/Rows.antt =====
-- The table of runs that SaveTask writes, read back row by row.
use claw.Base.{
  ℕ, suc, ◌≤◌, ◌≡◌, ◌≢◌, refl, sym, ap, ◌∙◌, ◌⊎◌, inl, inr, subst, true, false, some, List, [], ◌∷◌,
  ◌++◌, ◌==◌, nat_eq, leb, arith, All, All-append, to_string, decimal,
}
use claw.Base.Int.{ℤ, pos, ◌-ℤ◌}
use claw.Base.Bytes.{Bytes, codes, text_of-codes}
use claw.Base.Find.{find, pieces, Without, pieces-append, behind}
use claw.Base.Text.Decimal.{is_digit, AllDigits-decimal, decimal-ne-nil, digits, digits-decimal}
use claw.Scheduler.Defs.{TaskExecEntry}
use claw.Scheduler.Parse.{stoi, int_max}
use claw.Scheduler.Files.{
  bar, row_line, row_lines, row_cells, before_unit, read_duration, entry_of, read_row, read_rows,
}
use claw.Scheduler.Files.Cells.{
  IsCell, IsClean, row_cells-bar, number-IsCell, duration-IsCell, cell-Without,
}

-- std::stoi reads back what std::to_string writes.
stoi-digits :
    (x : Bytes) (n : ℕ)
    → All (λ c. is_digit c ≡ true) x
    → x ≢ []
    → digits 0 x ≡ n
    → n ≤ int_max
    → stoi x ≡ some (pos n)
unfolding stoi
stoi-digits [] n h ne e l = elim (ne refl) [ ]
stoi-digits (c ∷ x) n h ne e l = ground (arith, h.0, e, l)

pub stoi-decimal : (n : ℕ) → n ≤ int_max → stoi (codes (decimal n)) ≡ some (pos n)
stoi-decimal n l =
    stoi-digits (codes (decimal n)) n (AllDigits-decimal n) (decimal-ne-nil n) (digits-decimal n) l

m-ne-digit : (c : ℕ) → is_digit c ≡ true → (0x6d == c) ≡ false
m-ne-digit c h = ground (arith, h)

find_unit :
    (x : Bytes)
    → All (λ c. is_digit c ≡ true) x
    → find (codes "ms") (x ++ codes "ms") ≡ some (x, [])
find_unit [] h = refl
find_unit (c ∷ x) h = rw (m-ne-digit c h.0) (ap (behind c) (find_unit x h.1))

duration-read :
    (d : ℕ)
    → d ≤ int_max
    → let dur = codes (to_string (pos d)) ++ codes "ms" in
      read_duration (stoi (before_unit dur (find (codes "ms") dur))) ≡ pos d
unfolding to_string
duration-read d l =
    ap (λ o. read_duration (stoi (before_unit (codes (decimal d) ++ codes "ms") o)))
      (find_unit (codes (decimal d)) (AllDigits-decimal d))
    ∙ ap read_duration (stoi-decimal d l)

entry_of-codes :
    (e : TaskExecEntry)
    → IsClean e
    → entry_of
        (codes e.timestamp)
        (codes e.status)
        (codes (to_string e.duration_ms) ++ codes "ms")
        (codes e.result_summary)
      ≡ e
entry_of-codes e h =
    let read_back =
      subst
        (λ v.
          let dur = codes (to_string v) ++ codes "ms" in
          read_duration (stoi (before_unit dur (find (codes "ms") dur))) ≡ v)
        (sym h.duration_ms) (duration-read h.duration h.le-int_max) in
    λ i. record {
      timestamp = text_of-codes e.timestamp i;
      status = text_of-codes e.status i;
      duration_ms = read_back i;
      result_summary = text_of-codes e.result_summary i;
    }

read_result :
    (num timestamp status dur result : Bytes)
    → IsCell result ⊎ (result ≡ [])
    → read_row (num ∷ timestamp ∷ status ∷ dur ∷ row_cells (pieces 0x7c (bar result [])))
      ≡ entry_of timestamp status dur result ∷ []
read_result num timestamp status dur result (inl h) =
    ap (λ cells. read_row (num ∷ timestamp ∷ status ∷ dur ∷ cells)) (row_cells-bar result [] h)
read_result num timestamp status dur result (inr e) =
    subst
      (λ r.
        read_row (num ∷ timestamp ∷ status ∷ dur ∷ row_cells (pieces 0x7c (bar r [])))
        ≡ entry_of timestamp status dur r ∷ [])
      (sym e) refl

read_cells :
    (num : ℤ) (e : TaskExecEntry)
    → IsClean e
    → read_row (row_cells (pieces 0x7c (row_line num e))) ≡ e ∷ []
read_cells num e h =
    let n = codes (to_string num) in
    let t = codes e.timestamp in
    let s = codes e.status in
    let d = codes (to_string e.duration_ms) ++ codes "ms" in
    let r = bar (codes e.result_summary) [] in
    ap read_row (row_cells-bar n (bar t (bar s (bar d r))) (number-IsCell num))
    ∙ ap (λ cells. read_row (n ∷ cells)) (row_cells-bar t (bar s (bar d r)) h.timestamp)
    ∙ ap (λ cells. read_row (n ∷ t ∷ cells)) (row_cells-bar s (bar d r) h.status)
    ∙ ap (λ cells. read_row (n ∷ t ∷ s ∷ cells)) (row_cells-bar d r (duration-IsCell e.duration_ms))
    ∙ read_result n t s d (codes e.result_summary) h.result
    ∙ ap (λ x. x ∷ []) (entry_of-codes e h)

bar-Without : (x text : Bytes) → Without 0x0a x → Without 0x0a text → Without 0x0a (bar x text)
bar-Without x text h h' =
    (refl, All-append (λ c. (c == 0x0a) ≡ false) x (0x20 ∷ 0x7c ∷ text) h (refl, (refl, h')))

result-Without : (x : Bytes) → IsCell x ⊎ (x ≡ []) → Without 0x0a x
result-Without x (inl h) = (cell-Without x h).1
result-Without x (inr e) = subst (Without 0x0a) (sym e) tt

row_line-Without : (num : ℤ) (e : TaskExecEntry) → IsClean e → Without 0x0a (row_line num e)
row_line-Without num e h = (
  refl,
  bar-Without _ _ (cell-Without _ (number-IsCell num)).1 (
      bar-Without _ _ (cell-Without _ h.timestamp).1 (
        bar-Without _ _ (cell-Without _ h.status).1 (
          bar-Without _ _ (cell-Without _ (duration-IsCell e.duration_ms)).1
            (bar-Without _ _ (result-Without _ h.result) tt)))),
)

past_head : (skip : ℕ) → 2 ≤ skip → leb (suc skip) 2 ≡ false
past_head skip l = ground (arith, l)

-- Below the head of the table every row is an entry.
pub read_rows-row_lines :
    (skip : ℕ) (num : ℤ) (entries : List TaskExecEntry)
    → 2 ≤ skip
    → All IsClean entries
    → read_rows skip (pieces 0x0a (row_lines num entries)) ≡ entries
read_rows-row_lines skip num [] l h = refl
read_rows-row_lines skip num (e ∷ entries) l h =
    let below = row_lines (num -ℤ pos 1) entries in
    ap (read_rows skip) (pieces-append 0x0a (row_line num e) below (row_line-Without num e h.0))
    ∙ rw (past_head skip l) (
        ap (λ es. es ++ read_rows (suc skip) (pieces 0x0a below)) (read_cells num e h.0)
        ∙ ap (◌∷◌ e) (read_rows-row_lines (suc skip) (num -ℤ pos 1) entries (omega (arith, l)) h.1))
