-- ===== src/Scheduler/Files/Cells.antt =====
-- The rows of the table of runs, read back.
use claw.Base.{
  ℕ, suc, ◌≤◌, ◌≡◌, ◌≢◌, refl, sym, ap, ◌∙◌, ◌⊎◌, subst, true, false, List, [], ◌∷◌, ◌++◌, ◌==◌,
  nat_eq, arith, All, All-append, append_assoc, to_string, decimal,
}
use claw.Base.Int.{ℤ, pos, negsuc}
use claw.Base.Bytes.{Bytes, codes}
use claw.Base.Find.{pieces, Without, pieces-append}
use claw.Base.Text.Decimal.{is_digit, codes-append, AllDigits-decimal, decimal-ne-nil}
use claw.Scheduler.Defs.{TaskExecEntry}
use claw.Scheduler.Parse.{int_max}
use claw.Scheduler.Files.{bar, drop_spaces, cut_end, drop_end_spaces, add_cell, row_cells}

-- A text that the trimming of a cell leaves as it is, on one line and without a bar.
abbrev pub IsCell : Bytes → Type 0
IsCell [] = ⊥
IsCell (c ∷ text) =
    ((c == 0x20) ≡ false)
    × (drop_end_spaces (c ∷ text) ≡ c ∷ text)
    × Without 0x7c (c ∷ text)
    × Without 0x0a (c ∷ text)

-- An entry whose row is read back: its result may be empty.
pub record IsClean (e : TaskExecEntry) : Type 0 where
  pub timestamp : IsCell (codes e.timestamp)
  pub status : IsCell (codes e.status)
  pub duration : ℕ
  pub duration_ms : e.duration_ms ≡ pos duration
  pub le-int_max : duration ≤ int_max
  pub result : IsCell (codes e.result_summary) ⊎ (codes e.result_summary ≡ [])

drop_end_spaces-append : (x : Bytes) → drop_end_spaces (x ++ (0x20 ∷ [])) ≡ drop_end_spaces x
drop_end_spaces-append [] = refl
drop_end_spaces-append (c ∷ x) = ap (cut_end c) (drop_end_spaces-append x)

IsCell-trimmed :
    (x : Bytes) → IsCell x → drop_end_spaces (drop_spaces (0x20 ∷ x ++ (0x20 ∷ []))) ≡ x
IsCell-trimmed [] h = elim h [ ]
IsCell-trimmed (c ∷ x) h = rw h.0 (drop_end_spaces-append (c ∷ x) ∙ h.1)

pieces-bar :
    (x text : Bytes)
    → Without 0x7c x
    → pieces 0x7c (bar x text) ≡ (0x20 ∷ x ++ (0x20 ∷ [])) ∷ pieces 0x7c text
pieces-bar x text h =
    ap (λ t. pieces 0x7c (0x20 ∷ t)) (sym (append_assoc x (0x20 ∷ []) (0x7c ∷ text)))
    ∙ pieces-append 0x7c (0x20 ∷ x ++ (0x20 ∷ [])) text
        (refl, All-append (λ c. (c == 0x7c) ≡ false) x (0x20 ∷ []) h (refl, tt))

pub cell-Without : (x : Bytes) → IsCell x → Without 0x7c x × Without 0x0a x
cell-Without [] h = elim h [ ]
cell-Without (c ∷ x) h = (h.2, h.3)

add_cell-cell : (x : Bytes) (cells : List Bytes) → IsCell x → add_cell x cells ≡ x ∷ cells
add_cell-cell [] cells h = elim h [ ]
add_cell-cell (c ∷ x) cells h = refl

pub row_cells-bar :
    (x text : Bytes)
    → IsCell x
    → row_cells (pieces 0x7c (bar x text)) ≡ x ∷ row_cells (pieces 0x7c text)
row_cells-bar x text h =
    ap row_cells (pieces-bar x text (cell-Without x h).0)
    ∙ ap (λ t. add_cell t (row_cells (pieces 0x7c text))) (IsCell-trimmed x h)
    ∙ add_cell-cell x (row_cells (pieces 0x7c text)) h

-- What no trimming and no splitting touches.
abbrev IsSolid : ℕ → Type 0
IsSolid c = ((c == 0x20) ≡ false) × ((c == 0x7c) ≡ false) × ((c == 0x0a) ≡ false)

drop_end_spaces-IsSolid : (x : Bytes) → All IsSolid x → drop_end_spaces x ≡ x
drop_end_spaces-IsSolid [] h = refl
drop_end_spaces-IsSolid (c ∷ []) h = rw h.0.0 refl
drop_end_spaces-IsSolid (c ∷ d ∷ x) h = ap (cut_end c) (drop_end_spaces-IsSolid (d ∷ x) h.1)

IsSolid-Without : (x : Bytes) → All IsSolid x → Without 0x7c x × Without 0x0a x
IsSolid-Without [] h = (tt, tt)
IsSolid-Without (c ∷ x) h =
    let (bars, ends) = IsSolid-Without x h.1 in ((h.0.1, bars), (h.0.2, ends))

IsSolid-IsCell : (x : Bytes) → All IsSolid x → x ≢ [] → IsCell x
IsSolid-IsCell [] h ne = ne refl
IsSolid-IsCell (c ∷ x) h ne =
    let (bars, ends) = IsSolid-Without (c ∷ x) h in
    (h.0.0, drop_end_spaces-IsSolid (c ∷ x) h, bars, ends)

digits-IsSolid : (x : Bytes) → All (λ c. is_digit c ≡ true) x → All IsSolid x
digits-IsSolid [] h = tt
digits-IsSolid (c ∷ x) h =
    ((ground (arith, h.0), ground (arith, h.0), ground (arith, h.0)), digits-IsSolid x h.1)

to_string-IsSolid : (n : ℤ) → All IsSolid (codes (to_string n))
unfolding to_string
to_string-IsSolid (pos n) = digits-IsSolid (codes (decimal n)) (AllDigits-decimal n)
to_string-IsSolid (negsuc n) =
    subst (All IsSolid) (sym (codes-append "-" (decimal (suc n))))
      ((refl, refl, refl), digits-IsSolid (codes (decimal (suc n))) (AllDigits-decimal (suc n)))

to_string-ne-nil : (n : ℤ) → codes (to_string n) ≢ []
unfolding to_string
to_string-ne-nil (pos n) e = decimal-ne-nil n e
to_string-ne-nil (negsuc n) e = ground (arith, codes-append "-" (decimal (suc n)), e)

append-ne-nil : (x y : Bytes) → x ≢ [] → x ++ y ≢ []
append-ne-nil [] y h e = h refl
append-ne-nil (c ∷ x) y h e = ground (arith, e)

pub number-IsCell : (n : ℤ) → IsCell (codes (to_string n))
number-IsCell n = IsSolid-IsCell (codes (to_string n)) (to_string-IsSolid n) (to_string-ne-nil n)

pub duration-IsCell : (n : ℤ) → IsCell (codes (to_string n) ++ codes "ms")
duration-IsCell n =
    IsSolid-IsCell (codes (to_string n) ++ codes "ms")
      (All-append IsSolid (codes (to_string n)) (codes "ms") (to_string-IsSolid n)
        ((refl, refl, refl), ((refl, refl, refl), tt)))
      (append-ne-nil (codes (to_string n)) (codes "ms") (to_string-ne-nil n))
