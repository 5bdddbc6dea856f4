-- ===== src/Scheduler/Files.antt =====
-- SaveTask and LoadTasks: a task as a Markdown file, with a front matter of `key: value` lines and a
-- table of its last runs.
pub mod Cells
pub mod Rows
pub mod Places
use claw.Base.{
  ℕ, suc, ◌-◌, ◌≤◌, String, ◌≡◌, Bool, true, false, ◌||◌, Option, none, some, List, [], ◌∷◌, ◌++◌,
  map, ◌==◌, string_eq, nat_eq, ltb, leb, if◌then◌else◌, length, to_string, decimal,
}
use claw.Base.Int.{ℤ, pos, negsuc, ◌-ℤ◌, leb_ℤ}
use claw.Base.Bytes.{Bytes, codes, bytes_eq, text_of}
use claw.Base.Find.{after, find, pieces}
use claw.Base.Dict.{insert}
use claw.Scheduler.Calendar.{Tm, Calendar, from_time_t, to_time_t}
use claw.Scheduler.Defs.{
  ScheduleType, TaskStatus, TaskExecEntry, ScheduledTask, Tasks, active, paused, is_once,
  compute_next_run,
}
use claw.Scheduler.Parse.{split_last, stoi, parse_schedule}
use claw.Scheduler.Views.{status_to_string, string_to_status}

-- What FormatTime and ParseTime call of the C library.
pub record Formats : Type 0 where
  -- with "%Y-%m-%dT%H:%M:%S", in at most 31 bytes
  pub strftime : Tm → Bytes
  -- with the same format, from a cleared structure: what it is then, and whether the text fits
  pub strptime_seconds : Bytes → Tm × Bool
  -- with "%Y-%m-%d %H:%M", from the structure that the other call left
  pub strptime_minutes : Bytes → Tm → Option Tm

-- The members of a task that no line of a file sets. The schedule type has no default: it is whatever
-- the memory holds.
abbrev pub blank_task : ScheduleType → ScheduledTask
blank_task held = record {
  id = "";
  schedule_type = held;
  schedule_expr = "";
  prompt = "";
  session_id = "";
  status = active;
  next_run = pos 0;
  created_at = pos 0;
  last_run = pos 0;
  run_count = 0;
  fail_count = 0;
  max_retries = 3;
  interval_seconds = pos 0;
  hour = pos 0;
  minute = pos 0;
  weekday = negsuc 0;
  history = [];
}

-- A line of the front matter, and what follows it.
abbrev pub field : String → Bytes → Bytes → Bytes
field key value text = codes key ++ (0x3a ∷ 0x20 ∷ value ++ (0x0a ∷ text))

abbrev pub quoted : Bytes → Bytes
quoted value = 0x22 ∷ value ++ (0x22 ∷ [])

abbrev pub title : Bytes
title = codes "## Execution History"

abbrev pub bar : Bytes → Bytes → Bytes
bar cell text = 0x20 ∷ cell ++ (0x20 ∷ 0x7c ∷ text)

abbrev pub row_line : ℤ → TaskExecEntry → Bytes
row_line num e =
    0x7c
    ∷ bar (codes (to_string num)) (
        bar (codes e.timestamp) (
          bar (codes e.status) (
            bar (codes (to_string e.duration_ms) ++ codes "ms") (bar (codes e.result_summary) []))))

-- The rows count down from the number of runs.
abbrev pub row_lines : ℤ → List TaskExecEntry → Bytes
row_lines num [] = []
row_lines num (e ∷ entries) = row_line num e ++ (0x0a ∷ row_lines (num -ℤ pos 1) entries)

abbrev pub table_text : ℤ → List TaskExecEntry → Bytes
table_text num [] = []
table_text num (e ∷ entries) =
    title
    ++ (0x0a ∷ 0x0a ∷ codes "| # | Timestamp | Status | Duration | Result |"
        ++ (0x0a ∷ codes "|---|-----------|--------|----------|--------|"
            ++ (0x0a ∷ row_lines num (e ∷ entries))))

-- Removes quotes at both ends.
abbrev pub unquote : Bytes → Bytes
unquote [] = []
unquote (c ∷ []) = c ∷ []
unquote (c ∷ d ∷ text) =
    let last = split_last d text in
    if c == 0x22 then (if last.1 == 0x22 then last.0 else c ∷ d ∷ text) else c ∷ d ∷ text

abbrev pub drop_spaces : Bytes → Bytes
drop_spaces [] = []
drop_spaces (c ∷ text) = if c == 0x20 then drop_spaces text else c ∷ text

abbrev cut_end : ℕ → Bytes → Bytes
cut_end c [] = if c == 0x20 then [] else c ∷ []
cut_end c (d ∷ text) = c ∷ d ∷ text

abbrev pub drop_end_spaces : Bytes → Bytes
drop_end_spaces [] = []
drop_end_spaces (c ∷ text) = cut_end c (drop_end_spaces text)

-- The cells of a row, without the spaces around them; a cell of nothing else is left out.
abbrev pub add_cell : Bytes → List Bytes → List Bytes
add_cell [] cells = cells
add_cell (c ∷ cell) cells = (c ∷ cell) ∷ cells

abbrev pub row_cells : List Bytes → List Bytes
row_cells [] = []
row_cells (piece ∷ pieces_) = add_cell (drop_end_spaces (drop_spaces piece)) (row_cells pieces_)

abbrev pub before_unit : Bytes → Option (Bytes × Bytes) → Bytes
before_unit dur none = dur
before_unit dur (some (number, rest)) = number

-- A duration that is no number leaves the default, 0.
abbrev pub read_duration : Option ℤ → ℤ
read_duration none = pos 0
read_duration (some v) = v

abbrev pub entry_of : Bytes → Bytes → Bytes → Bytes → TaskExecEntry
entry_of timestamp status dur result = record {
  timestamp = text_of timestamp;
  status = text_of status;
  duration_ms = read_duration (stoi (before_unit dur (find (codes "ms") dur)));
  result_summary = text_of result;
}

abbrev pub read_row : List Bytes → List TaskExecEntry
read_row (num ∷ timestamp ∷ status ∷ dur ∷ []) = entry_of timestamp status dur [] ∷ []
read_row (num ∷ timestamp ∷ status ∷ dur ∷ result ∷ more) =
    entry_of timestamp status dur result ∷ []
read_row _ = []

-- `skip` counts the lines of the table since its title: the first two are its head.
abbrev pub read_rows : ℕ → List Bytes → List TaskExecEntry
read_rows skip [] = []
read_rows skip ([] ∷ lines) = read_rows skip lines
read_rows skip ((c ∷ line) ∷ lines) =
    let below_title = read_rows 0 lines in
    let below_row = read_rows (suc skip) lines in
    let other = read_rows skip lines in
    if c == 0x23
    then below_title
    else if c == 0x7c
    then (if leb (suc skip) 2
        then below_row
        else read_row (row_cells (pieces 0x7c (c ∷ line))) ++ below_row)
    else other

abbrev pub rows_at : Option (Bytes × Bytes) → List TaskExecEntry
rows_at none = []
rows_at (some (before, rest)) = read_rows 0 (pieces 0x0a (title ++ rest))

unfoldable pub read_history : Bytes → List TaskExecEntry
read_history content = rows_at (find title content)
