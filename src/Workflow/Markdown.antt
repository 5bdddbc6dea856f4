-- ===== src/Workflow/Markdown.antt =====
-- How a workflow is read from its Markdown: ParseFrontmatter, ParseStepBlock and ParseMarkdown.
pub mod Sections
mod Tests
use claw.Base.{
  ℕ, zero, suc, ◌-◌, String, ◌⧺◌, Bool, true, false, ◌&&◌, ◌||◌, not, Option, none, some, List, [],
  ◌∷◌, ◌++◌, map, ◌==◌, nat_eq, string_eq, length, leb, if◌then◌else◌,
}
use claw.Base.Int.{ℤ, pos}
use claw.Base.Bytes.{Bytes, codes, text_of, bytes_eq}
use claw.Base.Find.{after, find, pieces}
use claw.Base.Text.Decimal.{is_digit}
use claw.Base.Dict.{Dict, lookup, insert}
use claw.Json.{JsonLib}
use claw.Scheduler.Parse.{stoi, is_blank, skip_space, tolower}
use claw.Workflow.Defs.{
  WorkflowStep, Workflow, Workflows, WorkflowStepType, prompt, string_to_step_type, create_workflow,
}

-- " \t\r\n"
abbrev pub is_margin : ℕ → Bool
is_margin c = c == 0x20 || c == 0x09 || c == 0x0d || c == 0x0a

abbrev pub trim_start : Bytes → Bytes
trim_start [] = []
trim_start (c ∷ text) = if is_margin c then trim_start text else c ∷ text

abbrev pub keep_end : ℕ → Bytes → Bytes
keep_end c [] = if is_margin c then [] else c ∷ []
keep_end c (d ∷ text) = c ∷ d ∷ text

abbrev pub trim_end : Bytes → Bytes
trim_end [] = []
trim_end (c ∷ text) = keep_end c (trim_end text)

abbrev pub trim : Bytes → Bytes
trim text = trim_end (trim_start text)

abbrev pub is_nil : Bytes → Bool
is_nil [] = true
is_nil (c ∷ text) = false

abbrev value_after : Option (Bytes × Bytes) → Bytes
value_after none = []
value_after (some (before, rest)) = trim rest

-- The value of "- key: value", wherever in the line it begins.
abbrev pub extract_meta_value : Bytes → String → Bytes
extract_meta_value line key = value_after (find (codes "- " ++ (codes key ++ (0x3a ∷ []))) line)

abbrev front_pair : Option (Bytes × Bytes) → Dict Bytes Bytes → Dict Bytes Bytes
front_pair none fm = fm
front_pair (some (key, value)) fm =
    if not (is_nil (trim key)) && not (is_nil (trim value))
    then insert (trim key) (trim value) fm
    else fm

abbrev front_lines : List Bytes → Dict Bytes Bytes → Dict Bytes Bytes
front_lines [] fm = fm
front_lines (line ∷ lines) fm = front_lines lines (front_pair (find (0x3a ∷ []) (trim line)) fm)

unfoldable pub parse_frontmatter : Bytes → Dict Bytes Bytes
parse_frontmatter block = front_lines (pieces 0x0a block) []

-- What ParseStepBlock keeps while it reads: the step, and the lines of an instruction over several.
pub record Block (J : Type 0) : Type 0 where
  pub step : WorkflowStep J
  pub in_multiline : Bool
  pub multiline_value : Bytes

-- [\d]+
abbrev pub take_digits : Bytes → Bytes × Bytes
take_digits [] = ([], [])
take_digits (c ∷ text) =
    let later = take_digits text in if is_digit c then (c ∷ later.0, later.1) else ([], c ∷ text)

-- (.*), which stops at the end of a line.
abbrev pub take_line : Bytes → Bytes × Bytes
take_line [] = ([], [])
take_line (c ∷ text) =
    let later = take_line text in
    if c == 0x0a || c == 0x0d then ([], c ∷ text) else (c ∷ later.0, later.1)

-- \s+
abbrev pub some_blank : Bytes → Option Bytes
some_blank [] = none
some_blank (c ∷ text) = if is_blank c then some (skip_space text) else none

abbrev pub after_icase : Bytes → Bytes → Option Bytes
after_icase [] text = some text
after_icase (p ∷ pattern) [] = none
after_icase (p ∷ pattern) (c ∷ text) =
    let later = after_icase pattern text in if p == tolower c then later else none

abbrev pub header_end : Bytes → Option Bytes → Option (Bytes × Bytes × Bytes)
header_end num none = none
header_end num (some rest) = let line = take_line (skip_space rest) in some (num, line.0, line.1)

abbrev pub header_number : Bytes × Bytes → Option (Bytes × Bytes × Bytes)
header_number ([], rest) = none
header_number (d ∷ num, rest) = header_end (d ∷ num) (after (0x3a ∷ []) (skip_space rest))

infixl 20 ◌then◌
abbrev ◌then◌ : Option Bytes → (Bytes → Option Bytes) → Option Bytes
none then f = none
(some text) then f = f text

abbrev pub header_digits : Option Bytes → Option (Bytes × Bytes × Bytes)
header_digits none = none
header_digits (some rest) = header_number (take_digits rest)

-- The regular expression ##\s+Step\s+(\d+)\s*:\s*(.*) at the start of a text, in any case: the number,
-- the title, and what follows. No part of it can give back what it has taken and still match.
abbrev pub step_header : Bytes → Option (Bytes × Bytes × Bytes)
step_header text =
    header_digits (
      after (0x23 ∷ 0x23 ∷ []) text then some_blank then after_icase (codes "step") then some_blank)

pub record RawStep : Type 0 where
  pub number : Bytes
  pub title : Bytes
  pub body : Bytes

-- The text before the first header, and the steps; `skip` characters are those of a header.
abbrev pub split_steps : ℕ → Bytes → Bytes × List RawStep
split_steps skip [] = ([], [])
split_steps (suc skip) (c ∷ text) = split_steps skip text
split_steps zero (c ∷ text) = elim (step_header (c ∷ text)) [
  | none ↦ let later = split_steps zero text in (c ∷ later.0, later.1)
  | some (num, title, rest) ↦
      let later = split_steps (length text - length rest) text in
      ([], record { number = num; title = trim title; body = later.0 } ∷ later.1)
]

module _ (json : JsonLib) where
  open json use {Json, parse, of_items, null}

  abbrev pub blank_step : Bytes → Bytes → WorkflowStep Json
  blank_step id title = record {
    id = text_of id;
    description = text_of title;
    type = prompt;
    instruction = "";
    tool_name = "";
    args = null;
    output_var = "";
    skip_on_failure = false;
    max_retries = pos 0;
  }

  abbrev or_zero : Option ℤ → ℤ
  or_zero none = pos 0
  or_zero (some n) = n

  abbrev or_object : Option Json → Json
  or_object none = of_items []
  or_object (some j) = j

  abbrev set_instruction : Bytes → Block Json → Block Json
  set_instruction val b =
      if val == codes "|"
      then record b { in_multiline = true }
      else record b { step = record b.step { instruction = text_of val } }

  -- A line that no instruction takes.
  abbrev pub read_meta : Bytes → Block Json → Block Json
  read_meta trimmed b =
      let type = extract_meta_value trimmed "type" in
      let instruction = extract_meta_value trimmed "instruction" in
      let tool_name = extract_meta_value trimmed "tool_name" in
      let output_var = extract_meta_value trimmed "output_var" in
      let skip = extract_meta_value trimmed "skip_on_failure" in
      let retries = extract_meta_value trimmed "max_retries" in
      let args = extract_meta_value trimmed "args" in
      if is_nil trimmed
      then b
      else if not (is_nil type)
      then record b { step = record b.step { type = string_to_step_type (text_of type) } }
      else if not (is_nil instruction)
      then set_instruction instruction b
      else if not (is_nil tool_name)
      then record b { step = record b.step { tool_name = text_of tool_name } }
      else if not (is_nil output_var)
      then record b { step = record b.step { output_var = text_of output_var } }
      else if not (is_nil skip)
      then record b { step = record b.step { skip_on_failure = skip == codes "true" } }
      else if not (is_nil retries)
      then record b { step = record b.step { max_retries = or_zero (stoi retries) } }
      else if not (is_nil args)
      then record b { step = record b.step { args = or_object (parse (text_of args)) } }
      else b

  abbrev pub flush : Block Json → Block Json
  flush b = record {
    step = record b.step { instruction = text_of (trim b.multiline_value) };
    in_multiline = false;
    multiline_value = [];
  }

  abbrev has_colon : Option (Bytes × Bytes) → Bool
  has_colon none = false
  has_colon (some p) = true

  abbrev begins : Option Bytes → Bool
  begins none = false
  begins (some rest) = true

  -- A line that ends an instruction over several lines.
  abbrev pub is_meta : Bytes → Bool
  is_meta trimmed = begins (after (codes "- ") trimmed) && has_colon (find (0x3a ∷ []) trimmed)

  abbrev pub read_step_line : Bytes → Block Json → Block Json
  read_step_line line b =
      if not b.in_multiline
      then read_meta (trim line) b
      else if is_meta (trim line)
      then read_meta (trim line) (flush b)
      else record b { multiline_value = b.multiline_value ++ (line ++ (0x0a ∷ [])) }

  abbrev pub read_step_lines : List Bytes → Block Json → Block Json
  read_step_lines [] b = b
  read_step_lines (line ∷ lines) b = read_step_lines lines (read_step_line line b)

  abbrev pub end_block : Block Json → WorkflowStep Json
  end_block b =
      let step = (if b.in_multiline then flush b else b).step in
      if step.output_var == "" then record step { output_var = step.id } else step

  unfoldable pub parse_step_block : Bytes → Bytes → Bytes → WorkflowStep Json
  parse_step_block id title body = end_block (
      read_step_lines (pieces 0x0a body)
        (record { step = blank_step id title; in_multiline = false; multiline_value = [] }))

  unfoldable pub parse_steps : Bytes → List (WorkflowStep Json)
  parse_steps body =
      map (λ (r : RawStep). parse_step_block (codes "step_" ++ r.number) r.title r.body)
        (split_steps 0 body).1

  abbrev or_else : String → Option Bytes → String
  or_else d none = d
  or_else d (some value) = text_of value

  -- The workflow of a front matter, which is null where it has no member: value then throws.
  abbrev pub with_front : String → Bytes → Dict Bytes Bytes → Option (Workflow Json)
  with_front markdown body [] = none
  with_front markdown body (pair ∷ pairs) =
      let fm = pair ∷ pairs in
      some (record {
        id = "";
        name = or_else "" (lookup (codes "name") fm);
        description = or_else "" (lookup (codes "description") fm);
        trigger = or_else "manual" (lookup (codes "trigger") fm);
        steps = parse_steps body;
        raw_markdown = markdown;
      })

  abbrev without_front : String → Workflow Json
  without_front markdown = record {
    id = "";
    name = "";
    description = "";
    trigger = "";
    steps = parse_steps (codes markdown);
    raw_markdown = markdown;
  }

  abbrev second_delim : String → Option (Bytes × Bytes) → Option (Workflow Json)
  second_delim markdown none = some (without_front markdown)
  second_delim markdown (some (yaml, body)) = with_front markdown body (parse_frontmatter yaml)

  abbrev first_delim : String → Option Bytes → Option (Workflow Json)
  first_delim markdown none = some (without_front markdown)
  first_delim markdown (some rest) = second_delim markdown (find (codes "---") rest)

  -- ParseMarkdown; `none` where it throws.
  unfoldable pub parse_markdown : String → Option (Workflow Json)
  parse_markdown markdown = first_delim markdown (after (codes "---") (trim (codes markdown)))

  -- CreateWorkflow, but for the file and the index that it writes at its end; `none` where it throws.
  unfoldable pub create_from_markdown :
      Workflows Json → String → String → Option (Workflows Json × String)
  create_from_markdown workflows markdown id = elim (parse_markdown markdown) [
    | none ↦ none
    | some wf ↦ some (create_workflow workflows wf id)
  ]
