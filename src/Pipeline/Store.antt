-- ===== src/Pipeline/Store.antt =====
-- The table of pipelines and its directory: CreatePipeline, DeletePipeline, ListPipelines, SavePipeline
-- and LoadPipelines. A file is its name and what a parser finds in it; what dump(2) writes is found
-- again as the same value. The directory is read in the order of its list.
mod Files
mod Names
mod Directory
mod Restart
mod Tests
use claw.Base.{
  ℕ, zero, suc, ◌-◌, String, ◌⧺◌, to_string, Bool, true, false, not, ◌&&◌, ◌||◌, Option, none, some,
  List, [], ◌∷◌, ◌++◌, map, length, drop, ltb, decimal, ◌==◌, string_eq, if◌then◌else◌,
}
use claw.Base.Int.{ℤ, pos, ltb_ℤ}
use claw.Base.Bytes.{Bytes, codes, bytes_eq}
use claw.Base.Dict.{Dict, lookup, insert, erase, member}
use claw.Base.Options.{◌>>=◌}
use claw.Json.{JsonLib, ConfigFile, missing, malformed, holds, value}
use claw.Pipeline.Defs.{PipelineStepType, tool, prompt, condition, PipelineStep, Pipeline}

unfoldable pub step_type_to_string : PipelineStepType → String
step_type_to_string tool = "tool"
step_type_to_string prompt = "prompt"
step_type_to_string condition = "condition"

unfoldable pub string_to_step_type : String → PipelineStepType
string_to_step_type s =
    if s == "prompt" then prompt else if s == "condition" then condition else tool

pub record Store (J : Type 0) : Type 0 where
  pub pipelines : Dict String (Pipeline J)
  pub files : Dict Bytes (ConfigFile J)

abbrev pub file_name : String → Bytes
file_name id = codes id ++ codes ".json"

-- fname.size() >= 6, and its last five characters.
unfoldable pub is_pipeline_file : Bytes → Bool
is_pipeline_file fname =
    if ltb (length fname) 6 then false else (drop (length fname - 5) fname == codes ".json")

module _ (json : JsonLib) where
  open json use {
    Json, is_null, is_array, is_empty, at, get_string, get_int, get_bool, elements, null, of_string,
    of_int, of_bool, of_items, of_elements,
  }

  -- A member that is written only under a condition.
  unfoldable pub optional : Bool → String → Json → List (String × Json) → List (String × Json)
  optional true key j rest = (key, j) ∷ rest
  optional false key j rest = rest

  abbrev pub text_member : String → String → List (String × Json) → List (String × Json)
  text_member key text rest = optional (not (text == "")) key (of_string text) rest

  unfoldable pub step_json : PipelineStep Json → Json
  step_json s = of_items (
      ("id", of_string s.id)
      ∷ ("type", of_string (step_type_to_string s.type))
      ∷ text_member "tool_name" s.tool_name (
          optional (not (is_null s.args) && not (is_empty s.args)) "args" s.args (
            text_member "prompt" s.prompt_text (
              text_member "condition" s.condition_text (
                text_member "then_step" s.then_step (
                  text_member "else_step" s.else_step (
                    optional s.skip_on_failure "skip_on_failure" (of_bool true) (
                      optional (ltb_ℤ (pos 0) s.max_retries) "max_retries" (of_int s.max_retries)
                        (text_member "output_var" s.output_var [])))))))))

  unfoldable pub pipeline_json : Pipeline Json → Json
  pipeline_json p = of_items (
      ("id", of_string p.id)
      ∷ ("name", of_string p.name)
      ∷ ("description", of_string p.description)
      ∷ ("trigger", of_string p.trigger)
      ∷ ("steps", of_elements (map step_json p.steps))
      ∷ [])

  abbrev pub args_of : Option Json → Json
  args_of none = null
  args_of (some args) = args

  -- A step of a definition or of a file, with the defaults of its id and, given its id, of its
  -- output variable; `none` where a conversion throws.
  unfoldable pub read_step : String → (String → String) → Json → Option (PipelineStep Json)
  read_step default_id default_var sj = do
    id ← value json get_string sj "id" default_id
    type ← value json get_string sj "type" "tool"
    tool_name ← value json get_string sj "tool_name" ""
    prompt_text ← value json get_string sj "prompt" ""
    condition_text ← value json get_string sj "condition" ""
    then_step ← value json get_string sj "then_step" ""
    else_step ← value json get_string sj "else_step" ""
    skip_on_failure ← value json get_bool sj "skip_on_failure" false
    max_retries ← value json get_int sj "max_retries" (pos 0)
    output_var ← value json get_string sj "output_var" (default_var id)
    some (record {
      id = id;
      type = string_to_step_type type;
      tool_name = tool_name;
      args = args_of (at sj "args");
      prompt_text = prompt_text;
      condition_text = condition_text;
      then_step = then_step;
      else_step = else_step;
      skip_on_failure = skip_on_failure;
      max_retries = max_retries;
      output_var = output_var;
    })

  abbrev pub put_step :
      Option (PipelineStep Json)
      → Option (List (PipelineStep Json))
      → Option (List (PipelineStep Json))
  put_step none later = none
  put_step (some s) none = none
  put_step (some s) (some later) = some (s ∷ later)

  -- The loop of LoadPipelineFile.
  abbrev pub read_steps : List Json → Option (List (PipelineStep Json))
  read_steps [] = some []
  read_steps (sj ∷ rest) = put_step (read_step "" (λ id. "") sj) (read_steps rest)

  -- The loop of CreatePipeline, from a number on.
  abbrev pub define_steps : ℕ → List Json → Option (List (PipelineStep Json))
  define_steps step_idx [] = some []
  define_steps step_idx (sj ∷ rest) =
      put_step (read_step ("step_" ⧺ decimal step_idx) (λ id. id) sj)
        (define_steps (suc step_idx) rest)

  -- Where "steps" is absent or no array there are none.
  abbrev pub steps_in :
      (List Json → Option (List (PipelineStep Json)))
      → Option Json
      → Option (List (PipelineStep Json))
  steps_in read none = some []
  steps_in read (some j) = if is_array j then read (elements j) else some []

  unfoldable pub load_pipeline_file : Json → Option (Pipeline Json)
  load_pipeline_file j = do
    id ← value json get_string j "id" ""
    name ← value json get_string j "name" ""
    description ← value json get_string j "description" ""
    trigger ← value json get_string j "trigger" "manual"
    steps ← steps_in read_steps (at j "steps")
    some (record {
      id = id;
      name = name;
      description = description;
      steps = steps;
      trigger = trigger;
    })

  abbrev pub keep_loaded :
      Option (Pipeline Json) → Dict String (Pipeline Json) → Dict String (Pipeline Json)
  keep_loaded none pipelines = pipelines
  keep_loaded (some p) pipelines = if p.id == "" then pipelines else insert p.id p pipelines

  abbrev pub load_json : ConfigFile Json → Dict String (Pipeline Json) → Dict String (Pipeline Json)
  load_json missing pipelines = pipelines
  load_json malformed pipelines = pipelines
  load_json (holds j) pipelines = keep_loaded (load_pipeline_file j) pipelines

  -- The loop of LoadPipelines.
  unfoldable pub load_each :
      Dict Bytes (ConfigFile Json) → Dict String (Pipeline Json) → Dict String (Pipeline Json)
  load_each [] pipelines = pipelines
  load_each ((fname, content) ∷ files) pipelines =
      load_each files (if is_pipeline_file fname then load_json content pipelines else pipelines)

  -- LoadPipelines, where the directory can be opened.
  abbrev pub load_pipelines : Store Json → Store Json
  load_pipelines s = record s { pipelines = load_each s.files [] }

  -- SavePipeline, and whether its file can be written.
  unfoldable pub save_pipeline : Bool → Pipeline Json → Store Json → Store Json
  save_pipeline writable p s =
      if writable
      then record s { files = insert (file_name p.id) (holds (pipeline_json p)) s.files }
      else s

  abbrev no_steps : List (PipelineStep Json) → Bool
  no_steps [] = true
  no_steps (s ∷ steps) = false

  -- The pipeline that CreatePipeline stores, if any; `none` where a conversion throws.
  abbrev pub usable : Pipeline Json → Option (Pipeline Json)
  usable p = if (p.name == "") || no_steps p.steps then none else some p

  -- The members in their order: without a name the steps are not read.
  unfoldable pub define_pipeline : String → Json → Option (Option (Pipeline Json))
  define_pipeline id def = do
    name ← value json get_string def "name" ""
    description ← value json get_string def "description" ""
    trigger ← value json get_string def "trigger" "manual"
    let steps_read = steps_in (define_steps 0) (at def "steps")
    steps ← if name == "" then some [] else steps_read
    some (
        usable (record {
          id = id;
          name = name;
          description = description;
          steps = steps;
          trigger = trigger;
        }))

  abbrev pub store_defined : Bool → Option (Pipeline Json) → Store Json → Store Json × String
  store_defined writable none s = (s, "")
  store_defined writable (some p) s =
      (save_pipeline writable p (record s { pipelines = insert p.id p s.pipelines }), p.id)

  -- CreatePipeline with the id that GeneratePipelineId gives; `none` where it throws.
  unfoldable pub create_pipeline : Bool → String → Json → Store Json → Option (Store Json × String)
  create_pipeline writable id def s =
      define_pipeline id def >>= λ p. some (store_defined writable p s)

  unfoldable pub delete_pipeline : String → Store Json → Store Json × Bool
  delete_pipeline id s =
      if member id s.pipelines
      then (
        record s { pipelines = erase id s.pipelines; files = erase (file_name id) s.files },
        true,
      )
      else (s, false)

  abbrev list_entry : String × Pipeline Json → Json
  list_entry (id, p) = of_items (
      ("id", of_string id)
      ∷ ("name", of_string p.name)
      ∷ ("description", of_string p.description)
      ∷ ("trigger", of_string p.trigger)
      ∷ ("steps_count", of_int (pos (length p.steps)))
      ∷ [])

  abbrev pub list_pipelines : Store Json → Json
  list_pipelines s = of_elements (map list_entry s.pipelines)
