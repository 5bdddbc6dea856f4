-- ===== src/Pipeline/Store/Tests.antt =====
-- A table of pipelines at concrete changes.
use claw.Base.{◌≡◌, refl, none, List, [], ◌∷◌, string_eq}
use claw.Base.Int.{pos}
use claw.Base.Dict.{lookup}
use claw.TestJson.{
  Value, obj, arr, str, num, field, cons, nil, end, test_json, test_json-IsStandard,
}
use claw.Pipeline.Store.{load_pipelines}
use claw.Pipeline.Store.Directory.{restored}
use claw.Pipeline.Store.Restart.{Change, creates, deletes, changes, empty, load_pipelines-changes}

abbrev definition : Value
definition = obj (
    field "name" (str "daily") (
      field "steps"
        (arr (
          cons (obj (field "tool_name" (str "weather") (field "max_retries" (num (pos 2)) end)))
            nil))
        end))

-- The second definition has no name.
abbrev history : List (Change Value)
history =
    creates "pipe-1" definition
    ∷ creates "pipe-2" (obj end)
    ∷ creates "pipe-3" definition
    ∷ deletes "pipe-3"
    ∷ []

load_pipelines-changes_example :
    lookup "pipe-1"
      (load_pipelines test_json (record (changes test_json (empty test_json) history) {
        files = (changes test_json (empty test_json) history).files;
      })).pipelines
    ≡ restored test_json
        (lookup "pipe-1" (changes test_json (empty test_json) history).pipelines)
        none
unfolding changes claw.Pipeline.Store.Restart.change claw.Pipeline.Store.Restart.after_create
    claw.Pipeline.Store.create_pipeline claw.Pipeline.Store.define_pipeline
    claw.Pipeline.Store.delete_pipeline claw.Pipeline.Store.save_pipeline
    claw.Pipeline.Store.read_step claw.Base.Dict.insert claw.Base.Dict.erase claw.Base.Dict.lookup
load_pipelines-changes_example =
    load_pipelines-changes test_json test_json-IsStandard history "pipe-1"
      (changes test_json (empty test_json) history).files (refl, (refl, (refl, (tt, tt))))
      (refl, tt) (λ n. refl)
