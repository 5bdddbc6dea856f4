-- ===== src/ToolPolicy/Tests.antt =====
-- The tool policy at concrete inputs.
use claw.Base.{String, ℕ, ◌≡◌, ◌↔◌, List, [], ◌∷◌, ◌++◌, true, string_eq}
use claw.Base.Dict.{entry-nil}
use claw.TestJson.{Value, null, test_json}
use claw.ToolPolicy.Defs.{ToolPolicy, default_config, check_policy, check_idle_progress, hash_call}
use claw.ToolPolicy.Counts.{Op, call, output, reset, run, tally, recorded}
use claw.ToolPolicy.Verdicts.{Allows, check_policy-run}
use claw.ToolPolicy.Idle.{EndsIdle, since_reset, check_idle_progress-run}

abbrev pub fresh : ToolPolicy
fresh = record { config = default_config; call_history = []; idle_history = [] }

-- Every text hashes alike.
abbrev pub same_hash : String → ℕ
same_hash s = 7

abbrev three_calls : List (Op Value)
three_calls =
    call "s" "get_info" null
    ∷ call "s" "get_info" null
    ∷ output "s" "x"
    ∷ call "t" "get_info" null
    ∷ []

abbrev stuck_outputs : List (Op Value)
stuck_outputs = output "s" "x" ∷ reset "s" ∷ output "s" "y" ∷ output "s" "y" ∷ []

check_policy-run_example :
    ((check_policy test_json same_hash
        (run test_json same_hash fresh three_calls)
        "s"
        "get_info"
        null).1
      ≡ "")
    ↔ Allows test_json same_hash default_config "get_info" (
        tally test_json same_hash [] "s"
          (hash_call test_json same_hash "get_info" null)
          (recorded test_json same_hash fresh "s" (hash_call test_json same_hash "get_info" null))
          three_calls)
check_policy-run_example =
    check_policy-run test_json same_hash fresh three_calls "s" "get_info" null

check_idle_progress-run_example :
    ((check_idle_progress (run test_json same_hash fresh stuck_outputs) "s" "y").1 ≡ true)
    ↔ EndsIdle (since_reset test_json same_hash "s" [] stuck_outputs ++ "y" ∷ [])
check_idle_progress-run_example =
    check_idle_progress-run test_json same_hash fresh stuck_outputs "s" "y" (entry-nil [] "s")
