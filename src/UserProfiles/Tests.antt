-- ===== src/UserProfiles/Tests.antt =====
-- The profile store at concrete inputs.
use claw.Base.{◌≡◌, true, none, List, [], ◌∷◌, ◌==◌, string_eq, if◌then◌else◌}
use claw.TestJson.{Value, test_json}
use claw.SafetyGuard.Defs.{guest, admin}
use claw.UserProfiles.{UserProfile, delete_profile, get_user_id_for_session, session_role}
use claw.UserProfiles.Roles.{Call, upserts, binds, run, session_role-delete_profile}

abbrev owner : UserProfile Value
owner = record { user_id = "u"; name = "Owner"; role = admin; preferences = none; voice_id = "" }

abbrev calls : List (Call test_json)
calls = upserts owner true ∷ binds "s" "u" ∷ binds "t" "v" ∷ []

session_role-delete_profile_example :
    let s = run test_json (record { profiles = []; session_user_map = [] }) calls in
    session_role (delete_profile s "u" true).0 "s"
    ≡ (if get_user_id_for_session s "s" == "u" then guest else session_role s "s")
session_role-delete_profile_example = session_role-delete_profile test_json calls "u" "s" true
