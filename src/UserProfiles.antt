-- ===== src/UserProfiles.antt =====
-- User profiles and the binding of sessions to users (core/user_profile_store.hh,
-- core/user_profile_store.cc). The file written by SaveToDisk is outside; its outcome is an argument.
pub mod Roles
pub mod Tests
use claw.Base.{
  String, Bool, true, false, Option, none, some, List, [], ◌∷◌, keep_if, not, ◌==◌, string_eq,
  if◌then◌else◌,
}
use claw.Base.Dict.{Dict, lookup, insert, erase, member}
use claw.Base.Attempt.{Attempt, done, modify, require, for_each, when_present, caught, ◌>>=◌, ◌>>◌}
use claw.Json.{JsonLib, ConfigFile, missing, malformed, holds, value}
use claw.SafetyGuard.Defs.{UserRole, guest, child, member as role_member, admin}

unfoldable pub role_to_string : UserRole → String
role_to_string guest = "guest"
role_to_string child = "child"
role_to_string role_member = "member"
role_to_string admin = "admin"

unfoldable pub string_to_role : String → UserRole
string_to_role s =
    if s == "admin"
    then admin
    else if s == "member"
    then role_member
    else if s == "child"
    then child
    else guest

pub record UserProfile (J : Type 0) : Type 0 where
  pub user_id : String
  pub name : String
  pub role : UserRole
  pub preferences : Option J
  pub voice_id : String

pub record UserProfileStore (J : Type 0) : Type 0 where
  pub profiles : Dict String (UserProfile J)
  pub session_user_map : Dict String String

-- The loop that erases every session bound to the user.
unfoldable pub unbind : String → Dict String String → Dict String String
unbind user_id = keep_if (λ b. not (b.1 == user_id))

module _ {J : Type 0} where
  unfoldable pub get_profile : UserProfileStore J → String → UserProfile J
  get_profile s user_id = elim (lookup user_id s.profiles) [
    | some p ↦ p
    | none ↦ record {
      user_id = if user_id == "" then "guest_default" else user_id;
      name = "Guest";
      role = guest;
      preferences = none;
      voice_id = "";
    }
  ]

  unfoldable pub upsert_profile :
      UserProfileStore J → UserProfile J → Bool → UserProfileStore J × Bool
  upsert_profile s p saved =
      if p.user_id == ""
      then (s, false)
      else (record s { profiles = insert p.user_id p s.profiles }, saved)

  unfoldable pub delete_profile : UserProfileStore J → String → Bool → UserProfileStore J × Bool
  delete_profile s user_id saved =
      if member user_id s.profiles
      then (
        record {
          profiles = erase user_id s.profiles;
          session_user_map = unbind user_id s.session_user_map;
        },
        saved,
      )
      else (s, false)

  unfoldable pub get_user_id_for_session : UserProfileStore J → String → String
  get_user_id_for_session s session = elim (lookup session s.session_user_map) [
    | some user ↦ user
    | none ↦ ""
  ]

  unfoldable pub bind_session : UserProfileStore J → String → String → UserProfileStore J
  bind_session s session user_id = record s {
    session_user_map = insert session user_id s.session_user_map;
  }

  -- The role that AgentCore looks up for the session of a tool call.
  abbrev pub session_role : UserProfileStore J → String → UserRole
  session_role s session = (get_profile s (get_user_id_for_session s session)).role

module _ (json : JsonLib) where
  open json use {Json, at, is_array, get_string, elements}

  abbrev Loader : Type 0 → Type 0
  Loader A = Attempt (UserProfileStore Json) A

  unfoldable pub load_profile : Json → Loader (Unit {0})
  load_profile item = do
    user_id ← require (value json get_string item "user_id" "")
    name ← require (value json get_string item "name" "Unknown")
    role ← require (value json get_string item "role" "guest")
    voice_id ← require (value json get_string item "voice_id" "")
    modify (λ s. if user_id == "" then s else record s {
      profiles =
          insert user_id
            (record {
              user_id = user_id;
              name = name;
              role = string_to_role role;
              preferences = at item "preferences";
              voice_id = voice_id;
            })
            s.profiles;
    })

  unfoldable pub load_profiles : Json → Loader (Unit {0})
  load_profiles j =
      when_present (at j "profiles")
        λ v. if is_array v then for_each (elements v) load_profile else done

  unfoldable pub initialize : UserProfileStore Json → ConfigFile Json → UserProfileStore Json × Bool
  initialize s missing = (s, true)
  initialize s malformed = (s, false)
  initialize s (holds j) = caught (load_profiles j s)
