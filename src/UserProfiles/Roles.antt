-- ===== src/UserProfiles/Roles.antt =====
-- Which role a session has, over any history of the store.
use claw.Base.{
  String, ◌≡◌, Bool, Option, none, some, List, [], ◌∷◌, arith, not, if_cases, ◌==◌, eq_iff,
  string_eq, if◌then◌else◌,
}
use claw.Base.Dict.{
  Distinct, Distinct-insert, Distinct-keep_if, lookup, insert, member, lookup-insert, lookup-erase,
  lookup-keep_if, lookup-nil,
}
use claw.Base.Attempt.{caught}
use claw.Base.Keeps.{
  Keeps, Keeps-done, Keeps-modify, Keeps-require, Keeps-if, Keeps-bind, Keeps-for_each,
  Keeps-when_present,
}
use claw.Json.{JsonLib, ConfigFile, missing, malformed, holds}
use claw.SafetyGuard.Defs.{guest}
use claw.UserProfiles.{
  UserProfile, UserProfileStore, get_profile, upsert_profile, unbind, delete_profile,
  get_user_id_for_session, bind_session, session_role, load_profile, load_profiles, initialize,
}

module _ (json : JsonLib) where
  open json use {Json}

  -- No profile stands under the empty name, which is what an unbound session looks up, and a
  -- session is bound once.
  record IsSound (s : UserProfileStore Json) : Type 0 where
    nameless : lookup "" s.profiles ≡ none
    distinct : Distinct s.session_user_map

  pub data Call : Type 0 where
    initializes : ConfigFile Json → Call
    upserts : UserProfile Json → Bool → Call
    deletes : String → Bool → Call
    binds : String → String → Call

  unfoldable pub step : UserProfileStore Json → Call → UserProfileStore Json
  step s (initializes file) = (initialize json s file).0
  step s (upserts p saved) = (upsert_profile s p saved).0
  step s (deletes user saved) = (delete_profile s user saved).0
  step s (binds session user) = bind_session s session user

  unfoldable pub run : UserProfileStore Json → List Call → UserProfileStore Json
  run s [] = s
  run s (c ∷ cs) = run (step s c) cs

  ruleset loader_rules = (
    Keeps-done, Keeps-modify, Keeps-require, Keeps-if, Keeps-bind, Keeps-for_each,
    Keeps-when_present,
  )

  IsSound-insert :
      (p : UserProfile Json) (key : String) (s : UserProfileStore Json)
      → IsSound s
      → IsSound (if key == "" then s else record s { profiles = insert key p s.profiles })
  IsSound-insert p key s h =
      if_cases IsSound (key == "") _ _ (λ _. h)
        λ ne. record {
          nameless = ground (arith, h.nameless, lookup-insert key "" p s.profiles);
          distinct = h.distinct;
        }

  load_profile-IsSound : (item : Json) → Keeps IsSound (load_profile json item)
  unfolding load_profile
  load_profile-IsSound item = search (loader_rules, IsSound-insert) depth 15

  load_profiles-IsSound : (j : Json) → Keeps IsSound (load_profiles json j)
  unfolding load_profiles
  load_profiles-IsSound j = search (loader_rules, load_profile-IsSound) depth 15

  caught-IsSound :
      (r : Option (Unit {0}) × UserProfileStore Json) → IsSound r.1 → IsSound (caught r).0
  caught-IsSound (none, s) h = h
  caught-IsSound (some u, s) h = h

  step-IsSound : (s : UserProfileStore Json) (c : Call) → IsSound s → IsSound (step s c)
  unfolding step initialize upsert_profile delete_profile bind_session
  step-IsSound s (initializes missing) h = h
  step-IsSound s (initializes malformed) h = h
  step-IsSound s (initializes (holds j)) h =
      caught-IsSound (load_profiles json j s) ((load_profiles-IsSound j).at s h)
  step-IsSound s (upserts p saved) h =
      if_cases (λ (r : UserProfileStore Json × Bool). IsSound r.0) (p.user_id == "") _ _ (λ _. h)
        λ ne. rw ne at (IsSound-insert p p.user_id s h)
  step-IsSound s (deletes user saved) h =
      if_cases (λ (r : UserProfileStore Json × Bool). IsSound r.0) (member user s.profiles) _ _
        (λ _. record {
          nameless = ground (arith, h.nameless, lookup-erase user "" s.profiles);
          distinct = unfold unbind in Distinct-keep_if _ s.session_user_map h.distinct;
        })
        (λ _. h)
  step-IsSound s (binds session user) h = record {
    nameless = h.nameless;
    distinct = Distinct-insert session user s.session_user_map h.distinct;
  }

  run-IsSound : (s : UserProfileStore Json) (cs : List Call) → IsSound s → IsSound (run s cs)
  unfolding run
  run-IsSound s [] h = h
  run-IsSound s (c ∷ cs) h = run-IsSound (step s c) cs (step-IsSound s c h)

  lookup-unbind :
      (user session : String) (s : UserProfileStore Json)
      → IsSound s
      → lookup session (unbind user s.session_user_map)
        ≡ (elim (lookup session s.session_user_map) [
          | none ↦ none
          | some u ↦ if not (u == user) then some u else none
        ])
  unfolding unbind
  lookup-unbind user session s h =
      lookup-keep_if (λ u. not (u == user)) session s.session_user_map h.distinct

  role_after_delete :
      (s : UserProfileStore Json) (user session : String) (saved : Bool)
      → IsSound s
      → session_role (delete_profile s user saved).0 session
        ≡ (if get_user_id_for_session s session == user then guest else session_role s session)
  unfolding delete_profile get_user_id_for_session get_profile
  role_after_delete s user session saved h =
      let bound = get_user_id_for_session s session in
      ground (
        arith,
        h.nameless,
        lookup-unbind user session s h,
        lookup-erase user bound s.profiles,
        lookup-erase user "" s.profiles,
        eq_iff bound user,
        eq_iff user bound,
        eq_iff user "",
        eq_iff "" user,
      )

  -- After any history of a store that began empty, deleting a user leaves every session bound to
  -- that user with the role of a guest, and every other session with the role that it had.
  pub session_role-delete_profile :
      (calls : List Call) (user session : String) (saved : Bool)
      → let s = run (record { profiles = []; session_user_map = [] }) calls in
        session_role (delete_profile s user saved).0 session
        ≡ (if get_user_id_for_session s session == user then guest else session_role s session)
  session_role-delete_profile calls user session saved =
      role_after_delete _ user session saved
        (run-IsSound _ calls (record { nameless = lookup-nil ""; distinct = tt }))
