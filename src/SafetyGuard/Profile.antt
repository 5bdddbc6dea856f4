-- ===== src/SafetyGuard/Profile.antt =====
-- Loading a device profile can only restrict what Validate allows; clamping against its bounds.
use claw.Base.{
  String, ◌≡◌, refl, sym, subst, Bool, true, false, Option, none, some, List, [], ◌∷◌, ◌++◌, All,
  arith, if_cases, ◌==◌, eq_iff, string_eq, if◌then◌else◌,
}
use claw.Base.Dict.{entry, insert, entry-insert}
use claw.Base.Attempt.{caught}
use claw.Base.Keeps.{
  Keeps, Keeps-done, Keeps-modify, Keeps-require, Keeps-if, Keeps-bind, Keeps-for_each,
  Keeps-when_present,
}
use claw.Json.{JsonLib, ConfigFile, missing, malformed, holds}
use claw.SafetyGuard.Defs.{Doubles, UserRole, SafetyBound, SafetyGuard}
use claw.SafetyGuard.Check.{listed, validate}
use claw.SafetyGuard.Allowed.{permitted, allowed, IsWithin}
use claw.SafetyGuard.Load.{
  read_bound, merge_bound, merge_bounds, load_profile, load_device_profile, push_capability,
  push_excluded, push_bound, with_profile,
}

listed-append :
    (tool s : String) (l : List String) → listed tool (l ++ s ∷ []) ≡ false → listed tool l ≡ false
listed-append tool s [] h = refl
listed-append tool s (x ∷ l) h = ground (arith, listed-append tool s l)

All-append_left {ℓ κ} : {A : Type ℓ} (P : A → Type κ) (xs ys : List A) → All P (xs ++ ys) → All P xs
All-append_left P [] ys h = tt
All-append_left P (x ∷ xs) ys h = (h.0, All-append_left P xs ys h.1)

module _ (json : JsonLib) (doubles : Doubles json) where
  open json use {Json}
  open doubles use {Double}

  -- Everything that the first guard restricts, the second restricts too.
  record Tightens (g g' : SafetyGuard Double) : Type 0 where
    guests : g'.guest_restricted_tools ≡ g.guest_restricted_tools
    children : g'.child_restricted_tools ≡ g.child_restricted_tools
    excluded :
        (tool : String)
        → listed tool g'.device_profile.excluded_tools ≡ false
        → listed tool g.device_profile.excluded_tools ≡ false
    bounds :
        (tool : String) (args : Json)
        → All (IsWithin json doubles args) (entry [] tool g'.bounds)
        → All (IsWithin json doubles args) (entry [] tool g.bounds)

  module _ (g : SafetyGuard Double) where
    Tightens-push_bound :
        (tool : String) (b : SafetyBound Double) (s : SafetyGuard Double)
        → Tightens g s
        → Tightens g (push_bound json doubles tool b s)
    Tightens-push_bound tool b s t =
        if_cases (Tightens g) (b.param_name == "") _ _ (λ _. t)
          λ _. record {
            guests = t.guests;
            children = t.children;
            excluded = t.excluded;
            bounds = λ other args h. t.bounds other args (pushed other args h);
          }
      where
        pushed :
            (other : String) (args : Json)
            → All
                (IsWithin json doubles args)
                (entry [] other (insert tool (entry [] tool s.bounds ++ b ∷ []) s.bounds))
            → All (IsWithin json doubles args) (entry [] other s.bounds)
        pushed other args h =
            unpush (tool == other) refl
              (subst (All (IsWithin json doubles args)) (entry-insert [] tool other _ s.bounds) h)
          where
            unpush :
                (same : Bool)
                → (tool == other) ≡ same
                → All
                    (IsWithin json doubles args)
                    (if same then entry [] tool s.bounds ++ b ∷ [] else entry [] other s.bounds)
                → All (IsWithin json doubles args) (entry [] other s.bounds)
            unpush true e h =
                subst (λ k. All (IsWithin json doubles args) (entry [] k s.bounds))
                  ((eq_iff tool other).0 e) (All-append_left _ (entry [] tool s.bounds) (b ∷ []) h)
            unpush false e h = h

    Tightens-push_excluded :
        (x : String) (s : SafetyGuard Double)
        → Tightens g s
        → Tightens g (push_excluded json doubles x s)
    Tightens-push_excluded x s t = record {
      guests = t.guests;
      children = t.children;
      excluded = λ tool h. t.excluded tool (listed-append tool x s.device_profile.excluded_tools h);
      bounds = t.bounds;
    }

    Tightens-push_capability :
        (x : String) (s : SafetyGuard Double)
        → Tightens g s
        → Tightens g (push_capability json doubles x s)
    Tightens-push_capability x s t = record {
      guests = t.guests;
      children = t.children;
      excluded = t.excluded;
      bounds = t.bounds;
    }

    Tightens-device_type :
        (device : String) (s : SafetyGuard Double)
        → Tightens g s
        → Tightens g (with_profile json doubles (λ p. record p { device_type = device }) s)
    Tightens-device_type device s t = record {
      guests = t.guests;
      children = t.children;
      excluded = t.excluded;
      bounds = t.bounds;
    }

    ruleset profile_rules = (
      Keeps-done, Keeps-modify, Keeps-require, Keeps-if, Keeps-bind, Keeps-for_each,
      Keeps-when_present, Tightens-push_bound, Tightens-push_excluded, Tightens-push_capability,
      Tightens-device_type,
    )

    read_bound-Tightens : (d : String) (p : Json) → Keeps (Tightens g) (read_bound json doubles d p)
    unfolding read_bound
    read_bound-Tightens d p = search profile_rules depth 15

    merge_bound-Tightens :
        (tool : String) (p : Json) → Keeps (Tightens g) (merge_bound json doubles tool p)
    unfolding merge_bound
    merge_bound-Tightens tool p =
        Keeps-bind (read_bound json doubles "device-specific bound" p) _ (read_bound-Tightens _ p)
          (λ b. Keeps-modify _ (Tightens-push_bound tool b))

    merge_bounds-Tightens :
        (item : String × Json) → Keeps (Tightens g) (merge_bounds json doubles item)
    unfolding merge_bounds
    merge_bounds-Tightens (tool, params) = search (profile_rules, merge_bound-Tightens) depth 15

    load_profile-Tightens : (j : Json) → Keeps (Tightens g) (load_profile json doubles j)
    unfolding load_profile
    load_profile-Tightens j = search (profile_rules, merge_bounds-Tightens) depth 15

    caught-state : (r : Option (Unit {0}) × SafetyGuard Double) → (caught r).0 ≡ r.1
    caught-state (none, s) = refl
    caught-state (some u, s) = refl

    Tightens-refl : Tightens g g
    Tightens-refl = record {
      guests = refl;
      children = refl;
      excluded = λ tool h. h;
      bounds = λ tool args h. h;
    }

    load_device_profile-Tightens :
        (file : ConfigFile Json) → Tightens g (load_device_profile json doubles g file).0
    unfolding load_device_profile
    load_device_profile-Tightens missing = Tightens-refl
    load_device_profile-Tightens malformed = Tightens-refl
    load_device_profile-Tightens (holds j) =
        subst (Tightens g) (sym (caught-state (load_profile json doubles j g)))
          ((load_profile-Tightens j).at g Tightens-refl)

  -- Loading a device profile, whether it succeeds, throws half way or finds no file, lets nothing
  -- through that Validate refused before: what is allowed after the load was allowed before it.
  pub validate-load_device_profile :
      (g : SafetyGuard Double) (file : ConfigFile Json) (tool : String) (args : Json)
      (role : UserRole)
      → (validate json doubles (load_device_profile json doubles g file).0 tool args role).allowed
        ≡ true
      → (validate json doubles g tool args role).allowed ≡ true
  validate-load_device_profile g file tool args role h =
      let t = load_device_profile-Tightens g file in
      let p = permitted json doubles (load_device_profile json doubles g file).0 tool args role h in
      allowed json doubles g tool args role (record {
        for_guests = λ e. rw (← t.guests) (p.for_guests e);
        for_children = λ e. rw (← t.children) (p.for_children e);
        on_device = t.excluded tool p.on_device;
        in_bounds = t.bounds tool args p.in_bounds;
      })
