-- ===== src/SafetyGuard/Allowed.antt =====
-- What Validate allows, stated without reference to the order of its checks.
use claw.Base.{
  String, ◌≡◌, refl, ◌↔◌, inl, inr, true, false, Option, none, some, List, [], ◌∷◌, All, arith,
  Bool-cases, string_eq,
}
use claw.Base.Dict.{entry}
use claw.Json.{JsonLib}
use claw.SafetyGuard.Defs.{
  Doubles, UserRole, guest, child, member, admin, SafetyBound, SafetyCheckResult, SafetyGuard,
}
use claw.SafetyGuard.Check.{
  listed, is_guest, is_child_or_guest, check_value, check_bounds, validate, validate_param,
  numeric_arg, is_excluded_tool,
}

-- `IsAbove high low`: the first role is less restricted than the second.
pub data IsAbove : UserRole → UserRole → Type 0 where
  child_guest : IsAbove child guest
  member_child : IsAbove member child
  admin_child : IsAbove admin child

module _ (json : JsonLib) (doubles : Doubles json) where
  open json use {Json}
  open doubles use {Double, lt}

  -- The argument that the bound names, if it reads as a number, is neither below nor above it.
  abbrev pub IsWithin : Json → SafetyBound Double → Type 0
  IsWithin args b =
      (v : Double)
      → numeric_arg json doubles args b.param_name ≡ some v
      → (lt v b.min_value ≡ false) × (lt b.max_value v ≡ false)

  pub record IsPermitted (g : SafetyGuard Double) (tool : String) (args : Json) (role : UserRole)
      : Type 0 where
    pub for_guests : is_guest role ≡ true → listed tool g.guest_restricted_tools ≡ false
    pub for_children : is_child_or_guest role ≡ true → listed tool g.child_restricted_tools ≡ false
    pub on_device : listed tool g.device_profile.excluded_tools ≡ false
    pub in_bounds : All (IsWithin args) (entry [] tool g.bounds)

  check_value-allowed :
      (b : SafetyBound Double) (o : Option Double)
      → ((check_value json doubles b o).allowed ≡ true)
        ↔ ((v : Double) → o ≡ some v → (lt v b.min_value ≡ false) × (lt b.max_value v ≡ false))
  unfolding validate_param
  check_value-allowed b none = (λ _ v e. ground arith, λ _. refl)
  check_value-allowed b (some w) = (λ h v e. ground arith, λ h. let f = h w refl in ground arith)

  check_bounds-none :
      (args : Json) (l : List (SafetyBound Double))
      → (check_bounds json doubles args l ≡ none) ↔ All (IsWithin args) l
  unfolding check_bounds
  check_bounds-none args [] = (λ _. tt, λ _. refl)
  check_bounds-none args (b ∷ rest) =
      let iff = check_value-allowed b (numeric_arg json doubles args b.param_name) in
      elim (Bool-cases
        (check_value json doubles b (numeric_arg json doubles args b.param_name)).allowed) [
          | inl e ↦ (
            λ h. (iff.0 e, (check_bounds-none args rest).0 (ground arith)),
            λ h. rw e ((check_bounds-none args rest).1 h.1),
          )
          | inr e ↦ (λ h. ground arith, λ h. let e' = iff.1 h.0 in cc)
        ]

  check_bounds-denies :
      (args : Json) (l : List (SafetyBound Double)) (r : SafetyCheckResult)
      → check_bounds json doubles args l ≡ some r
      → r.allowed ≡ false
  unfolding check_bounds
  check_bounds-denies args [] r e = cc
  check_bounds-denies args (b ∷ rest) r e = ground (arith, check_bounds-denies args rest r)

  allowed→in_bounds :
      (args : Json) (l : List (SafetyBound Double)) (o : Option SafetyCheckResult)
      → check_bounds json doubles args l ≡ o
      → ((r : SafetyCheckResult) → o ≡ some r → r.allowed ≡ true)
      → All (IsWithin args) l
  allowed→in_bounds args l none e h = (check_bounds-none args l).0 e
  allowed→in_bounds args l (some r) e h =
      let denied = check_bounds-denies args l r e in let allowed = h r refl in cc

  module _ (g : SafetyGuard Double) (tool : String) (args : Json) (role : UserRole) where
    pub permitted :
        (validate json doubles g tool args role).allowed ≡ true → IsPermitted g tool args role
    unfolding validate is_excluded_tool
    permitted h = record {
      for_guests = ground arith;
      for_children = ground arith;
      on_device = ground arith;
      in_bounds = allowed→in_bounds args (entry [] tool g.bounds) _ refl (λ r e. ground arith);
    }

    pub allowed :
        IsPermitted g tool args role → (validate json doubles g tool args role).allowed ≡ true
    unfolding validate is_excluded_tool
    allowed p = ground (arith, (check_bounds-none args (entry [] tool g.bounds)).1 p.in_bounds)

    -- Validate allows a call exactly when the tool is on no list that restricts the role, is not
    -- excluded on the device, and every numeric argument that some bound of the tool names is
    -- within that bound.
    pub validate_iff :
        ((validate json doubles g tool args role).allowed ≡ true) ↔ IsPermitted g tool args role
    validate_iff = (permitted, allowed)
