-- ===== src/Base/Eq.antt =====
-- Decidable equality as an instance: std::string and the integer keys of the program's maps.
use Prim.Native.String.{String}
use Prim.Native.Nat.{ℕ}
use mathlib.Core.Path.{◌≡◌, refl}
use mathlib.Core.Logic.{◌↔◌}
use mathlib.Core.Bool.{Bool, true}
use text.Mathlib.Text.{◌==◌ as str_eq}
use text.Mathlib.TextEquality.{eq_iff}
use claw.Base.Tests.{◌=ℕ◌, =ℕ_iff}

pub record Equality {ℓ} (K : Type ℓ) : Type ℓ where
  pub same : K → K → Bool
  pub same_iff : (x y : K) → (same x y ≡ true) ↔ (x ≡ y)

module _ {ℓ} {K : Type ℓ} ⦃eq : Equality K⦄ where
  infix 50 ◌==◌
  abbrev pub ◌==◌ : K → K → Bool
  x == y = eq.same x y

  pub same_self : (x : K) → (x == x) ≡ true
  same_self x = (eq.same_iff x x).1 refl

instance abbrev pub nat_eq : Equality ℕ
nat_eq = record { same = ◌=ℕ◌; same_iff = =ℕ_iff }

instance abbrev pub string_eq : Equality String
string_eq = record { same_iff = eq_iff; same = str_eq }
