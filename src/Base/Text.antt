-- ===== src/Base/Text.antt =====
-- std::to_string and std::hex, and when a message is not empty.
pub mod Decimal
use Prim.Native.Nat.{ℕ, zero, suc, ◌/◌, ◌%◌}
use Prim.Native.String.{String, ◌++◌}
use mathlib.Core.Path.{◌≡◌, refl}
use mathlib.Core.Bool.{false}
use mathlib.Core.Logic.{◌≢◌}
use text.Mathlib.TextEquality.{eq_iff}
use text.Mathlib.TextLemmas.{append-eq-nil_iff}
use native.Mathlib.Omega.{arith}
use claw.Base.Tests.{ltb, ◌=ℕ◌, if◌then◌else◌}
use claw.Base.Eq.{◌==◌, string_eq}
use claw.Base.Int.{ℤ, pos, negsuc}

infixr 65 ◌⧺◌
abbrev pub ◌⧺◌ : String → String → String
s ⧺ t = s ++ t

pub digit : ℕ → String
digit d =
    if d =ℕ 0
    then "0"
    else if d =ℕ 1
    then "1"
    else if d =ℕ 2
    then "2"
    else if d =ℕ 3
    then "3"
    else if d =ℕ 4
    then "4"
    else if d =ℕ 5
    then "5"
    else if d =ℕ 6
    then "6"
    else if d =ℕ 7
    then "7"
    else if d =ℕ 8
    then "8"
    else if d =ℕ 9
    then "9"
    else if d =ℕ 10
    then "a"
    else if d =ℕ 11
    then "b"
    else if d =ℕ 12
    then "c"
    else if d =ℕ 13
    then "d"
    else if d =ℕ 14
    then "e"
    else "f"

-- A number has at most as many digits as its value, plus one: that is the fuel given below.
pub in_base : ℕ → ℕ → ℕ → String
unfolding digit
in_base base zero n = ""
in_base base (suc fuel) n =
    let rest = in_base base fuel (n / base) in
    if ltb n base then digit n else rest ⧺ digit (n % base)

unfoldable pub hex : ℕ → String
unfolding in_base
hex n = in_base 16 (suc n) n

unfoldable pub decimal : ℕ → String
unfolding in_base
decimal n = in_base 10 (suc n) n

unfoldable pub to_string : ℤ → String
unfolding decimal
to_string (pos n) = decimal n
to_string (negsuc n) = "-" ⧺ decimal (suc n)

-- A text that begins with a non-empty one is not empty.
pub append-ne-empty : (s t : String) → s ≢ "" → ((s ⧺ t) == "") ≡ false
append-ne-empty s t h =
    ground (arith, eq_iff (s ++ t) "", λ (e : s ++ t ≡ ""). h (append-eq-nil_iff.0 e).0)
