-- ===== src/KeyStore/Xor.antt =====
-- Exclusive or on bytes undoes itself: all pairs of bytes are tried.
use Prim.Native.Nat.{bit_xor}
use claw.Base.{
  ℕ, zero, suc, ◌<◌, ◌≡◌, refl, Bool, true, false, arith, =ℕ_iff, ◌=ℕ◌, ltb, ltb→lt, if◌then◌else◌,
}

all_up_to : ℕ → (ℕ → Bool) → Bool
all_up_to zero test = true
all_up_to (suc n) test = if test n then all_up_to n test else false

up_to_holds : (n : ℕ) (test : ℕ → Bool) (x : ℕ) → all_up_to n test ≡ true → x < n → test x ≡ true
unfolding all_up_to
up_to_holds zero test x e h = absurd (omega (arith, h))
up_to_holds (suc n) test x e h = ground (arith, h, up_to_holds n test x)

all_bytes : all_up_to 256 (λ x. all_up_to 256 (λ y. bit_xor (bit_xor x y) y =ℕ x)) ≡ true
unfolding all_up_to
all_bytes = refl

pub xor_twice : (x y : ℕ) → x < 256 → y < 256 → bit_xor (bit_xor x y) y ≡ x
xor_twice x y hx hy =
    let row =
      up_to_holds 256 (λ x. all_up_to 256 (λ y. bit_xor (bit_xor x y) y =ℕ x)) x all_bytes hx in
    (=ℕ_iff (bit_xor (bit_xor x y) y) x).0
      (up_to_holds 256 (λ y. bit_xor (bit_xor x y) y =ℕ x) y row hy)

all_small : all_up_to 256 (λ x. all_up_to 256 (λ y. ltb (bit_xor x y) 256)) ≡ true
unfolding all_up_to
all_small = refl

pub xor_lt : (x y : ℕ) → x < 256 → y < 256 → bit_xor x y < 256
xor_lt x y hx hy =
    let row = up_to_holds 256 (λ x. all_up_to 256 (λ y. ltb (bit_xor x y) 256)) x all_small hx in
    ltb→lt (bit_xor x y) 256 (up_to_holds 256 (λ y. ltb (bit_xor x y) 256) y row hy)
