-- ===== src/Base/Keeps.antt =====
-- Invariants of loaders: one rule for each way to build one. The object is kept also where the
-- loader throws.
use claw.Base.{Bool, true, false, Option, none, some, List, [], ◌∷◌, if◌then◌else◌}
use claw.Base.Attempt.{Attempt, done, modify, require, for_each, when_present, ◌>>=◌}

pub record Keeps {ℓ} {S A : Type 0} (P : S → Type ℓ) (m : Attempt S A) : Type ℓ where
  pub at : (s : S) → P s → P (m s).1

module _ {ℓ} {S : Type 0} {P : S → Type ℓ} where
  pub Keeps-done : Keeps P done
  Keeps-done = record { at = λ s h. h }

  pub Keeps-modify : (f : S → S) → ((s : S) → P s → P (f s)) → Keeps P (modify f)
  Keeps-modify f k = record { at = k }

module _ {ℓ} {S A : Type 0} {P : S → Type ℓ} where
  pub Keeps-require : (o : Option A) → Keeps P (require {S = S} o)
  Keeps-require o = record { at = λ s h. h }

  pub Keeps-if :
      (b : Bool) (m n : Attempt S A) → Keeps P m → Keeps P n → Keeps P (if b then m else n)
  Keeps-if true m n km kn = km
  Keeps-if false m n km kn = kn

module _ {ℓ} {S A B : Type 0} {P : S → Type ℓ} where
  resumed :
      (o : Option A) (f : A → Attempt S B) (s : S)
      → ((a : A) → Keeps P (f a))
      → P s
      → P ((require o >>= f) s).1
  resumed none f s k h = h
  resumed (some a) f s k h = (k a).at s h

  pub Keeps-bind :
      (m : Attempt S A) (f : A → Attempt S B)
      → Keeps P m
      → ((a : A) → Keeps P (f a))
      → Keeps P (m >>= f)
  Keeps-bind m f km kf = record { at = λ s h. resumed (m s).0 f (m s).1 kf (km.at s h) }

module _ {ℓ} {S A : Type 0} {P : S → Type ℓ} where
  pub Keeps-for_each :
      (l : List A) (body : A → Attempt S (Unit {0}))
      → ((a : A) → Keeps P (body a))
      → Keeps P (for_each l body)
  Keeps-for_each [] body k = Keeps-done
  Keeps-for_each (x ∷ xs) body k =
      Keeps-bind (body x) (λ _. for_each xs body) (k x) (λ _. Keeps-for_each xs body k)

  pub Keeps-when_present :
      (o : Option A) (body : A → Attempt S (Unit {0}))
      → ((a : A) → Keeps P (body a))
      → Keeps P (when_present o body)
  Keeps-when_present none body k = Keeps-done
  Keeps-when_present (some a) body k = k a
