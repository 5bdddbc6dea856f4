-- ===== src/Base/Attempt.antt =====
-- Loaders that fill an object and may throw: what was written before the throw stays written, so
-- the object comes back beside the failure too.
use mathlib.Core.Option.{Option, none, some}
use mathlib.Core.List.{List, [], ◌∷◌}
use mathlib.Core.Bool.{Bool, true, false}

abbrev pub Attempt : Type 0 → Type 0 → Type 0
Attempt S A = S → Option A × S

module _ {S : Type 0} where
  abbrev pub done : Attempt S (Unit {0})
  done s = (some tt, s)

  abbrev pub modify : (S → S) → Attempt S (Unit {0})
  modify f s = (some tt, f s)

  -- A conversion that throws is `none`.
  abbrev pub require : {A : Type 0} → Option A → Attempt S A
  require r s = (r, s)

  abbrev resume : {A B : Type 0} → Option A → (A → Attempt S B) → Attempt S B
  resume none f s = (none, s)
  resume (some a) f s = f a s

  infixl 5 ◌>>=◌ ◌>>◌
  abbrev pub ◌>>=◌ : {A B : Type 0} → Attempt S A → (A → Attempt S B) → Attempt S B
  ◌>>=◌ m f s = let (r, s') = m s in resume r f s'

  abbrev pub ◌>>◌ : {B : Type 0} → Attempt S (Unit {0}) → Attempt S B → Attempt S B
  m >> k = m >>= λ _. k

  -- A range-for whose body may throw.
  abbrev pub for_each : {A : Type 0} → List A → (A → Attempt S (Unit {0})) → Attempt S (Unit {0})
  for_each [] body = done
  for_each (x ∷ xs) body = body x >> for_each xs body

  -- The body runs only where the key is present.
  abbrev pub when_present :
      {A : Type 0} → Option A → (A → Attempt S (Unit {0})) → Attempt S (Unit {0})
  when_present none body = done
  when_present (some a) body = body a

-- try { ... return true; } catch (...) { return false; }
abbrev pub caught : {S : Type 0} → Option (Unit {0}) × S → S × Bool
caught (none, s) = (s, false)
caught (some _, s) = (s, true)
