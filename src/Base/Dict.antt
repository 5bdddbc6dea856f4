-- ===== src/Base/Dict.antt =====
-- std::map as an association list with one entry to a key. Nothing here depends on the order in
-- which a map is walked.
use mathlib.Core.Path.{◌≡◌, refl, subst}
use mathlib.Core.Bool.{Bool, true, false}
use mathlib.Core.List.{List, [], ◌∷◌}
use mathlib.Core.Option.{Option, none, some, some_inj}
use native.Mathlib.Omega.{arith}
use claw.Base.Tests.{if◌then◌else◌}
use claw.Base.Lists.{keep_if, All}
use claw.Base.Eq.{Equality, ◌==◌}

abbrev pub Dict {ℓ κ} : Type ℓ → Type κ → Type (ℓ ⊔ κ)
Dict K V = List (K × V)

found_cases {κ κ'} :
    {V : Type κ} (P : V → Type κ') (b : Bool) (old v : V) (later : Option V)
    → P old
    → (later ≡ some v → P v)
    → (if b then some old else later) ≡ some v
    → P v
found_cases P true old v later h rest e = subst P (some_inj.0 e) h
found_cases P false old v later h rest e = rest e

module _ {ℓ κ} {K : Type ℓ} {V : Type κ} ⦃e : Equality K⦄ where
  -- m.find(key)
  unfoldable pub lookup : K → Dict K V → Option V
  lookup key [] = none
  lookup key ((head, found) ∷ rest) = if head == key then some found else lookup key rest

  -- m.count(key) > 0
  abbrev pub member : K → Dict K V → Bool
  member key m = elim (lookup key m) [ none ↦ false | some _ ↦ true ]

  -- m[key] = value
  unfoldable pub insert : K → V → Dict K V → Dict K V
  insert key value [] = (key, value) ∷ []
  insert key value ((head, old) ∷ rest) =
      let later = insert key value rest in
      if head == key then (key, value) ∷ rest else (head, old) ∷ later

  -- m.erase(k)
  unfoldable pub erase : K → Dict K V → Dict K V
  erase k [] = []
  erase k ((j, v) ∷ m) = let rest = erase k m in if j == k then rest else (j, v) ∷ rest

  pub lookup-insert :
      (key other : K) (value : V) (m : Dict K V)
      → lookup other (insert key value m) ≡ (if key == other then some value else lookup other m)
  unfolding lookup insert
  lookup-insert key other value [] = refl
  lookup-insert key other value ((head, old) ∷ rest) =
      let later = lookup-insert key other value rest in
      ground (arith, later, e.same_iff head key, e.same_iff head other, e.same_iff key other)

  pub lookup-erase :
      (k j : K) (m : Dict K V) → lookup j (erase k m) ≡ (if k == j then none else lookup j m)
  unfolding lookup erase
  lookup-erase k j [] = ground arith
  lookup-erase k j ((i, w) ∷ m) =
      ground (arith, e.same_iff k j, e.same_iff i k, e.same_iff i j, lookup-erase k j m)

  pub lookup-nil : (k : K) → lookup k [] ≡ none
  unfolding lookup
  lookup-nil k = refl

  -- A value found, or the one that operator[] creates in its place.
  unfoldable pub entry : V → K → Dict K V → V
  entry d k m = elim (lookup k m) [ none ↦ d | some v ↦ v ]

  pub entry-insert :
      (d : V) (k j : K) (v : V) (m : Dict K V)
      → entry d j (insert k v m) ≡ (if k == j then v else entry d j m)
  unfolding entry
  entry-insert d k j v m = ground (arith, lookup-insert k j v m)

  pub entry-erase :
      (d : V) (k j : K) (m : Dict K V) → entry d j (erase k m) ≡ (if k == j then d else entry d j m)
  unfolding entry
  entry-erase d k j m = ground (arith, lookup-erase k j m)

  pub entry-nil : (d : V) (k : K) → entry d k [] ≡ d
  unfolding entry lookup
  entry-nil d k = refl

  -- The keys of a std::map are different.
  abbrev pub Distinct : Dict K V → Type κ
  Distinct [] = Unit
  Distinct ((k, v) ∷ m) = (lookup k m ≡ none) × Distinct m

  pub Distinct-insert : (k : K) (v : V) (m : Dict K V) → Distinct m → Distinct (insert k v m)
  unfolding insert lookup
  Distinct-insert k v [] d = (refl, tt)
  Distinct-insert k v ((j, w) ∷ m) d =
      ground
        (arith, e.same_iff j k, e.same_iff k j, Distinct-insert k v m d.1, lookup-insert k j v m)

  pub Distinct-erase : (k : K) (m : Dict K V) → Distinct m → Distinct (erase k m)
  unfolding erase
  Distinct-erase k [] d = tt
  Distinct-erase k ((j, v) ∷ m) d = ground (arith, lookup-erase k j m, Distinct-erase k m d.1)

  lookup-keep_none :
      (p : K × V → Bool) (k : K) (m : Dict K V) → lookup k m ≡ none → lookup k (keep_if p m) ≡ none
  unfolding lookup
  lookup-keep_none p k [] h = refl
  lookup-keep_none p k ((j, v) ∷ m) h = ground (arith, lookup-keep_none p k m)

  pub Distinct-keep_if : (p : K × V → Bool) (m : Dict K V) → Distinct m → Distinct (keep_if p m)
  Distinct-keep_if p [] d = tt
  Distinct-keep_if p ((j, v) ∷ m) d =
      ground (arith, lookup-keep_none p j m, Distinct-keep_if p m d.1)

  -- A walk that erases entries by their value.
  pub lookup-keep_if :
      (q : V → Bool) (k : K) (m : Dict K V)
      → Distinct m
      → lookup k (keep_if (λ b. q b.1) m)
        ≡ (elim (lookup k m) [ none ↦ none | some v ↦ if q v then some v else none ])
  unfolding lookup
  lookup-keep_if q k [] d = refl
  lookup-keep_if q k ((j, v) ∷ m) d =
      ground (arith, e.same_iff j k, lookup-keep_none (λ b. q b.1) k m, lookup-keep_if q k m d.1)

  -- What holds of all bindings that are found holds of the list, where a key stands once.
  pub Distinct-All {κ'} :
      (P : K × V → Type κ') (m : Dict K V)
      → Distinct m
      → ((k : K) (v : V) → lookup k m ≡ some v → P (k, v))
      → All P m
  unfolding lookup
  Distinct-All P [] d h = tt
  Distinct-All P ((k, v) ∷ m) d h = (
    h k v (ground (arith, e.same_iff k k)),
    Distinct-All P m d.1 (λ j w found. h j w (ground (arith, found, d.0, e.same_iff k j))),
  )

  -- What holds of all values holds of the one that is found.
  pub lookup-All {κ'} :
      (P : V → Type κ') (k : K) (v : V) (m : Dict K V)
      → All (λ b. P b.1) m
      → lookup k m ≡ some v
      → P v
  unfolding lookup
  lookup-All P k v [] all e = absurd (ground (arith, e))
  lookup-All P k v ((j, w) ∷ m) all e =
      found_cases P (j == k) w v (lookup k m) all.0 (lookup-All P k v m all.1) e

pub ruleset dict_laws =
    (lookup-insert, lookup-erase, lookup-nil, entry-insert, entry-erase, entry-nil)
