-- ===== src/ToolRouter/Overlaps.antt =====
-- What DetectOverlaps reports, against the registry itself.
use claw.Base.{
  ℕ, ◌<◌, String, ◌≡◌, refl, sym, subst, ap, ◌∙◌, ◌⊎◌, inl, inr, Option, none, some, [], ◌∷◌, arith,
  All, All-append, ltb, ltb→lt, length, if_cases, Bool-cases, ◌==◌, eq_iff, string_eq,
}
use claw.Base.Dict.{Dict, insert, entry, lookup}
use claw.ToolRouter.Defs.{
  CapabilitySource, skill, custom_skill, action, builtin, system_cli, cli, rpk, source_priority,
}
use claw.ToolRouter.Registry.{
  Registry, Capability, Tools, group_of, group, best_of, redirected, redirect_all, overlaps_in,
  all_overlaps,
}

-- The registry holds the capability under the name.
abbrev pub Holds : Registry → String → Capability → Type 0
Holds [] name cap = ⊥
Holds ((n, c) ∷ r) name cap = ((n ≡ name) × (c ≡ cap)) ⊎ Holds r name cap

-- The sources from the best on.
abbrev pub rank : CapabilitySource → ℕ
rank skill = 0
rank custom_skill = 1
rank action = 2
rank builtin = 3
rank system_cli = 4
rank cli = 5
rank rpk = 6

pub source_priority-rank : (s : CapabilitySource) → source_priority s ≡ rank s
unfolding source_priority
source_priority-rank skill = refl
source_priority-rank custom_skill = refl
source_priority-rank action = refl
source_priority-rank builtin = refl
source_priority-rank system_cli = refl
source_priority-rank cli = refl
source_priority-rank rpk = refl

pub rank-small : (s : CapabilitySource) → rank s < 99
rank-small skill = ground arith
rank-small custom_skill = ground arith
rank-small action = ground arith
rank-small builtin = ground arith
rank-small system_cli = ground arith
rank-small cli = ground arith
rank-small rpk = ground arith

-- Two registered tools of one category, of which `higher` comes from the better source.
abbrev pub IsOverlap : Registry → String × String → Type 0
IsOverlap r (lower, higher) =
    (l : Capability) × (h : Capability) × Holds r lower l
    × Holds r higher h
    × (group_of l ≡ group_of h)
    × (rank h.source < rank l.source)

module _ (r : Registry) where
  abbrev pub InGroup : String → String × CapabilitySource → Type 0
  InGroup cat (name, src) =
      (cap : Capability) × Holds r name cap × (group_of cap ≡ cat) × (cap.source ≡ src)

  abbrev pub AreGroups : Dict String Tools → Type 0
  AreGroups = All (λ g. All (InGroup g.0) g.1)

  pub AreGroups-entry :
      (cat : String) (m : Dict String Tools) → AreGroups m → All (InGroup cat) (entry [] cat m)
  unfolding entry lookup
  AreGroups-entry cat [] h = tt
  AreGroups-entry cat ((j, tools) ∷ m) h = elim (Bool-cases (j == cat)) [
    | inl e ↦ rw (e, entry, lookup) (subst (λ c. All (InGroup c) tools) ((eq_iff j cat).0 e) h.0)
    | inr e ↦ rw (e, entry, lookup) (AreGroups-entry cat m h.1)
  ]

  AreGroups-insert :
      (cat : String) (tools : Tools) (m : Dict String Tools)
      → All (InGroup cat) tools
      → AreGroups m
      → AreGroups (insert cat tools m)
  unfolding insert
  AreGroups-insert cat tools [] t h = (t, tt)
  AreGroups-insert cat tools ((j, old) ∷ m) t h =
      if_cases AreGroups (j == cat) _ _ (λ _. (t, h.1))
        (λ _. (h.0, AreGroups-insert cat tools m t h.1))

  pub AreGroups-group :
      (caps : Registry) (m : Dict String Tools)
      → ((n : String) (c : Capability) → Holds caps n c → Holds r n c)
      → AreGroups m
      → AreGroups (group caps m)
  unfolding group
  AreGroups-group [] m within h = h
  AreGroups-group ((name, cap) ∷ caps) m within h =
      AreGroups-group caps _ (λ n c held. within n c (inr held))
        (AreGroups-insert (group_of cap) _ m
          (All-append (InGroup (group_of cap)) (entry [] (group_of cap) m) ((name, cap.source) ∷ [])
            (AreGroups-entry (group_of cap) m h)
            ((cap, within name cap (inl (refl, refl)), refl, refl), tt))
          h)

  abbrev pub IsBest : String → Option String × ℕ → Type 0
  IsBest cat (none, prio) = Unit
  IsBest cat (some best, prio) =
      (cap : Capability) × Holds r best cap
      × (group_of cap ≡ cat)
      × (source_priority cap.source ≡ prio)

  pub IsBest-best_of :
      (cat : String) (tools : Tools) (best : Option String × ℕ)
      → All (InGroup cat) tools
      → IsBest cat best
      → IsBest cat (best_of best tools)
  unfolding best_of
  IsBest-best_of cat [] best t b = b
  IsBest-best_of cat ((tname, src) ∷ tools) (name, prio) t b = IsBest-best_of cat tools _ t.1 (
      if_cases (IsBest cat) (ltb (source_priority src) prio) _ _
        (λ _. (t.0.0, t.0.1, t.0.2, ap source_priority t.0.3)) (λ _. b))

  AreOverlaps-redirected :
      (cat best : String) (prio : ℕ) (tools : Tools)
      → All (InGroup cat) tools
      → IsBest cat (some best, prio)
      → All (IsOverlap r) (redirected best prio tools)
  unfolding redirected
  AreOverlaps-redirected cat best prio [] t b = tt
  AreOverlaps-redirected cat best prio ((tname, src) ∷ tools) t b =
      if_cases (All (IsOverlap r)) (ltb prio (source_priority src)) _ _
        (λ e. (
          (
            t.0.0,
            b.0,
            t.0.1,
            b.1,
            t.0.2 ∙ sym b.2,
            omega (
              arith,
              ltb→lt _ _ e,
              b.3,
              ap source_priority t.0.3,
              source_priority-rank t.0.0.source,
              source_priority-rank b.0.source,
            ),
          ),
          AreOverlaps-redirected cat best prio tools t.1 b,
        ))
        (λ _. AreOverlaps-redirected cat best prio tools t.1 b)

  AreOverlaps-redirect_all :
      (cat : String) (tools : Tools) (best : Option String × ℕ)
      → All (InGroup cat) tools
      → IsBest cat best
      → All (IsOverlap r) (redirect_all best tools)
  AreOverlaps-redirect_all cat tools (none, prio) t b = tt
  AreOverlaps-redirect_all cat tools (some best, prio) t b =
      AreOverlaps-redirected cat best prio tools t b

  pub AreOverlaps-All : (m : Dict String Tools) → AreGroups m → All (IsOverlap r) (all_overlaps m)
  unfolding all_overlaps overlaps_in
  AreOverlaps-All [] h = tt
  AreOverlaps-All ((cat, tools) ∷ m) h =
      All-append (IsOverlap r) (overlaps_in tools) (all_overlaps m)
        (if_cases (All (IsOverlap r)) (ltb (length tools) 2) _ _ (λ _. tt)
          (λ _.
            AreOverlaps-redirect_all cat tools (best_of (none, 99) tools) h.0
              (IsBest-best_of cat tools (none, 99) h.0 tt)))
        (AreOverlaps-All m h.1)
