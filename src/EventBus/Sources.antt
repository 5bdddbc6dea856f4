-- ===== src/EventBus/Sources.antt =====
-- The registered event sources.
use claw.Base.{
  String, ◌≡◌, refl, ap, ◌∙◌, not, List, [], ◌∷◌, ◌++◌, append-nil, arith, keep_if, eq_iff,
  string_eq, ◌==◌, if◌then◌else◌,
}
use claw.EventBus.Defs.{
  EventSourceDescriptor, EventBus, register_event_source, unregister_event_source,
}

module _ {J : Type 0} where
  abbrev pub named : String → List (EventSourceDescriptor J) → List (EventSourceDescriptor J)
  named n = keep_if (λ d. d.name == n)

  named-dropped :
      (n m : String) (l : List (EventSourceDescriptor J))
      → named n (keep_if (λ d. not (d.name == m)) l) ≡ (if m == n then [] else named n l)
  named-dropped n m [] = ground arith
  named-dropped n m (d ∷ l) =
      ground (arith, named-dropped n m l, eq_iff m n, eq_iff d.name m, eq_iff d.name n)

  named-append :
      (n : String) (l k : List (EventSourceDescriptor J))
      → named n (l ++ k) ≡ named n l ++ named n k
  named-append n [] k = refl
  named-append n (d ∷ l) k = ground (arith, named-append n l k)

module _ {J C : Type 0} where
  -- Registering a source replaces all sources of its name by the new one, unregistering a name
  -- removes all sources of that name, and neither touches the sources of other names.
  pub register_event_source-named :
      (bus : EventBus J C) (desc : EventSourceDescriptor J) (n m : String)
      → (named n (register_event_source bus desc).event_sources
          ≡ (if desc.name == n then desc ∷ [] else named n bus.event_sources))
        × (named n (unregister_event_source bus m).event_sources
            ≡ (if m == n then [] else named n bus.event_sources))
  unfolding register_event_source unregister_event_source
  register_event_source-named bus desc n m = (
    named-append n (keep_if (λ d. not (d.name == desc.name)) bus.event_sources) (desc ∷ [])
        ∙ ap (λ l. l ++ named n (desc ∷ [])) (named-dropped n desc.name bus.event_sources)
        ∙ ground (arith, append-nil (named n bus.event_sources)),
    named-dropped n m bus.event_sources,
  )
