-- ===== src/EventBus/Plugins/Registered.antt =====
-- The sources that are registered once the plugins are loaded.
use claw.Base.{
  String, ◌≡◌, refl, ap, ◌∙◌, false, true, Option, none, some, List, [], ◌∷◌, ◌++◌, All, same_self,
  ◌==◌, string_eq, if◌then◌else◌,
}
use claw.EventBus.Defs.{EventSourceDescriptor, EventBus}
use claw.EventBus.Sources.{named, register_event_source-named}
use claw.Base.Bytes.{Bytes}
use claw.Base.Find.{Without}
use claw.Base.Bytes.{bytes_eq}
use claw.EventBus.Plugins.Descriptor.{IsWritable, render, read_descriptor-render}
use claw.EventBus.Plugins.{marker, Entry, descriptor_of, register_read, load_entries, load_plugins}

module _ {J : Type 0} where
  abbrev replace :
      String
      → Option (EventSourceDescriptor J)
      → List (EventSourceDescriptor J)
      → List (EventSourceDescriptor J)
  replace n none sources = sources
  replace n (some desc) sources = if desc.name == n then desc ∷ [] else sources

  last_named : String → List Entry → List (EventSourceDescriptor J) → List (EventSourceDescriptor J)
  last_named n [] sources = sources
  last_named n (entry ∷ entries) sources =
      last_named n entries (replace n (descriptor_of entry) sources)

  -- No descriptor of that name.
  abbrev Other : String → Option (EventSourceDescriptor J) → Type 0
  Other n none = Unit
  Other n (some desc) = (desc.name == n) ≡ false

  replace-Other :
      (n : String) (o : Option (EventSourceDescriptor J)) (sources : List (EventSourceDescriptor J))
      → Other n o
      → replace n o sources ≡ sources
  replace-Other n none sources h = refl
  replace-Other n (some desc) sources h = rw h refl

-- Nor in any of the entries.
abbrev pub Others : (J : Type 0) → String → List Entry → Type 0
Others J n = All (λ entry. Other {J = J} n (descriptor_of entry))

module _ {J : Type 0} where
  last_named-Others :
      (n : String) (entries : List Entry) (sources : List (EventSourceDescriptor J))
      → Others J n entries
      → last_named n entries sources ≡ sources
  unfolding last_named
  last_named-Others n [] sources h = refl
  last_named-Others n (entry ∷ entries) sources h =
      ap (last_named n entries) (replace-Other n (descriptor_of entry) sources h.0)
      ∙ last_named-Others n entries sources h.1

  last_named-append :
      (n : String) (before : List Entry) (entry : Entry) (after : List Entry)
      (desc : EventSourceDescriptor J) (sources : List (EventSourceDescriptor J))
      → descriptor_of entry ≡ some desc
      → (desc.name == n) ≡ true
      → Others J n after
      → last_named n (before ++ (entry ∷ after)) sources ≡ desc ∷ []
  unfolding last_named
  last_named-append n [] entry after desc sources e same h =
      ap (λ o. last_named n after (replace n o sources)) e
      ∙ ap (λ b. last_named n after (if b then desc ∷ [] else sources)) same
      ∙ last_named-Others n after (desc ∷ []) h
  last_named-append n (b ∷ before) entry after desc sources e same h =
      last_named-append n before entry after desc (replace n (descriptor_of b) sources) e same h

-- The directory of a plugin that wrote a descriptor.
module _ {J : Type 0} where
  abbrev pub entry_for :
      (desc : EventSourceDescriptor J) → IsWritable desc → List Bytes → Bytes → Entry
  entry_for desc w preamble body = record {
    filename = desc.plugin_id;
    event_source_md = some (render preamble desc w.interval body);
  }

module _ {J C : Type 0} where
  register_read-named :
      (n : String) (o : Option (EventSourceDescriptor J)) (bus : EventBus J C)
      → named n (register_read bus o).event_sources ≡ replace n o (named n bus.event_sources)
  register_read-named n none bus = refl
  register_read-named n (some desc) bus = (register_event_source-named bus desc n n).0

  load_entries-named :
      (entries : List Entry) (bus : EventBus J C) (n : String)
      → named n (load_entries entries bus).event_sources
        ≡ last_named n entries (named n bus.event_sources)
  unfolding load_entries last_named
  load_entries-named [] bus n = refl
  load_entries-named (entry ∷ entries) bus n =
      load_entries-named entries (register_read bus (descriptor_of entry)) n
      ∙ ap (last_named n entries) (register_read-named n (descriptor_of entry) bus)

  -- A descriptor that is written as LoadPlugins expects it (it has a name, its texts are on one line
  -- with no space at either end, its interval is an int that is not negative, it lists no events; any
  -- lines but the marker stand before it, and any text behind it) becomes the one source of its
  -- name, as it was written, unless a later entry has a descriptor of that name. A name that no entry
  -- has keeps its sources.
  pub load_plugins-latest :
      (desc : EventSourceDescriptor J) (w : IsWritable desc) (preamble : List Bytes) (body : Bytes)
      (before after : List Entry) (bus : EventBus J C) (n : String) (entries : List Entry)
      → All (λ line. (line == marker) ≡ false) preamble
      → All (Without 0x0a) preamble
      → Others J desc.name after
      → Others J n entries
      → (named desc.name
            (load_plugins
              (some (before ++ (entry_for desc w preamble body ∷ after)))
              bus).event_sources
          ≡ desc ∷ [])
        × (named n (load_plugins (some entries) bus).event_sources ≡ named n bus.event_sources)
  load_plugins-latest desc w preamble body before after bus n entries hm hn h ho = (
    load_entries-named (before ++ (entry_for desc w preamble body ∷ after)) bus desc.name
        ∙ last_named-append desc.name before (entry_for desc w preamble body) after desc
            (named desc.name bus.event_sources) (read_descriptor-render preamble desc body w hm hn)
            (same_self desc.name) h,
    load_entries-named entries bus n ∙ last_named-Others n entries (named n bus.event_sources) ho,
  )
