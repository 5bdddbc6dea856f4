-- ===== src/EventBus/Plugins.antt =====
-- EventBus::LoadPlugins (core/event_bus.cc): the descriptors that plugins leave as event_source.md,
-- in the order of the directory's entries.
pub mod Descriptor
pub mod Registered
use claw.Base.{
  ℕ, suc, Bool, true, false, String, Option, none, some, List, [], ◌∷◌, ◌++◌, ◌==◌, nat_eq,
  string_eq, if◌then◌else◌,
}
use claw.Base.Int.{ℤ, pos}
use claw.Base.Bytes.{Bytes, codes, text_of, bytes_eq}
use claw.Base.Find.{find, pieces}
use claw.Scheduler.Parse.{stoi}
use claw.EventBus.Defs.{EventBus, EventSourceDescriptor, register_event_source}

abbrev pub marker : Bytes
marker = codes "---"

-- The loop that collects yaml_content, each line with its newline.
abbrev pub collect_front : Bool → List Bytes → Bytes
collect_front in_front [] = []
collect_front false (line ∷ lines) = collect_front (line == marker) lines
collect_front true (line ∷ lines) =
    let rest = collect_front true lines in if line == marker then [] else line ++ (0x0a ∷ rest)

abbrev pub strip_front : Bytes → Bytes
strip_front [] = []
strip_front (c ∷ text) = let rest = strip_front text in if c == 0x20 then rest else c ∷ text

-- A last space goes where all behind it are gone.
abbrev pub push_back : ℕ → Bytes → Bytes
push_back c [] = if c == 0x20 then [] else c ∷ []
push_back c (d ∷ text) = c ∷ d ∷ text

abbrev pub strip_back : Bytes → Bytes
strip_back [] = []
strip_back (c ∷ text) = push_back c (strip_back text)

-- The four loops that strip spaces.
abbrev pub stripped : Bytes → Bytes
stripped text = strip_back (strip_front text)

module _ {J : Type 0} where
  -- A throw of std::stoi is caught, and the interval stays.
  abbrev pub set_interval : EventSourceDescriptor J → Option ℤ → EventSourceDescriptor J
  set_interval desc none = desc
  set_interval desc (some n) = record desc { poll_interval_sec = n }

  abbrev pub set_member : Bytes → Bytes → EventSourceDescriptor J → EventSourceDescriptor J
  set_member key value desc =
      if key == codes "name"
      then record desc { name = text_of value }
      else if key == codes "type"
      then record desc { type = text_of value }
      else if key == codes "version"
      then record desc { version = text_of value }
      else if key == codes "collect_method"
      then record desc { collect_method = text_of value }
      else if key == codes "poll_interval_sec"
      then set_interval desc (stoi value)
      else desc

  abbrev pub read_member :
      Option (Bytes × Bytes) → EventSourceDescriptor J → EventSourceDescriptor J
  read_member none desc = desc
  read_member (some (key, value)) desc = set_member (stripped key) (stripped value) desc

  -- The loop over the lines of yaml_content.
  unfoldable pub read_members : List Bytes → EventSourceDescriptor J → EventSourceDescriptor J
  read_members [] desc = desc
  read_members (line ∷ lines) desc = read_members lines (read_member (find (codes ":") line) desc)

  abbrev pub blank : String → EventSourceDescriptor J
  blank plugin_id = record {
    name = "";
    plugin_id = plugin_id;
    type = "";
    version = "";
    collect_method = "";
    poll_interval_sec = pos 0;
    events = [];
  }

  abbrev pub named_only : EventSourceDescriptor J → Option (EventSourceDescriptor J)
  named_only desc = if desc.name == "" then none else some desc

  abbrev pub read_yaml : String → Bytes → Option (EventSourceDescriptor J)
  read_yaml plugin_id [] = none
  read_yaml plugin_id (c ∷ yaml) =
      named_only (read_members (pieces 0x0a (c ∷ yaml)) (blank plugin_id))

  -- What a descriptor file is read as; `none` where it is passed over.
  unfoldable pub read_descriptor : String → Bytes → Option (EventSourceDescriptor J)
  read_descriptor plugin_id content =
      read_yaml plugin_id (collect_front false (pieces 0x0a content))

-- An entry of the directory: its file name, and the descriptor file in it where it is a directory
-- that has one which can be opened.
pub record Entry : Type 0 where
  pub filename : String
  pub event_source_md : Option Bytes

module _ {J : Type 0} where
  abbrev pub descriptor_of : Entry → Option (EventSourceDescriptor J)
  descriptor_of entry = elim entry.event_source_md [
    | none ↦ none
    | some content ↦ read_descriptor entry.filename content
  ]

module _ {J C : Type 0} where
  abbrev pub register_read : EventBus J C → Option (EventSourceDescriptor J) → EventBus J C
  register_read bus none = bus
  register_read bus (some desc) = register_event_source bus desc

  unfoldable pub load_entries : List Entry → EventBus J C → EventBus J C
  load_entries [] bus = bus
  load_entries (entry ∷ entries) bus =
      load_entries entries (register_read bus (descriptor_of entry))

  -- `none` where the path is no directory.
  abbrev pub load_plugins : Option (List Entry) → EventBus J C → EventBus J C
  load_plugins none bus = bus
  load_plugins (some entries) bus = load_entries entries bus
