-- ===== src/Swarm/Events.antt =====
-- The events that peers share.
use claw.Base.{
  ℕ, String, ◌⧺◌, ◌≡◌, refl, sym, ap, ◌∙◌, subst, true, false, Option, none, some, List, [], ◌∷◌,
  ◌==◌, string_eq, nat_eq, if_cases,
}
use mathlib.Core.Option.{some_inj, none-ne-some}
use claw.Base.Int.{ℤ, pos, negsuc}
use claw.Json.Standard.{IsStandard, value-of_items}
use claw.Json.{JsonLib, value}
use claw.EventBus.Defs.{
  EventType, index, app_lifecycle, network_changed, battery_changed, display_changed,
  package_changed, memory_warning, system_setting, usb_changed, bluetooth_changed, location_changed,
  recent_app, custom, SystemEvent, stamped,
}
use claw.Swarm.Defs.{
  Peers, Received, kept, published, terminated, beyond, type_of_id, remote_event, typed_event,
  EventFields, read_fields, event_packet, kept_or_terminated, update_peer, typed_packet,
  parsed_packet, handle_incoming_packet, listen, event_json, on_local_event, data_of,
}

-- A published event is marked as one of a peer.
abbrev IsMarked : {J : Type 0} → Received J → Type 0
IsMarked (published e) = (e.plugin_id == "remote_peer") ≡ true
IsMarked (kept peers) = Unit
IsMarked terminated = Unit
IsMarked beyond = Unit

module _ (json : JsonLib) where
  open json use {Json, at, get_string, get_int, parse, dump, of_items, of_string, of_int, is_object}

  typed_event-IsMarked :
      (fields : EventFields json) (payload : Json) (type : Option EventType) (timestamp : ℤ)
      → IsMarked (typed_event json fields payload type timestamp)
  typed_event-IsMarked fields payload none timestamp = tt
  typed_event-IsMarked fields payload (some type) (negsuc t) = tt
  typed_event-IsMarked fields payload (some type) (pos t) = refl

  remote_event-IsMarked :
      (payload : Json) (o : Option (EventFields json)) → IsMarked (remote_event json payload o)
  remote_event-IsMarked payload none = tt
  remote_event-IsMarked payload (some fields) =
      typed_event-IsMarked fields payload (type_of_id fields.type_id) fields.timestamp

  event_packet-IsMarked :
      (peers : Peers) (now : ℤ) (o : Option Json) → IsMarked (event_packet json peers now o)
  event_packet-IsMarked peers now none = tt
  event_packet-IsMarked peers now (some ej) =
      remote_event-IsMarked (data_of json (at ej "data")) (read_fields json ej now)

  kept-IsMarked : (o : Option Peers) → IsMarked (kept_or_terminated json o)
  kept-IsMarked none = tt
  kept-IsMarked (some peers) = tt

  typed_packet-IsMarked :
      (peers : Peers) (j : Json) (ip : String) (now : ℤ) (o : Option String)
      → IsMarked (typed_packet json peers j ip now o)
  typed_packet-IsMarked peers j ip now none = tt
  typed_packet-IsMarked peers j ip now (some t) =
      if_cases IsMarked (t == "heartbeat") _ _
        (λ e. kept-IsMarked (update_peer json peers ip j now))
        (λ e.
          if_cases IsMarked (t == "event") _ _
            (λ e'. event_packet-IsMarked peers now (at j "event")) (λ e'. tt))

  parsed_packet-IsMarked :
      (peers : Peers) (ip : String) (now : ℤ) (o : Option Json)
      → IsMarked (parsed_packet json peers ip now o)
  parsed_packet-IsMarked peers ip now none = tt
  parsed_packet-IsMarked peers ip now (some j) =
      typed_packet-IsMarked peers j ip now (value json get_string j "swarm_type" "")

  listen-IsMarked :
      (local_ip : String) (peers : Peers) (text sender_ip : String) (now : ℤ)
      → IsMarked (listen json local_ip peers text sender_ip now)
  unfolding listen handle_incoming_packet
  listen-IsMarked local_ip peers text sender_ip now =
      if_cases IsMarked (sender_ip == local_ip) _ _ (λ e. tt)
        (λ e. parsed_packet-IsMarked peers sender_ip now (parse text))

  -- An event that a device publishes for a packet of the network is not sent to the network again when
  -- the event bus, which may have set its time, delivers it: whatever the packet holds, it crosses the
  -- network once.
  pub on_local_event-listen :
      (local_ip : String) (peers : Peers) (text sender_ip : String) (now : ℤ) (e : SystemEvent Json)
      (time : ℕ) (device_type : String)
      → listen json local_ip peers text sender_ip now ≡ published e
      → on_local_event json device_type (stamped time e) ≡ none
  unfolding on_local_event
  on_local_event-listen local_ip peers text sender_ip now e time device_type h =
      silent (stamped time e)
        (same_mark time e (subst IsMarked h (listen-IsMarked local_ip peers text sender_ip now)))
    where
      silent :
          (e : SystemEvent Json)
          → (e.plugin_id == "remote_peer") ≡ true
          → on_local_event json device_type e ≡ none
      silent e marked = rw (marked, on_local_event) refl

      same_mark :
          (time : ℕ) (e : SystemEvent Json)
          → (e.plugin_id == "remote_peer") ≡ true
          → ((stamped time e).plugin_id == "remote_peer") ≡ true
      same_mark time e marked =
          if_cases (λ (x : SystemEvent Json). (x.plugin_id == "remote_peer") ≡ true)
            (e.timestamp == 0) (record e { timestamp = time }) e (λ t. marked) (λ t. marked)

type_of_id-index : (t : EventType) → type_of_id (pos (index t)) ≡ some t
type_of_id-index app_lifecycle = refl
type_of_id-index network_changed = refl
type_of_id-index battery_changed = refl
type_of_id-index display_changed = refl
type_of_id-index package_changed = refl
type_of_id-index memory_warning = refl
type_of_id-index system_setting = refl
type_of_id-index usb_changed = refl
type_of_id-index bluetooth_changed = refl
type_of_id-index location_changed = refl
type_of_id-index recent_app = refl
type_of_id-index custom = refl

module _ (json : JsonLib) (standard : IsStandard json) where
  open json use {Json, at, get_string, get_int, parse, dump, of_items, of_string, of_int}
  open standard use {is_object-of_items, at-of_items, get_string-of_string, get_int-of_int}

  abbrev packet : String → SystemEvent Json → Json
  packet device_type event =
      of_items
        (("swarm_type", of_string "event") ∷ ("event", event_json json device_type event) ∷ [])

  -- The text that is sent is that of the packet.
  text_lem :
      (device_type text : String) (e : SystemEvent Json)
      → on_local_event json device_type e ≡ some text
      → dump (packet device_type e) ≡ text
  unfolding on_local_event
  text_lem device_type text e sent =
      if_cases (λ o. o ≡ some text → dump (packet device_type e) ≡ text)
        (e.plugin_id == "remote_peer") none (some (dump (packet device_type e)))
        (λ t h. absurd (none-ne-some text h)) (λ t h. some_inj.0 h) sent

  abbrev fields_of : String → SystemEvent Json → EventFields json
  fields_of device_type e = record {
    type_id = pos (index e.type);
    source = e.source;
    name = e.name;
    timestamp = pos e.timestamp;
    device_type = device_type;
  }

  read_fields-event_json :
      (device_type : String) (e : SystemEvent Json) (now : ℤ)
      → read_fields json (event_json json device_type e) now ≡ some (fields_of device_type e)
  read_fields-event_json device_type e now =
      let items : List (String × Json) =
        ("type_id", of_int (pos (index e.type)))
        ∷ ("source", of_string e.source)
        ∷ ("name", of_string e.name)
        ∷ ("data", e.payload)
        ∷ ("timestamp", of_int (pos e.timestamp))
        ∷ ("device_type", of_string device_type)
        ∷ [] in
      rw
        (
          is_object-of_items items,
          at-of_items items "type_id",
          get_int-of_int (pos (index e.type)),
          at-of_items items "source",
          get_string-of_string e.source,
          at-of_items items "name",
          get_string-of_string e.name,
          at-of_items items "timestamp",
          get_int-of_int (pos e.timestamp),
          at-of_items items "device_type",
          get_string-of_string device_type,
        )
        refl

  event_packet-event_json :
      (peers : Peers) (device_type : String) (e : SystemEvent Json) (now : ℤ)
      → event_packet json peers now (some (event_json json device_type e))
        ≡ published
            (record e { source = device_type ⧺ ("::" ⧺ e.source); plugin_id = "remote_peer" })
  event_packet-event_json peers device_type e now =
      let fields = fields_of device_type e in
      let ej = event_json json device_type e in
      ap (remote_event json (data_of json (at ej "data")))
        (read_fields-event_json device_type e now)
      ∙ ap (λ type. typed_event json fields (data_of json (at ej "data")) type (pos e.timestamp))
          (type_of_id-index e.type)
      ∙ ap (λ o. typed_event json fields (data_of json o) (some e.type) (pos e.timestamp))
          (at-of_items _ "data")

  -- If the JSON library keeps its promises and reads back the packet: the event that a device sends is
  -- published by each device with another address that reads the packet, with the kind of the sender
  -- before its source, marked as one of a peer, and else as it was.
  pub listen-on_local_event :
      (local_ip : String) (peers : Peers) (sender_ip : String) (now : ℤ) (e : SystemEvent Json)
      (device_type text : String)
      → (sender_ip == local_ip) ≡ false
      → on_local_event json device_type e ≡ some text
      → parse (dump (packet device_type e)) ≡ some (packet device_type e)
      → listen json local_ip peers text sender_ip now
        ≡ published
            (record e { source = device_type ⧺ ("::" ⧺ e.source); plugin_id = "remote_peer" })
  unfolding listen handle_incoming_packet on_local_event
  listen-on_local_event local_ip peers sender_ip now e device_type text other sent readable =
      let items =
        ("swarm_type", of_string "event") ∷ ("event", event_json json device_type e) ∷ [] in
      rw other (
        ap (parsed_packet json peers sender_ip now)
          (ap parse (sym (text_lem device_type text e sent)) ∙ readable)
        ∙ ap (typed_packet json peers (of_items items) sender_ip now) (
            value-of_items json standard get_string items "swarm_type" "" "event"
              (of_string "event") refl (get_string-of_string "event"))
        ∙ ap (event_packet json peers now) (at-of_items items "event")
        ∙ event_packet-event_json peers device_type e now)
