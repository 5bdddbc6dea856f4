-- ===== src/Swarm/Defs.antt =====
-- The table of peers and the packets of SwarmManager. The socket is left out: a packet is what
-- BroadcastJson is given, or what ListenerLoop has read, with the address of its sender.
use claw.Base.{
  ℕ, String, ◌⧺◌, Bool, not, Option, none, some, List, [], ◌∷◌, keep_if, map, ◌==◌, string_eq,
  nat_eq, if◌then◌else◌,
}
use claw.Base.Int.{ℤ, pos, negsuc, ◌-ℤ◌, ltb_ℤ}
use claw.Base.Dict.{Dict, lookup, insert, erase}
use claw.Json.{JsonLib, value}
use claw.Base.Options.{◌>>=◌}
use claw.EventBus.Defs.{
  EventType, index, app_lifecycle, network_changed, battery_changed, display_changed,
  package_changed, memory_warning, system_setting, usb_changed, bluetooth_changed, location_changed,
  recent_app, custom, SystemEvent,
}

pub record SwarmPeer : Type 0 where
  pub ip_address : String
  pub device_type : String
  pub last_seen_ms : ℤ
  pub capabilities : List String

abbrev pub Peers : Type 0
Peers = Dict String SwarmPeer

abbrev pub peer_timeout_ms : ℕ
peer_timeout_ms = 15000

abbrev all_types : List EventType
all_types =
    app_lifecycle ∷ network_changed ∷ battery_changed ∷ display_changed ∷ package_changed
    ∷ memory_warning ∷ system_setting ∷ usb_changed ∷ bluetooth_changed ∷ location_changed
    ∷ recent_app ∷ custom ∷ []

abbrev with_id : ℕ → List EventType → Option EventType
with_id n [] = none
with_id n (t ∷ types) = if index t == n then some t else with_id n types

-- static_cast<EventType>, for a number that an enumerator has.
abbrev pub type_of_id : ℤ → Option EventType
type_of_id (pos n) = with_id n all_types
type_of_id (negsuc n) = none

abbrev pub is_fresh : ℤ → SwarmPeer → Bool
is_fresh now peer = not (ltb_ℤ peer.last_seen_ms (now -ℤ pos peer_timeout_ms))

unfoldable pub remove_stale_peers : ℤ → Peers → Peers
remove_stale_peers now peers = keep_if (λ (b : String × SwarmPeer). is_fresh now b.1) peers

-- What a packet leads to. An exception other than parse_error leaves the function of the listener's
-- thread, which ends the program. An event whose type or time is no number of an enumerator, or is
-- negative, is `beyond` the model of an event.
pub data Received (J : Type 0) : Type 0 where
  kept : Peers → Received J
  published : SystemEvent J → Received J
  terminated : Received J
  beyond : Received J

module _ (json : JsonLib) where
  open json use {
    Json, at, is_array, elements, get_string, get_int, parse, dump, null, of_string, of_int,
    of_items, of_elements,
  }

  -- c.get<std::string>() of each element.
  abbrev pub get_strings : List Json → Option (List String)
  get_strings [] = some []
  get_strings (j ∷ js) = do s ← get_string j; rest ← get_strings js; some (s ∷ rest)

  abbrev pub new_peer : String → SwarmPeer
  new_peer ip = record {
    ip_address = ip;
    device_type = "";
    last_seen_ms = pos 0;
    capabilities = [];
  }

  abbrev pub peer_before : Option SwarmPeer → String → SwarmPeer
  peer_before none ip = new_peer ip
  peer_before (some peer) ip = peer

  abbrev pub set_type : Option Json → SwarmPeer → Option SwarmPeer
  set_type none peer = some peer
  set_type (some j) peer = do t ← get_string j; some (record peer { device_type = t })

  abbrev pub set_capabilities : Option Json → SwarmPeer → Option SwarmPeer
  set_capabilities none peer = some peer
  set_capabilities (some j) peer =
      if is_array j
      then (do c ← get_strings (elements j); some (record peer { capabilities = c }))
      else some peer

  -- A peer that was heard of, as its heartbeat leaves it.
  abbrev pub heard : Json → ℤ → SwarmPeer → Option SwarmPeer
  heard peer_info now peer = do
    peer' ← set_type (at peer_info "device_type") (record peer { last_seen_ms = now })
    set_capabilities (at peer_info "capabilities") peer'

  abbrev pub write_peer : Peers → String → Option SwarmPeer → Option Peers
  write_peer peers ip none = none
  write_peer peers ip (some peer) = some (insert ip peer peers)

  abbrev pub update_with : Peers → String → Json → ℤ → Option String → Option Peers
  update_with peers ip peer_info now none = none
  update_with peers ip peer_info now (some status) =
      if status == "leaving"
      then some (erase ip peers)
      else write_peer peers ip (heard peer_info now (peer_before (lookup ip peers) ip))

  -- UpdatePeer; `none` where it throws.
  unfoldable pub update_peer : Peers → String → Json → ℤ → Option Peers
  update_peer peers ip peer_info now =
      update_with peers ip peer_info now (value json get_string peer_info "status" "active")

  abbrev pub kept_or_terminated : Option Peers → Received Json
  kept_or_terminated none = terminated
  kept_or_terminated (some peers) = kept peers

  abbrev pub data_of : Option Json → Json
  data_of none = null
  data_of (some j) = j

  -- An event of a packet as it is read.
  pub record EventFields : Type 0 where
    pub type_id : ℤ
    pub source : String
    pub name : String
    pub timestamp : ℤ
    pub device_type : String

  -- `none` where a value has another type.
  abbrev pub read_fields : Json → ℤ → Option EventFields
  read_fields ej now = do
    type_id ← value json get_int ej "type_id" (pos 0)
    source ← value json get_string ej "source" "unknown"
    name ← value json get_string ej "name" "unknown"
    timestamp ← value json get_int ej "timestamp" now
    device_type ← value json get_string ej "device_type" "unknown"
    some (record {
      type_id = type_id;
      source = source;
      name = name;
      timestamp = timestamp;
      device_type = device_type;
    })

  abbrev pub typed_event : EventFields → Json → Option EventType → ℤ → Received Json
  typed_event fields payload none timestamp = beyond
  typed_event fields payload (some type) (negsuc t) = beyond
  typed_event fields payload (some type) (pos t) = published (record {
    type = type;
    source = fields.device_type ⧺ ("::" ⧺ fields.source);
    name = fields.name;
    payload = payload;
    timestamp = t;
    plugin_id = "remote_peer";
  })

  abbrev pub remote_event : Json → Option EventFields → Received Json
  remote_event payload none = terminated
  remote_event payload (some fields) =
      typed_event fields payload (type_of_id fields.type_id) fields.timestamp

  abbrev pub event_packet : Peers → ℤ → Option Json → Received Json
  event_packet peers now none = kept peers
  event_packet peers now (some ej) = remote_event (data_of (at ej "data")) (read_fields ej now)

  abbrev pub typed_packet : Peers → Json → String → ℤ → Option String → Received Json
  typed_packet peers j ip now none = terminated
  typed_packet peers j ip now (some swarm_type) =
      if swarm_type == "heartbeat"
      then kept_or_terminated (update_peer peers ip j now)
      else if swarm_type == "event"
      then event_packet peers now (at j "event")
      else kept peers

  abbrev pub parsed_packet : Peers → String → ℤ → Option Json → Received Json
  parsed_packet peers ip now none = kept peers
  parsed_packet peers ip now (some j) =
      typed_packet peers j ip now (value json get_string j "swarm_type" "")

  unfoldable pub handle_incoming_packet : Peers → String → String → ℤ → Received Json
  handle_incoming_packet peers text sender_ip now = parsed_packet peers sender_ip now (parse text)

  -- A packet that ListenerLoop has read: those of this device are passed over.
  unfoldable pub listen : String → Peers → String → String → ℤ → Received Json
  listen local_ip peers text sender_ip now =
      if sender_ip == local_ip then kept peers else handle_incoming_packet peers text sender_ip now

  abbrev pub event_json : String → SystemEvent Json → Json
  event_json device_type event = of_items (
      ("type_id", of_int (pos (index event.type)))
      ∷ ("source", of_string event.source)
      ∷ ("name", of_string event.name)
      ∷ ("data", event.payload)
      ∷ ("timestamp", of_int (pos event.timestamp))
      ∷ ("device_type", of_string device_type)
      ∷ [])

  -- OnLocalEvent: the text that is broadcast. Events of peers are not.
  unfoldable pub on_local_event : String → SystemEvent Json → Option String
  on_local_event device_type event =
      if event.plugin_id == "remote_peer"
      then none
      else some (
          dump (
            of_items
              (("swarm_type", of_string "event") ∷ ("event", event_json device_type event) ∷ [])))

  -- A turn of HeartbeatLoop: the text that is broadcast, and the table.
  unfoldable pub heartbeat : String → List String → ℤ → Peers → String × Peers
  heartbeat device_type capabilities now peers = (
    dump (
        of_items (
          ("swarm_type", of_string "heartbeat")
          ∷ ("status", of_string "active")
          ∷ ("device_type", of_string device_type)
          ∷ ("capabilities", of_elements (map of_string capabilities))
          ∷ [])),
    remove_stale_peers now peers,
  )

  unfoldable pub get_status_json : Peers → Json
  get_status_json peers = of_items (
      (
        "active_peers",
        of_elements (
            map
              (λ (b : String × SwarmPeer). of_items (
                ("ip", of_string b.1.ip_address)
                ∷ ("device_type", of_string b.1.device_type)
                ∷ ("capabilities", of_elements (map of_string b.1.capabilities))
                ∷ []))
              peers),
      )
      ∷ [])
