-- ===== src/Swarm/Tests.antt =====
-- SwarmManager at concrete inputs.
use claw.Base.{
  ℕ, String, ◌⧺◌, ◌≡◌, refl, ap, ◌∙◌, Bool, true, false, Option, none, some, List, [], ◌∷◌, ◌==◌,
  string_eq, if◌then◌else◌,
}
use claw.Base.Int.{ℤ, pos}
use claw.Base.Dict.{lookup}
use claw.Json.{JsonLib}
use claw.TestJson.{Value, str, num, test_json, at-of_items, elements-of_elements}
use claw.EventBus.Defs.{SystemEvent, battery_changed, stamped}
use claw.Swarm.Defs.{
  Peers, published, terminated, handle_incoming_packet, listen, on_local_event, event_json,
  remove_stale_peers, update_peer,
}
use claw.Json.Standard.{IsStandard}
use claw.Swarm.Events.{on_local_event-listen, listen-on_local_event}
use claw.Swarm.Peers.{
  Step, packet, sweep, after_step, after_steps, seen, last_heard, seen-after_steps,
}

abbrev battery : SystemEvent Value
battery = record {
  type = battery_changed;
  source = "battery";
  name = "battery.low";
  payload = num (pos 5);
  timestamp = 7;
  plugin_id = "builtin";
}

abbrev sent_packet : Value
sent_packet =
    test_json.of_items
      (("swarm_type", str "event") ∷ ("event", event_json test_json "tv" battery) ∷ [])

-- A library whose parser reads that packet.
abbrev one_packet : JsonLib
one_packet = record test_json { parse = λ text. some sent_packet }

one_packet-IsStandard : IsStandard one_packet
one_packet-IsStandard = record {
  is_object-of_items = λ items. refl;
  at-of_items = at-of_items;
  get_string-of_string = λ s. refl;
  get_int-of_int = λ n. refl;
  get_bool-of_bool = λ b. refl;
  is_array-of_elements = λ l. refl;
  elements-of_elements = elements-of_elements;
}

sent : on_local_event one_packet "tv" battery ≡ some "{}"
unfolding on_local_event
sent = refl

abbrev from_tv : SystemEvent Value
from_tv = record battery { source = "tv" ⧺ ("::" ⧺ "battery"); plugin_id = "remote_peer" }

listen-on_local_event_example :
    listen one_packet "10.0.0.2" [] "{}" "10.0.0.1" (pos 9) ≡ published from_tv
listen-on_local_event_example =
    listen-on_local_event one_packet one_packet-IsStandard "10.0.0.2" [] "10.0.0.1" (pos 9) battery
      "tv" "{}" refl sent refl

on_local_event-listen_example : on_local_event one_packet "oven" (stamped 9 from_tv) ≡ none
on_local_event-listen_example =
    on_local_event-listen one_packet "10.0.0.2" [] "{}" "10.0.0.1" (pos 9) from_tv 9 "oven"
      listen-on_local_event_example

-- A packet that is no object ends the program.
no_object : handle_incoming_packet test_json [] "true" "10.0.0.1" (pos 0) ≡ terminated
unfolding handle_incoming_packet
no_object = refl

abbrev steps : List (Step test_json)
steps =
    packet "10.0.0.1" (test_json.of_items (("device_type", str "tv") ∷ [])) (pos 1000)
    ∷ sweep (pos 2000)
    ∷ []

abbrev peers : Peers
peers =
    (
      "10.0.0.1",
      record {
        ip_address = "10.0.0.1";
        device_type = "tv";
        last_seen_ms = pos 1000;
        capabilities = [];
      },
    )
    ∷ []

table : after_steps test_json steps [] ≡ some peers
unfolding after_step update_peer remove_stale_peers lookup claw.Base.Dict.insert claw.Base.Int.◌-ℤ◌
table = refl

seen-after_steps_example :
    seen test_json (lookup "10.0.0.1" peers) ≡ last_heard test_json "10.0.0.1" steps none
seen-after_steps_example = seen-after_steps test_json "10.0.0.1" steps peers table
