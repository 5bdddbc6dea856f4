-- ===== src/EventBus/Tests.antt =====
-- A bus with two subscriptions at concrete inputs. A callback is a number.
use claw.Base.{
  ◌++◌, ℕ, none, some, arith, ◌≡◌, ◌≤◌, refl, string_eq, false, List, [], ◌∷◌, length, keep_if,
  if◌then◌else◌,
}
use claw.Base.Int.{pos}
use claw.TestJson.{Value, null}
use claw.EventBus.Defs.{
  battery_changed, custom, recent_app, SystemEvent, EventSourceDescriptor, EventBus, Subscription,
  new, publish, dispatch, subscribe, wants, register_event_source, unregister_event_source,
}
use claw.Base.Bytes.{codes}
use claw.EventBus.Sources.{named}
use claw.EventBus.Plugins.{Entry, read_descriptor, load_plugins}
use claw.EventBus.Plugins.Descriptor.{IsWritable}
use claw.EventBus.Plugins.Registered.{entry_for, load_plugins-latest}
use claw.EventBus.Queue.{
  Step, published, dispatched, Within, deliver, all_published, deliver-Within,
}
use claw.EventBus.Subscriptions.{
  Change, subscribed, subscribed_all, unsubscribed, run, with_id, unsubscribes,
  dispatched-subscribe,
}

abbrev pub low : SystemEvent Value
low = record {
  type = battery_changed;
  source = "battery";
  name = "battery.level_changed";
  payload = null;
  timestamp = 5;
  plugin_id = "builtin";
}

abbrev steps : List (Step Value)
steps = published 7 low ∷ published 8 (record low { timestamp = 0 }) ∷ dispatched ∷ []

deliver-Within_example :
    let (sent, bus) = deliver steps ([], new {J = Value} {C = ℕ}) in
    Within (sent ++ bus.queue) (all_published steps) × (length bus.queue ≤ 100)
deliver-Within_example = deliver-Within ℕ steps

deliver_test : (deliver steps ([], new {J = Value} {C = ℕ})).0 ≡ low ∷ []
unfolding deliver publish dispatch claw.EventBus.Defs.enqueue
deliver_test = refl

abbrev before : List (Change ℕ)
before = subscribed_all 3 ∷ unsubscribed 1 ∷ []

abbrev after : List (Change ℕ)
after = subscribed recent_app 5 ∷ []

dispatched-subscribe_example :
    let (bus, id) = subscribe (run {J = Value} before new) battery_changed 4 in
    with_id id (keep_if (wants low) (run after bus).subscribers) ≡ (
      if unsubscribes id after
      then []
      else record { id = id; type = battery_changed; match_all = false; callback = 4 } ∷ [])
dispatched-subscribe_example = dispatched-subscribe before after battery_changed 4 low

abbrev source : EventSourceDescriptor Value
source = record {
  name = "gps";
  plugin_id = "p";
  type = "event_source";
  version = "1";
  collect_method = "poll";
  poll_interval_sec = pos 5;
  events = [];
}

abbrev bus : EventBus Value ℕ
bus = record new { event_sources = record source { version = "0" } ∷ [] }

source-IsWritable : IsWritable source
source-IsWritable = record {
  has_name = refl;
  name = record { one_line = ground arith; bare = refl };
  type = record { one_line = ground arith; bare = refl };
  version = record { one_line = ground arith; bare = refl };
  collect_method = record { one_line = ground arith; bare = refl };
  interval = 5;
  interval-le = omega arith;
  poll_interval_sec = refl;
  events = refl;
}

-- A directory without a descriptor, and one whose descriptor has no name.
abbrev others : List Entry
others =
    record { filename = "r"; event_source_md = none }
    ∷ record { filename = "s"; event_source_md = some (codes "--- type: x") }
    ∷ []

load_plugins-latest_example :
    (named source.name
        (load_plugins
          (some (
            others
            ++ (entry_for source source-IsWritable (codes "# GPS" ∷ []) (codes "text") ∷ others)))
          bus).event_sources
      ≡ source ∷ [])
    × (named "gps" (load_plugins (some others) bus).event_sources ≡ named "gps" bus.event_sources)
unfolding read_descriptor
load_plugins-latest_example =
    load_plugins-latest source source-IsWritable (codes "# GPS" ∷ []) (codes "text") others others
      bus "gps" others (refl, tt) (ground arith, tt) (tt, (tt, tt)) (tt, (tt, tt))

-- A key that is nested in another one by spaces counts as if it were not, and the last one stays.
read_descriptor_test :
    read_descriptor {J = Value} "p"
      (codes "---" ++ (0x0a ∷ codes "name: gps" ++ (0x0a ∷ codes "  name: inner" ++ (0x0a ∷ []))))
    ≡ some (record {
      name = "inner";
      plugin_id = "p";
      type = "";
      version = "";
      collect_method = "";
      poll_interval_sec = pos 0;
      events = [];
    })
unfolding read_descriptor claw.EventBus.Plugins.read_members
read_descriptor_test = refl
