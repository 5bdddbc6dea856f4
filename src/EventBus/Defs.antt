-- ===== src/EventBus/Defs.antt =====
-- The state of an EventBus and its methods. Each method holds its mutex throughout, so that it is
-- one step; DispatchLoop takes one event at a time and calls the subscribers of that moment with no
-- mutex held, so that what a callback does to the bus are steps that follow.
use claw.Base.{
  ℕ, suc, String, Bool, true, false, not, ◌||◌, Option, none, some, List, [], ◌∷◌, ◌++◌, length,
  drop, keep_if, leb, ◌==◌, string_eq, nat_eq, if◌then◌else◌,
}
use claw.Base.Int.{ℤ}

pub data EventType : Type 0 where
  app_lifecycle network_changed battery_changed display_changed package_changed memory_warning
        system_setting usb_changed bluetooth_changed location_changed recent_app custom :
      EventType

-- Equality of two values of the enum, by their numbers.
abbrev pub index : EventType → ℕ
index app_lifecycle = 0
index network_changed = 1
index battery_changed = 2
index display_changed = 3
index package_changed = 4
index memory_warning = 5
index system_setting = 6
index usb_changed = 7
index bluetooth_changed = 8
index location_changed = 9
index recent_app = 10
index custom = 11

abbrev pub same_type : EventType → EventType → Bool
same_type a b = index a == index b

pub record SystemEvent (J : Type 0) : Type 0 where
  pub type : EventType
  pub source : String
  pub name : String
  pub payload : J
  pub timestamp : ℕ
  pub plugin_id : String

pub record EventSchema (J : Type 0) : Type 0 where
  pub name : String
  pub description : String
  pub data_schema : J

pub record EventSourceDescriptor (J : Type 0) : Type 0 where
  pub name : String
  pub plugin_id : String
  pub type : String
  pub version : String
  pub collect_method : String
  pub poll_interval_sec : ℤ
  pub events : List (EventSchema J)

pub record Subscription (C : Type 0) : Type 0 where
  pub id : ℕ
  pub type : EventType
  pub match_all : Bool
  pub callback : C

abbrev pub max_queue_size : ℕ
max_queue_size = 100

pub record EventBus (J C : Type 0) : Type 0 where
  pub queue : List (SystemEvent J)
  pub subscribers : List (Subscription C)
  pub next_sub_id : ℕ
  pub event_sources : List (EventSourceDescriptor J)
  pub running : Bool

module _ {J : Type 0} where
  abbrev pub stamped : ℕ → SystemEvent J → SystemEvent J
  stamped now event = if event.timestamp == 0 then record event { timestamp = now } else event

  -- Bounded queue: drop oldest if full.
  unfoldable pub enqueue : List (SystemEvent J) → SystemEvent J → List (SystemEvent J)
  enqueue queue event =
      (if leb max_queue_size (length queue) then drop 1 queue else queue) ++ (event ∷ [])

module _ {J C : Type 0} where
  abbrev pub new : EventBus J C
  new = record {
    queue = [];
    subscribers = [];
    next_sub_id = 1;
    event_sources = [];
    running = false;
  }

  unfoldable pub publish : EventBus J C → ℕ → SystemEvent J → EventBus J C
  publish bus now event = record bus { queue = enqueue bus.queue (stamped now event) }

  abbrev add_subscription : EventBus J C → EventType → Bool → C → EventBus J C × ℕ
  add_subscription bus type match_all callback = (
    record bus {
      next_sub_id = suc bus.next_sub_id;
      subscribers =
          bus.subscribers
          ++ (record {
            id = bus.next_sub_id;
            type = type;
            match_all = match_all;
            callback = callback;
          }
              ∷ []);
    },
    bus.next_sub_id,
  )

  unfoldable pub subscribe : EventBus J C → EventType → C → EventBus J C × ℕ
  subscribe bus type callback = add_subscription bus type false callback

  unfoldable pub subscribe_all : EventBus J C → C → EventBus J C × ℕ
  subscribe_all bus callback = add_subscription bus custom true callback

  unfoldable pub unsubscribe : EventBus J C → ℕ → EventBus J C
  unsubscribe bus subscription_id = record bus {
    subscribers = keep_if (λ s. not (s.id == subscription_id)) bus.subscribers;
  }

  unfoldable pub unregister_event_source : EventBus J C → String → EventBus J C
  unregister_event_source bus source_name = record bus {
    event_sources = keep_if (λ d. not (d.name == source_name)) bus.event_sources;
  }

  unfoldable pub register_event_source : EventBus J C → EventSourceDescriptor J → EventBus J C
  register_event_source bus desc = record bus {
    event_sources = keep_if (λ d. not (d.name == desc.name)) bus.event_sources ++ (desc ∷ []);
  }

  abbrev pub wants : SystemEvent J → Subscription C → Bool
  wants event sub = sub.match_all || same_type sub.type event.type

  -- One turn of DispatchLoop that takes an event: the event, and the subscriptions that are called
  -- with it in this order. A callback that throws is caught, and the next one is called.
  unfoldable pub dispatch :
      EventBus J C → EventBus J C × Option (SystemEvent J × List (Subscription C))
  dispatch bus = elim bus.queue [
    | [] ↦ (bus, none)
    | event ∷ rest ↦
        (record bus { queue = rest }, some (event, keep_if (wants event) bus.subscribers))
  ]

  -- The events that are in the queue stay there.
  abbrev pub start : EventBus J C → EventBus J C
  start bus = record bus { running = true }

  abbrev pub stop : EventBus J C → EventBus J C
  stop bus = record bus { running = false }
