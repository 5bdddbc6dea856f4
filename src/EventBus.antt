-- ===== src/EventBus.antt =====
-- EventBus (core/event_bus.cc): the bounded queue, the subscriptions, the registered sources and
-- the dispatch. A callback is known by a parameter `C` only.
pub mod Defs
mod Queue
mod Subscriptions
mod Sources
mod Plugins
pub mod Tests
