-- ===== src/AutonomousTrigger.antt =====
-- AutonomousTrigger (core/autonomous_trigger.cc): rules on system events, their cooldown, and the
-- rate limit of the evaluations by the model.
pub mod Defs
pub mod Load
mod Lifecycle
mod Conditions
mod Cooldown
mod Threads
mod Tests
