-- ===== src/SafetyGuard.antt =====
-- The safety guard of core/safety_guard.hh and core/safety_guard.cc: role restrictions, device
-- exclusions, bounds on numeric arguments, confirmation, and the rate limit of physical actions.
pub mod Defs
pub mod Check
pub mod Rate
pub mod Load
pub mod Allowed
pub mod Window
pub mod Profile
pub mod Tests
