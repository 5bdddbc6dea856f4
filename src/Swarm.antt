-- ===== src/Swarm.antt =====
-- SwarmManager of the agent (core/swarm_manager.{hh,cc}): peers on the local network, and the events
-- that they share.
mod Defs
mod Events
mod Peers
mod Tests
