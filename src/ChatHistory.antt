-- ===== src/ChatHistory.antt =====
-- The history of a session as the agent keeps it: sanitizing (storage/session_store.cc), compaction
-- and trimming (core/agent_core.cc).
pub mod Defs
pub mod Sanitize
pub mod Bounds
pub mod Pairs
pub mod Stuck
pub mod Tests
