-- ===== src/ToolPolicy.antt =====
-- The tool policy of core/tool_policy.hh and core/tool_policy.cc: blocked tools, loop detection on
-- repeated calls, and idle detection on repeated outputs. Each method holds the object's mutex from
-- its first to its last line, so a call is one step. Counters are unbounded numbers.
pub mod Defs
pub mod Counts
pub mod Idle
pub mod Verdicts
pub mod Tests
