-- ===== src/ToolRouter.antt =====
-- Tool redirection: core/tool_router.hh, core/tool_router.cc, and the overlaps that
-- core/capability_registry.cc detects and core/agent_core.cc hands to the router.
pub mod Defs
pub mod Registry
pub mod Queries
pub mod Overlaps
mod Reported
pub mod Tests
