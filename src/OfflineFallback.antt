-- ===== src/OfflineFallback.antt =====
-- OfflineFallback of the agent (core/offline_fallback.{hh,cc}): rules that answer prompts where no
-- language model can be reached.
pub mod Defs
mod Keywords
mod Load
mod Best
mod Tests
