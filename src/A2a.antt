-- ===== src/A2a.antt =====
-- A2AHandler (channel/a2a_handler.cc): tasks that other agents send over JSON-RPC.
pub mod Defs
mod Card
mod Config
mod Threads
mod Life
mod Replies
mod Tests
