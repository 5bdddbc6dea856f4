-- ===== src/Scheduler.antt =====
-- TaskScheduler of the daemon (scheduler/task_scheduler.{hh,cc}): prompts that run at set times.
pub mod Calendar
pub mod Defs
pub mod Parse
mod Valid
mod Words
mod Written
mod Create
mod NextRun
mod Threads
mod Pass
mod Sound
mod Passes
mod Once
mod Runs
mod Views
pub mod Files
mod Load
mod Tests
