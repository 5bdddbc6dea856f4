-- ===== src/Pipeline.antt =====
-- PipelineExecutor (core/pipeline_executor.cc): the table of pipelines with its files, and
-- running a pipeline of steps with retries, conditions and jumps.
pub mod Defs
mod Jumps
mod Ends
mod Store
mod Condition
mod Tests
