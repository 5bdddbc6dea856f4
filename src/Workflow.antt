-- ===== src/Workflow.antt =====
-- WorkflowEngine of the agent (core/workflow_engine.{hh,cc}): stored sequences of prompts and tools.
pub mod Defs
pub mod Interpolate
mod Markdown
mod Results
mod Tests
