-- ===== src/Workers.antt =====
-- workers/executor.py and workers/runtime.py, one child module for each part.
pub mod Executor
pub mod Registry
pub mod Resolve
pub mod Observation
pub mod Report
pub mod Runtime
pub mod Invocation
