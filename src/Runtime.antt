-- ===== src/Runtime.antt =====
-- The execution of tasks, `AgentRuntime` (whisper/runtime.py).
pub mod Text
pub mod Select
pub mod Dispatch
pub mod Execute
pub mod Ring
pub mod Fitness
pub mod Routing
pub mod Started
pub mod Settle
pub mod Ending
pub mod Selected
pub mod Untouched
pub mod Waiting
pub mod Rescue
pub mod Shards
pub mod Loaded
