-- ===== src/Runs.antt =====
-- srcdiffvisual/runs: the durable store of history runs.
pub mod Types
pub mod Validate
pub mod Schema
pub mod Store
pub mod Queue
pub mod Progress
pub mod Invariant
pub mod Sound
pub mod Calls
pub mod Lifecycle
pub mod Outcomes
pub mod Endings
pub mod Acquire
pub mod Events
pub mod Worker
pub mod Executor
mod Tests
