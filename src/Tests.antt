-- ===== src/Tests.antt =====
-- Each theorem of the results that has hypotheses, applied where they hold.
pub mod Samples
mod Queues
mod Kernels
mod Processors
mod Parts
mod Locks
mod Parsing
mod Levels
mod Random
mod Isolated
mod Subtasks
mod Systems
mod Tasks
