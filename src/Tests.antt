-- ===== src/Tests.antt =====
-- Runs of the operations at concrete inputs.
pub mod Inputs
mod Examples
mod LevelExamples
mod GraphExamples
mod ReduceExamples
mod QueueExamples
mod WalkExamples
mod StoreExamples
mod ManagerExamples
mod StartExamples
mod MarkExamples
