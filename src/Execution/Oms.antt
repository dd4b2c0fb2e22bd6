-- ===== src/Execution/Oms.antt =====
-- src/krakked/execution/oms.py: the order management service, `ExecutionService`.
pub mod State
pub mod Frame
pub mod Book
pub mod Sync
pub mod Gates
pub mod Exposure
pub mod Order
pub mod Plan
pub mod Cancel
pub mod DeadMan
