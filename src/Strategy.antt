-- ===== src/Strategy.antt =====
-- src/krakked/strategy: the plans that the execution layer receives.
pub mod Models
pub mod Risk
pub mod Performance
pub mod Allocator
