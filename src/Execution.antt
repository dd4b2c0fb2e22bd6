-- ===== src/Execution.antt =====
-- src/krakked/execution: order models, client-order-id correlation, user references, the exchange
-- adapter and the order management service.
pub mod Models
pub mod Correlation
pub mod Userref
pub mod Config
pub mod Oms
pub mod Router
pub mod Adapter
