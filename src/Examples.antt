-- ===== src/Examples.antt =====
-- Concrete runs: a small live service, tests of the definitions, and instances of the theorems.
pub mod Service
pub mod Plans
pub mod Parts
pub mod Adapters
pub mod Books
pub mod Desk
pub mod Risks
pub mod Ledgers
pub mod Syncs
pub mod Balances
