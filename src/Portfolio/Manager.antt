-- ===== src/Portfolio/Manager.antt =====
-- The live sync of src/krakked/portfolio/manager.py.
pub mod Model
pub mod Rules
pub mod Trades
pub mod Ledgers
pub mod Views
pub mod Sync
