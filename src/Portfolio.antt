-- ===== src/Portfolio.antt =====
-- src/krakked/portfolio: the health of the account sync.
pub mod SyncStatus
pub mod Ledger
pub mod Balances
pub mod Manager
