-- ===== src/Portfolio/Ledger.antt =====
-- `Portfolio` of src/krakked/portfolio/portfolio.py: trades, cash flows, reconciliation and equity.
pub mod Model
pub mod Values
pub mod Trades
pub mod Reconcile
pub mod Equity
