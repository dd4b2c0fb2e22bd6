-- ===== src/Strategy/Risk.antt =====
-- `RiskEngine` of src/krakked/strategy/risk.py: from the intents of the strategies to the actions of a
-- plan.
pub mod Model
pub mod Pairs
pub mod Context
pub mod Limits
pub mod Throttle
pub mod Kill
pub mod Volatility
pub mod Targets
pub mod Pair
pub mod Engine
