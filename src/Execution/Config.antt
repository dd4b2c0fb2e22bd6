-- ===== src/Execution/Config.antt =====
-- `ExecutionConfig` of src/krakked/config_models.py, the live guards of adapter.py and oms.py, and
-- the safety summary of src/krakked/safety.py. Counts and durations are naturals: a negative one takes
-- the branch of 0 wherever it is read.
pub mod Safety
use krakked.Prelude.{
  ℕ, String, Bool, true, false, not, ◌&&◌, ◌||◌, Option, none, some, List, [], ◌∷◌, if◌then◌else◌,
}
use krakked.Prelude.Text.{str_eq, is_filled, strip}

pub record ExecutionConfig (F : Type 0) : Type 0 where
  pub mode : String
  pub default_order_type : String
  pub max_slippage_bps : ℕ
  pub time_in_force : String
  pub post_only : Bool
  pub validate_only : Bool
  pub allow_live_trading : Bool
  pub paper_tests_completed : Bool
  pub live_strategy_allowlist : List String
  pub dead_man_switch_seconds : ℕ
  pub max_retries : ℕ
  pub retry_backoff_seconds : ℕ
  pub retry_backoff_factor : F
  pub max_concurrent_orders : ℕ
  pub min_order_notional_usd : F
  pub max_pair_notional_usd : Option F
  pub max_total_notional_usd : Option F
  pub max_plan_age_seconds : ℕ

abbrev pub is_some {ℓ} : {A : Type ℓ} → Option A → Bool
is_some none = false
is_some (some a) = true

-- the entries that are not blank, stripped
abbrev stripped : List String → List String
stripped [] = []
stripped (s ∷ rest) =
    let more = stripped rest in let t = strip s in if is_filled t then t ∷ more else more

-- the filter of `check_safety`: the entries that are not blank, as they are
filled_entries : List String → List String
filled_entries [] = []
filled_entries (s ∷ rest) =
    let more = filled_entries rest in if is_filled (strip s) then s ∷ more else more

module _ {F : Type 0} where
  abbrev pub is_live : ExecutionConfig F → Bool
  is_live c = str_eq c.mode "live"

  -- `get_live_trading_block_reason` of adapter.py
  unfoldable pub get_live_trading_block_reason : ExecutionConfig F → Option String
  get_live_trading_block_reason c =
      if not (is_live c) || c.validate_only
      then some "Live trading disabled by configuration"
      else if not c.allow_live_trading
      then some "Live trading not enabled. Use the system mode switch with authentication first."
      else if not c.paper_tests_completed
      then some "Live trading blocked until paper_tests_completed is True in the execution config."
      else none

  -- `ExecutionService._live_submit_enabled`
  unfoldable pub live_submit_enabled : ExecutionConfig F → Bool
  live_submit_enabled c =
      is_live c && not c.validate_only && not (is_some (get_live_trading_block_reason c))

  -- `ExecutionService._approved_live_strategy_ids`
  unfoldable pub approved_live_strategy_ids : ExecutionConfig F → List String
  approved_live_strategy_ids c = stripped c.live_strategy_allowlist

abbrev pub is_empty {ℓ} : {A : Type ℓ} → List A → Bool
is_empty [] = true
is_empty (x ∷ xs) = false

pub record SafetyStatus : Type 0 where
  pub live_mode_enabled : Bool
  pub validate_only : Bool
  pub live_order_submission_blocked : Bool
  pub allow_live_trading : Bool
  pub has_live_strategy_allowlist : Bool
  pub has_min_order_notional : Bool
  pub has_max_pair_notional : Bool
  pub has_max_total_notional : Bool
  pub has_max_concurrent_orders : Bool

module _ {F : Type 0} where
  -- `check_safety`; an `ExecutionConfig` always has a minimum notional and a number of orders
  pub check_safety : ExecutionConfig F → SafetyStatus
  check_safety c =
      let has_allowlist = not (is_empty (filled_entries c.live_strategy_allowlist)) in
      record {
        live_mode_enabled = is_live c;
        validate_only = c.validate_only || str_eq c.mode "paper";
        live_order_submission_blocked =
            not (is_live c) || c.validate_only || not c.allow_live_trading || not has_allowlist;
        allow_live_trading = c.allow_live_trading;
        has_live_strategy_allowlist = has_allowlist;
        has_min_order_notional = true;
        has_max_pair_notional = is_some c.max_pair_notional_usd;
        has_max_total_notional = is_some c.max_total_notional_usd;
        has_max_concurrent_orders = true;
      }
