-- ===== src/Examples/Service.antt =====
-- A live service on integers of 10^-9, with a router, an adapter that accepts every order, and a store.
use krakked.Prelude.{
  ◌≡◌, refl, zero, suc, arith, ℕ, ◌+◌, ◌-◌, ◌*◌, ◌/◌, ◌^◌, Bool, true, false, none, some, [], ◌∷◌,
}
use native.Mathlib.Nat.{zero-div}
use krakked.Prelude.Int.{pos, negsuc, sub_ℕ}
use krakked.Prelude.Float.{Nano, nano_float, ◌≼◌}
use krakked.Strategy.Models.{RiskAdjustedAction, ExecutionPlan}
use krakked.Execution.Models.{LocalOrder, Message}
use krakked.Execution.Config.{ExecutionConfig}
use krakked.Execution.Userref.{Seen}
use krakked.Execution.Oms.State.{Oms, Calls, PairMetadata, Submission, Built, Quote, AccountTruth}
use krakked.Execution.Oms.Plan.Routed.{routed}
use krakked.Execution.Router.{RoundsDown, Decimals, Sources, Ticker, build_order_payload}

-- a step of the grid of 10^-d
abbrev step : ℕ → ℕ
step d = 10 ^ (9 - d)

abbrev floor_to : ℕ → Nano → Nano
floor_to d (pos n) = pos (n / step d * step d)
floor_to d (negsuc n) = sub_ℕ 0 ((n / step d + 1) * step d)

abbrev half_up_to : ℕ → Nano → Nano
half_up_to d (pos n) = pos ((n + step d / 2) / step d * step d)
half_up_to d (negsuc n) = sub_ℕ 0 ((n + 1 + step d / 2) / step d * step d)

abbrev pub nano_decimals : Decimals Nano Nano
nano_decimals = record {
  decimal = λ x. some x;
  to_float = λ x. x;
  quantize_floor = λ d x. some (floor_to d x);
  quantize_half_up = λ d x. some (half_up_to d x);
}

floor_zero : (k : ℕ) → 0 / k * k ≡ 0
floor_zero k = rw (zero-div k) (omega arith)

floor_to-nonpositive : (n : ℕ) (x : Nano) → x ≼ pos 0 → floor_to n x ≼ pos 0
floor_to-nonpositive n (pos zero) h = rw (floor_zero (step n)) refl
floor_to-nonpositive n (pos (suc x)) h = ground (arith, h)
floor_to-nonpositive n (negsuc x) h = ground arith

pub rounds_down : RoundsDown nano_decimals
rounds_down = record { nonpositive = λ n x y z e q h. cc (e, q, floor_to-nonpositive n x h) }

abbrev pub config : ExecutionConfig Nano
config = record {
  mode = "live";
  default_order_type = "limit";
  max_slippage_bps = 50;
  time_in_force = "GTC";
  post_only = true;
  validate_only = false;
  allow_live_trading = true;
  paper_tests_completed = true;
  live_strategy_allowlist = " trend " ∷ [];
  dead_man_switch_seconds = 600;
  max_retries = 2;
  retry_backoff_seconds = 1;
  retry_backoff_factor = nano_float.lit 2 0;
  max_concurrent_orders = 2;
  min_order_notional_usd = nano_float.lit 20 0;
  max_pair_notional_usd = some (nano_float.lit 1000 0);
  max_total_notional_usd = some (nano_float.lit 5000 0);
  max_plan_age_seconds = 60;
}

abbrev pub metadata : PairMetadata Nano
metadata = record {
  canonical = "XBTUSD";
  rest_symbol = "XXBTZUSD";
  price_decimals = 1;
  volume_decimals = 8;
  min_order_size = nano_float.lit 1 4;
}

abbrev pub sources : Sources Nano Seen
sources = record {
  config = config;
  get_best_bid_ask =
      some
        (λ pair w. (Ticker.bid_ask (nano_float.lit 49990 0) (nano_float.lit 50010 0), w.outside));
  uuid5 = λ s. s;
  raw = λ s. 7;
  seen = λ w. w;
  put_seen = λ seen w. seen;
}

abbrev accept : LocalOrder Nano → Submission Nano
accept order = record {
  order = record order { status = "open"; kraken_order_id = some "OABC" };
  raised = none;
}

abbrev pub synced_account : AccountTruth
synced_account = record { portfolio_sync_ok = some true; drift_flag = false }

abbrev pub drifted_account : AccountTruth
drifted_account = record { portfolio_sync_ok = some false; drift_flag = true }

-- the calls of a service whose account is as given, with the kill switch on or off
abbrev pub calls_with : AccountTruth → Bool → Calls Nano Seen
calls_with truth killed = record {
  config = config;
  has_store = true;
  has_client = false;
  has_alerts = true;
  risk_status_provider =
      some (λ w. (some (record { kill_switch_active = killed; truth = truth }), w.outside));
  account_truth_provider = some (λ w. (some truth, w.outside));
  accepts_fresh_drift = true;
  get_pair_metadata = λ pair w. (some metadata, w.outside);
  get_latest_price = λ pair w. (Quote.quoted (some (nano_float.lit 50000 0)), w.outside);
  get_best_bid_ask = λ pair w. (none, w.outside);
  uuid4 = λ w. ("u4", w.outside);
  resolve_userref = λ userref w. (some none, w.outside);
  build_order = λ action plan meta w. (Built.invalid (Message.text "no router"), w.outside);
  build_payload = λ order meta. build_order_payload nano_decimals order config meta;
  submit_order = λ order meta price w. (accept order, w.outside);
  adapter_cancel_order = λ order w. (none, w.outside);
  adapter_cancel_all = λ w. (none, w.outside);
  get_open_orders = λ id w. (none, w.outside);
  get_closed_orders = λ id w. (none, w.outside);
  cancel_all_orders_after = none;
  stored_open_orders = λ w. [];
  stored_by_client_order_id = λ id w. none;
  stored_by_reference = λ id userref w. none;
  stored_snapshots = λ w. none;
}

abbrev pub service : AccountTruth → Bool → Calls Nano Seen
service truth killed = routed nano_decimals sources (calls_with truth killed)

-- the service at its start
abbrev pub start : Oms Nano Seen
start = record {
  open_orders = [];
  kraken_to_local = [];
  recent_executions = [];
  last_dead_man_refresh_at = none;
  world = record { outside = []; trace = [] };
}

abbrev pub open_long : RiskAdjustedAction Nano
open_long = record {
  pair = "XBTUSD";
  strategy_id = "trend";
  action_type = "open";
  target_base_size = nano_float.lit 1 2;
  target_notional_usd = nano_float.lit 500 0;
  current_base_size = nano_float.lit 0 0;
  reason = "signal";
  blocked = false;
  blocked_reasons = [];
  clamped = false;
  strategy_tag = none;
  userref = some "1001";
}

abbrev pub trim_long : RiskAdjustedAction Nano
trim_long = record open_long {
  pair = "ETHUSD";
  strategy_id = "mean";
  action_type = "reduce";
  current_base_size = nano_float.lit 5 2;
}

-- an order that opens risk for a strategy that is approved, one for one that is not, and a reduction
abbrev pub plan : ExecutionPlan Nano
plan = record {
  plan_id = "p1";
  generated_at = some 1000;
  actions = open_long ∷ record open_long { strategy_id = "other" } ∷ trim_long ∷ [];
  emergency_reduce_only = false;
  order_type = some "market";
  requested_price = none;
}

-- the order that the router builds of the first action
abbrev pub built : LocalOrder Nano
built = record {
  local_id = "p1-trend-XBTUSD-buy";
  plan_id = some "p1";
  strategy_id = some "trend";
  pair = "XBTUSD";
  side = "buy";
  order_type = "market";
  kraken_order_id = none;
  userref = some (pos 1001);
  requested_base_size = nano_float.lit 1 2;
  requested_price = none;
  status = "pending";
  cumulative_base_filled = nano_float.lit 0 0;
  avg_fill_price = none;
  risk_reducing = false;
  last_error = none;
  raw_request = none;
  raw_response = none;
}
