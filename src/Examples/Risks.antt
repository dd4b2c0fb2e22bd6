-- ===== src/Examples/Risks.antt =====
-- The theorems on the risk engine, at the desk of the examples, and tests of its stages.
use krakked.Prelude.{◌≡◌, refl, String, true, false, Option, none, some, List, [], ◌∷◌, map, keep}
use krakked.Prelude.Text.{strip, str_eq}
use krakked.Prelude.Dict.{Dict, get, put, values}
use krakked.Prelude.Amounts.{keys, change_each, sum, sum_values}
use krakked.Prelude.Float.{Nano, nano_float, Nano-IsOrdered, Nano-IsScaling}
use krakked.Execution.Router.{classify_volume, round_order_size}
use krakked.Execution.Oms.Plan.{execute_plan}
use krakked.Execution.Oms.Plan.Routed.{routed}
use krakked.Execution.Oms.Plan.Boundary.{IsReduction}
use krakked.Execution.Oms.Plan.Submissions.{Adds, submitted_orders}
use krakked.Strategy.Models.{RiskAdjustedAction, StrategyIntent}
use krakked.Strategy.Risk.Model.{RiskContext, Throttle}
use krakked.Strategy.Risk.Pairs.{pair_key, positions_of, same_key, fallback_pair_key}
use krakked.Strategy.Risk.Context.{
  build_risk_context, context_of, pending_buys, strategy_exposures, exposures_from,
  is_manual_position, drawdown,
}
use krakked.Strategy.Risk.Limits.{
  from_targets, apply_limits, is_de_risking_target, clamped_targets, cap_strategies, limit_asset,
  limit_portfolio, limit_positions, share,
}
use krakked.Strategy.Risk.Limits.Lowered.{Lowers}
use krakked.Strategy.Risk.Limits.Budgets.{Budgeted, apply_limits-Budgeted}
use krakked.Strategy.Risk.Throttle.{build_throttle, apply_throttle}
use krakked.Strategy.Risk.Targets.{
  Holding, Group, judged, holding_of, with_manual, targets_of, limit_liquidity,
}
use krakked.Strategy.Risk.Targets.Judged.{judged-Lowers, judged-exit}
use krakked.Strategy.Risk.Kill.{block_all_opens, block_open, blocked_or_exit, exit_action, allowed}
use krakked.Strategy.Risk.Pair.{
  process_pair_intents, process_priced, tradeable, wanted, classify, kept,
}
use krakked.Strategy.Risk.Pair.Actions.{Sound, process_pair_intents-Sound}
use krakked.Strategy.Risk.Engine.{
  initial, is_killed, kill_reason, process_intents, decide, group_from,
}
use krakked.Strategy.Risk.Engine.Killed.{HaltedAll, process_intents-HaltedAll}
use krakked.Strategy.Risk.Engine.Groups.{
  firsts, pair_of, action_pair, members_of, process_intents-pairs,
}
use krakked.Strategy.Risk.Engine.Executed.{killed-execute_plan}
use krakked.Examples.Service.{
  nano_decimals, rounds_down, sources, calls_with, synced_account, start, plan, metadata,
}
use krakked.Examples.Desk.{usd, risk_config, desk, enter, leave}
use krakked.Prelude.Amounts.{sum}
use krakked.Prelude.Float.{Nano-IsGrowing, Nano-IsDifference}
use krakked.Strategy.Performance.{StrategyPerformance}
use krakked.Strategy.Allocator.{MarketRegime, compute_weights, preferred_regime}
use krakked.Strategy.Allocator.Caps.{IsCapped, build_effective_caps-IsCapped}
use krakked.Strategy.Risk.Limits.{build_effective_caps}
use krakked.Prelude.{inl, inr}

abbrev ctx : RiskContext Nano
ctx = (build_risk_context (desk false) [] 0).0

drifted_is_killed : is_killed (desk true) initial (build_risk_context (desk true) [] 0).0 ≡ true
unfolding build_risk_context context_of pending_buys strategy_exposures exposures_from
    is_manual_position drawdown sum put get
drifted_is_killed = refl

synced_is_free : is_killed (desk false) initial ctx ≡ false
unfolding build_risk_context context_of pending_buys strategy_exposures exposures_from
    is_manual_position drawdown sum put get
synced_is_free = refl

abbrev intents : List (StrategyIntent Nano)
intents = enter "XBTUSD" 900 ∷ leave ∷ enter "ETHUSD" 100 ∷ []

-- the actions of a killed engine
abbrev halted : List (RiskAdjustedAction Nano)
halted = (process_intents nano_decimals (desk true) intents none [] none initial 0).0

kinds_of_halted :
    map (λ (a : RiskAdjustedAction Nano). a.action_type) halted ≡ "none" ∷ "close" ∷ "none" ∷ []
unfolding process_intents decide block_all_opens block_open blocked_or_exit exit_action allowed
    classify_volume round_order_size build_risk_context context_of pending_buys strategy_exposures
    exposures_from is_manual_position drawdown sum put get positions_of pair_key fallback_pair_key
    same_key strip
kinds_of_halted = refl

process_intents-HaltedAll_example :
    HaltedAll
      (kill_reason (desk true) initial (build_risk_context (desk true) [] 0).0)
      intents
      halted
    × ((process_intents nano_decimals
          (desk true)
          intents
          none
          []
          none
          initial
          0).1.kill_switch_active
        ≡ true)
process_intents-HaltedAll_example =
    process_intents-HaltedAll Nano-IsOrdered Nano-IsDifference nano_decimals rounds_down (desk true)
      intents none [] none initial 0 drifted_is_killed

killed-execute_plan_example : Adds IsReduction [] (
    submitted_orders
      (execute_plan
        (routed nano_decimals sources (calls_with synced_account false))
        (record plan { actions = halted })
        2000
        start).1)
killed-execute_plan_example =
    killed-execute_plan Nano-IsOrdered Nano-IsDifference nano_decimals rounds_down sources
      (calls_with synced_account false) (desk true) intents none [] none initial 0
      (record plan { actions = halted }) 2000 start drifted_is_killed refl

process_intents-pairs_example :
    (map action_pair (process_intents nano_decimals (desk false) intents none [] none initial 0).0
      ≡ firsts (map pair_of intents))
    × ((pair : String)
        → members_of (get pair (group_from [] intents)) ≡ keep (λ i. str_eq i.pair pair) intents)
process_intents-pairs_example =
    process_intents-pairs nano_decimals (desk false) intents none [] none initial 0 synced_is_free

-- "trend" asks for 1500, holds 500, and may have 10 % of 10000
abbrev current : Dict Nano
current = ("trend", usd 500) ∷ []

abbrev asked : Dict Nano
asked = ("trend", usd 1500) ∷ []

asked_is_new_risk : is_de_risking_target asked current (sum_values current) ≡ false
unfolding is_de_risking_target sum_values sum values get
asked_is_new_risk = refl

limited_to_cap :
    (apply_limits
      (desk false).format
      risk_config
      ctx
      current
      current
      (usd 500)
      risk_config.max_per_strategy_pct
      asked).targets
    ≡ ("trend", usd 1000) ∷ []
unfolding apply_limits limit_positions limit_portfolio limit_asset cap_strategies clamped_targets
    is_de_risking_target sum_values sum values get put change_each build_risk_context context_of
    pending_buys strategy_exposures exposures_from is_manual_position drawdown
limited_to_cap = refl

apply_limits-Budgeted_example :
    Budgeted
      (share ctx.equity_usd (usd 10))
      (nano_float.sub (usd 500) (usd 500))
      (usd 1500)
      "trend"
      (apply_limits
        (desk false).format
        risk_config
        ctx
        current
        current
        (usd 500)
        risk_config.max_per_strategy_pct
        asked).targets
unfolding get
apply_limits-Budgeted_example =
    apply_limits-Budgeted Nano-IsOrdered Nano-IsScaling (desk false).format risk_config ctx current
      current (usd 500) "trend" (usd 10) (usd 1500) risk_config.max_per_strategy_pct asked
      (refl, tt) (refl, tt) refl refl refl asked_is_new_risk

abbrev holding : Holding Nano
holding = record { current = current; current_base = nano_float.lit 1 2; current_usd = usd 500 }

-- a throttle without regime data
abbrev throttle : Option (Throttle Nano)
throttle = build_throttle risk_config.market_regime_throttle none

judged-Lowers_example : Lowers (from_targets asked) (
    judged
      (desk false)
      ctx
      risk_config.max_per_strategy_pct
      throttle
      current
      (usd 500)
      none
      holding
      asked)
judged-Lowers_example =
    judged-Lowers Nano-IsOrdered Nano-IsScaling (desk false) ctx risk_config.max_per_strategy_pct
      throttle current (usd 500) none holding asked (refl, tt) (refl, tt)

abbrev trimmed : Dict Nano
trimmed = ("trend", usd 200) ∷ []

trimmed_is_less : nano_float.le (sum_values trimmed) (usd 500) ≡ true
unfolding sum_values sum values
trimmed_is_less = refl

trimmed_is_less_in_sum : nano_float.le (sum_values trimmed) (sum_values current) ≡ true
unfolding sum_values sum values
trimmed_is_less_in_sum = refl

judged-exit_example :
    judged
      (desk false)
      ctx
      risk_config.max_per_strategy_pct
      throttle
      current
      (usd 500)
      none
      holding
      trimmed
    ≡ from_targets trimmed
unfolding get
judged-exit_example =
    judged-exit Nano-IsOrdered Nano-IsScaling Nano-IsGrowing (desk false) ctx
      risk_config.max_per_strategy_pct throttle current (usd 500) none holding trimmed (λ e. cc e)
      (refl, tt) trimmed_is_less trimmed_is_less_in_sum

abbrev group : Group Nano
group = record { first = enter "XBTUSD" 900; later = [] }

process_pair_intents-Sound_example :
    Sound nano_decimals "XBTUSD"
      (some metadata)
      (process_pair_intents nano_decimals
        (desk false)
        ctx
        none
        risk_config.max_per_strategy_pct
        current
        (usd 500)
        "XBTUSD"
        group
        0).0
process_pair_intents-Sound_example =
    process_pair_intents-Sound nano_decimals (desk false) ctx none risk_config.max_per_strategy_pct
      current (usd 500) "XBTUSD" group 0

increased :
    (process_pair_intents nano_decimals
      (desk false)
      ctx
      none
      risk_config.max_per_strategy_pct
      current
      (usd 500)
      "XBTUSD"
      group
      0).0.action.action_type
    ≡ "increase"
unfolding process_pair_intents process_priced tradeable wanted classify kept targets_of with_manual
    holding_of judged apply_throttle limit_liquidity apply_limits limit_positions limit_portfolio
    limit_asset cap_strategies clamped_targets is_de_risking_target sum_values sum values get put
    change_each build_risk_context context_of pending_buys strategy_exposures exposures_from
    is_manual_position drawdown positions_of pair_key fallback_pair_key same_key strip
    classify_volume round_order_size
increased = refl

-- a performance, of which the allocator reads the result
abbrev performed : String → Nano → StrategyPerformance Nano
performed id pnl = record {
  strategy_id = id;
  realized_pnl_quote = pnl;
  window_start = 0;
  window_end = 100;
  trade_count = 1;
  win_rate = usd 0;
  max_drawdown_pct = usd 0;
}

-- a strategy that gains and one that loses, in a market that trends
abbrev performances : Dict (StrategyPerformance Nano)
performances =
    ("trend_core", performed "trend_core" (usd 100))
    ∷ ("mean_core", performed "mean_core" (nano_float.sub (usd 0) (usd 50)))
    ∷ []

abbrev regimes : Dict MarketRegime
regimes = ("XBT/USD", MarketRegime.trending) ∷ []

-- 66 %, cut to the maximum, and the rest
weights_60 :
    (compute_weights performances regimes risk_config).per_strategy_pct
    ≡ ("trend_core", usd 60) ∷ ("mean_core", nano_float.lit 34239130400 9) ∷ []
unfolding compute_weights preferred_regime
weights_60 = refl

build_effective_caps-IsCapped_example :
    IsCapped risk_config.max_strategy_weight_pct "mean_core"
      (build_effective_caps risk_config (some (compute_weights performances regimes risk_config)))
unfolding keys
build_effective_caps-IsCapped_example =
    build_effective_caps-IsCapped Nano-IsOrdered Nano-IsGrowing performances regimes risk_config
      "mean_core" refl (inr (inl refl))
