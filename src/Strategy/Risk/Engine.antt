-- ===== src/Strategy/Risk/Engine.antt =====
-- `process_intents` and `get_status` of src/krakked/strategy/risk.py.
pub mod Killed
pub mod Groups
pub mod Executed
use krakked.Prelude.{
  String, Bool, true, false, not, ◌||◌, ◌&&◌, Option, none, some, List, [], ◌∷◌, ◌++◌,
  if◌then◌else◌, map,
}
use krakked.Prelude.Text.{str_eq, concat, join}
use krakked.Prelude.Dict.{Dict, get, put}
use krakked.Prelude.Amounts.{get_or, add_to}
use krakked.Prelude.Float.{Float, lt, zero_float, max_float}
use krakked.Execution.Models.{LocalOrder}
use krakked.Execution.Router.{Decimals}
use krakked.Strategy.Models.{RiskAdjustedAction, StrategyIntent}
use krakked.Strategy.Risk.Model.{
  RiskConfig, RiskContext, PairRiskResult, StrategyWeights, RegimeSnapshot, Throttle, Engine, Desk,
}
use krakked.Strategy.Risk.Context.{build_risk_context}
use krakked.Strategy.Risk.Limits.{build_effective_caps}
use krakked.Strategy.Risk.Throttle.{build_throttle, record_throttle}
use krakked.Strategy.Risk.Kill.{block_all_opens}
use krakked.Strategy.Risk.Targets.{Group}
use krakked.Strategy.Risk.Pair.{process_pair_intents}

abbrev pub initial : {F : Type 0} → Engine F
initial = record {
  kill_switch_active = false;
  manual_kill_switch_active = false;
  last_market_regime_throttle = none;
}

module _ {F : Type 0} where
  unfoldable pub set_manual_kill_switch : Bool → Engine F → Engine F
  set_manual_kill_switch active e = record e { manual_kill_switch_active = active }

  unfoldable pub clear_manual_kill_switch : Engine F → Engine F
  clear_manual_kill_switch e = record e { manual_kill_switch_active = false }

  append_to : StrategyIntent F → Option (Group F) → Group F
  append_to i none = record { first = i; later = [] }
  append_to i (some g) = record g { later = g.later ++ i ∷ [] }

  -- `intents_by_pair`, from what there is
  unfoldable pub group_from : Dict (Group F) → List (StrategyIntent F) → Dict (Group F)
  unfolding append_to
  group_from d [] = d
  group_from d (i ∷ is) = group_from (put i.pair (append_to i (get i.pair d)) d) is

module _ {F : Type 0} ⦃f : Float F⦄ where
  -- the exposure that is left and added by a result
  lower_each : Dict F → Dict F → Dict F
  lower_each [] d = d
  lower_each ((id, usd) ∷ rest) d =
      lower_each rest (put id (max_float zero_float (f.sub (get_or id d zero_float) usd)) d)

  raise_each : Dict F → Dict F → Dict F
  raise_each [] d = d
  raise_each ((id, usd) ∷ rest) d = raise_each rest (add_to id usd d)

  -- the exposures of the strategies after a pair
  unfoldable pub project : PairRiskResult F → Dict F → Dict F
  unfolding lower_each raise_each
  project r d = raise_each r.target_by_strategy (lower_each r.current_by_strategy d)

  abbrev pub project_total : PairRiskResult F → F → F
  project_total r total = max_float zero_float (f.add (f.sub total r.current_usd) r.target_usd)

module _ {F W : Type 0} ⦃f : Float F⦄ (desk : Desk F W) where
  abbrev when_so : Bool → String → List String
  when_so test reason = if test then reason ∷ [] else []

  abbrev pub is_drifted : RiskContext F → Bool
  is_drifted ctx = desk.config.kill_switch_on_drift && ctx.drift_flag

  abbrev pub is_drawn_down : RiskContext F → Bool
  is_drawn_down ctx = lt desk.config.max_daily_drawdown_pct ctx.daily_drawdown_pct

  abbrev pub is_killed : Engine F → RiskContext F → Bool
  is_killed e ctx = e.manual_kill_switch_active || is_drifted ctx || is_drawn_down ctx

  unfoldable pub kill_reason : Engine F → RiskContext F → String
  kill_reason e ctx = join "; " (
      when_so e.manual_kill_switch_active "Manual Kill Switch"
      ++ when_so (is_drifted ctx) "Portfolio Drift Detected"
      ++ when_so (is_drawn_down ctx) (
          concat (
            "Max Daily Drawdown Exceeded ("
            ∷ desk.format.fixed ctx.daily_drawdown_pct
            ∷ "%)"
            ∷ [])))

module _ {F D W : Type 0} ⦃f : Float F⦄ ⦃g : Float D⦄ (d : Decimals F D) (desk : Desk F W)
    (ctx : RiskContext F) (throttle : Option (Throttle F)) (caps : Dict F) where
  -- the pairs one after the other, each on the exposures that the earlier ones lead to
  unfoldable pub process_groups : Dict F → F → Dict (Group F) → W → List (RiskAdjustedAction F) × W
  process_groups exposures total [] w = ([], w)
  process_groups exposures total ((pair, group) ∷ rest) w =
      let (r, w1) = process_pair_intents d desk ctx throttle caps exposures total pair group w in
      let (actions, w2) = process_groups (project r exposures) (project_total r total) rest w1 in
      (r.action ∷ actions, w2)

module _ {F D W : Type 0} ⦃f : Float F⦄ ⦃g : Float D⦄ (d : Decimals F D) (desk : Desk F W) where
  -- the actions, under a kill switch or without one
  unfoldable pub decide :
      Bool
      → String
      → RiskContext F
      → Option (Throttle F)
      → Dict F
      → List (StrategyIntent F)
      → W
      → List (RiskAdjustedAction F) × W
  decide true reason ctx throttle caps intents w = block_all_opens d desk ctx reason intents w
  decide false reason ctx throttle caps intents w =
      process_groups d desk ctx throttle caps ctx.per_strategy_exposure_usd ctx.total_exposure_usd
        (group_from [] intents) w

  unfoldable pub process_intents :
      List (StrategyIntent F)
      → Option (StrategyWeights F)
      → List (LocalOrder F)
      → Option (RegimeSnapshot F)
      → Engine F
      → W
      → List (RiskAdjustedAction F) × Engine F × W
  process_intents intents weights pending_orders snapshot e w =
      let throttle = build_throttle desk.config.market_regime_throttle snapshot in
      let (ctx, w1) = build_risk_context desk pending_orders w in
      let killed = is_killed desk e ctx in
      let (actions, w2) =
        decide killed (kill_reason desk e ctx) ctx throttle
          (build_effective_caps desk.config weights) intents w1 in
      (
        actions,
        record e {
          kill_switch_active = killed;
          last_market_regime_throttle = record_throttle actions throttle;
        },
        w2,
      )

  -- the kill switch that `get_status` reports
  abbrev pub reported_kill_switch : Engine F → Bool
  reported_kill_switch e = e.kill_switch_active || e.manual_kill_switch_active
