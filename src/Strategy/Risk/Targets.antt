-- ===== src/Strategy/Risk/Targets.antt =====
-- The first stages of `_process_pair_intents` of src/krakked/strategy/risk.py: the targets of the
-- strategies, and what throttle, liquidity and limits leave of them.
pub mod Judged
use krakked.Prelude.{
  String, Bool, true, false, not, ◌||◌, ◌&&◌, Option, none, some, List, [], ◌∷◌, ◌++◌,
  if◌then◌else◌, map,
}
use krakked.Prelude.Text.{str_eq, member, concat, join}
use krakked.Prelude.Dict.{Dict, get, put}
use krakked.Prelude.Amounts.{has, get_or, add_to, sum, sum_values, change_each}
use krakked.Prelude.Float.{Float, lt, zero_float, float_eq, min_float, abs_float}
use krakked.Execution.Oms.State.{PairMetadata}
use krakked.Execution.Router.{Decimals, classify_volume}
use krakked.Strategy.Models.{RiskAdjustedAction, StrategyIntent}
use krakked.Strategy.Risk.Model.{
  Position, RiskContext, PairRiskResult, Price, Desk, Listing, Throttle,
}
use krakked.Strategy.Risk.Pairs.{
  positions_of, resolve_userref, resolve_strategy_tag, unique_strategy_ids,
}
use krakked.Strategy.Risk.Context.{tag_or}
use krakked.Strategy.Risk.Limits.{Limited, from_targets, apply_limits}
use krakked.Strategy.Risk.Throttle.{apply_throttle}
use krakked.Strategy.Risk.Kill.{base_size, meta_of, dust_reason}
use krakked.Strategy.Risk.Volatility.{size_by_volatility}

-- the intents of a pair: there is a first one
pub record Group (F : Type 0) : Type 0 where
  pub first : StrategyIntent F
  pub later : List (StrategyIntent F)

-- what is held of a pair, by strategy and in all
pub record Holding (F : Type 0) : Type 0 where
  pub current : Dict F
  pub current_base : F
  pub current_usd : F

module _ {F : Type 0} ⦃f : Float F⦄ where
  abbrev clamp_confidence : F → F
  clamp_confidence c =
      if lt c zero_float then zero_float else if lt (f.lit 1 0) c then f.lit 1 0 else c

  abbrev is_flat : StrategyIntent F → Bool
  is_flat i = str_eq i.side "flat" || member i.intent_type ("exit" ∷ "close" ∷ [])

  -- what each strategy holds at a price, added up from what there is
  holdings_from : F → Dict F → List (Position F) → Dict F
  holdings_from price d [] = d
  holdings_from price d (p ∷ ps) =
      holdings_from price (add_to (tag_or p "manual") (f.mul p.base_size price) d) ps

  unfoldable pub holding_of : F → List (Position F) → Holding F
  unfolding holdings_from
  holding_of price positions =
      let base = sum (map base_size positions) in
      record {
        current = holdings_from price [] positions;
        current_base = base;
        current_usd = f.mul base price;
      }

  -- a manual position keeps its size, unless an intent names it
  unfoldable pub with_manual : Dict F → Dict F → Dict F
  with_manual current targets =
      let manual = get_or "manual" current zero_float in
      if lt zero_float manual && not (has "manual" targets)
      then put "manual" manual targets
      else targets

module _ {F W : Type 0} ⦃f : Float F⦄ (desk : Desk F W) (ctx : RiskContext F) (caps : Dict F) where
  -- the target of one intent
  intent_target : String → F → StrategyIntent F → W → F × W
  intent_target pair price i w =
      if is_flat i
      then (zero_float, w)
      else (let sized : F × W = elim i.desired_exposure_usd [
        | some usd ↦ (usd, w)
        | none ↦ size_by_volatility desk ctx caps pair i.timeframe price i.strategy_id w
      ] in
          (f.mul sized.0 (clamp_confidence i.confidence), sized.1))

  -- the targets of the strategies: a later intent of a strategy takes the place of an earlier one
  unfoldable pub targets_of : String → F → List (StrategyIntent F) → Dict F → W → Dict F × W
  unfolding intent_target
  targets_of pair price [] targets w = (targets, w)
  targets_of pair price (i ∷ is) targets w =
      let (target, w') = intent_target pair price i w in
      targets_of pair price is (put i.strategy_id target targets) w'

  -- the minimum of liquidity: where a pair is below it, no target is above what is held
  unfoldable pub limit_liquidity : Option F → Holding F → Dict F → Limited F
  limit_liquidity none h targets = from_targets targets
  limit_liquidity (some liquidity) h targets =
      let threshold = desk.config.min_liquidity_24h_usd in
      if not (float_eq threshold zero_float)
        && lt h.current_usd (sum_values targets)
        && lt liquidity threshold
      then record {
        targets =
            change_each (λ id target. min_float target (get_or id h.current zero_float)) targets;
        reasons =
            concat (
              "Below min_liquidity_24h_usd ("
              ∷ desk.format.grouped liquidity
              ∷ " < "
              ∷ desk.format.grouped threshold
              ∷ ")"
              ∷ [])
            ∷ [];
      }
      else from_targets targets

  -- the throttle, the liquidity and the limits, one after the other
  unfoldable pub judged :
      Option (Throttle F) → Dict F → F → Option F → Holding F → Dict F → Limited F
  judged throttle exposures total liquidity h targets =
      let eased = apply_throttle throttle h.current h.current_usd targets in
      let liquid = limit_liquidity liquidity h eased.targets in
      let l =
        apply_limits desk.format desk.config ctx h.current exposures total caps liquid.targets in
      record { targets = l.targets; reasons = (eased.reasons ++ liquid.reasons) ++ l.reasons }
