-- ===== src/Strategy/Risk/Pair.antt =====
-- The last stages of `_process_pair_intents` of src/krakked/strategy/risk.py: the action that the targets
-- lead to, with what is too small to trade, and the whole of it.
pub mod Kinds
pub mod Actions
use krakked.Prelude.{
  String, Bool, true, false, not, ◌||◌, ◌&&◌, Option, none, some, List, [], ◌∷◌, ◌++◌,
  if◌then◌else◌, map,
}
use krakked.Prelude.Text.{str_eq, member, concat, join}
use krakked.Prelude.Dict.{Dict, get, put}
use krakked.Prelude.Amounts.{sum, sum_values}
use krakked.Prelude.Float.{Float, lt, zero_float, float_eq, abs_float}
use krakked.Execution.Oms.State.{PairMetadata}
use krakked.Execution.Router.{Decimals, classify_volume}
use krakked.Strategy.Models.{RiskAdjustedAction, StrategyIntent, is_reducing}
use krakked.Strategy.Risk.Model.{
  Position, RiskContext, PairRiskResult, Price, Desk, Listing, Throttle,
}
use krakked.Strategy.Risk.Pairs.{
  positions_of, resolve_userref, resolve_strategy_tag, unique_strategy_ids,
}
use krakked.Strategy.Risk.Limits.{Limited}
use krakked.Strategy.Risk.Kill.{base_size, meta_of, dust_reason}
use krakked.Strategy.Risk.Targets.{Group, Holding, holding_of, with_manual, targets_of, judged}

abbrev pub is_empty : List String → Bool
is_empty [] = true
is_empty (r ∷ rs) = false

abbrev reason_text : Bool → List String → String
reason_text blocked reasons =
    if is_empty reasons
    then "Aggregated Intent"
    else concat ((if blocked then "Blocked" else "Clamped") ∷ ": " ∷ join "; " reasons ∷ [])

module _ {F : Type 0} ⦃f : Float F⦄ where
  abbrev pub ten : F
  ten = f.lit 10 0

  -- what is decided on the sizes: the kind of action, and the notional that it ends at
  unfoldable pub classify : F → F → String × F
  classify current_usd target_usd =
      if lt (f.add current_usd ten) target_usd
      then (if float_eq current_usd zero_float then "open" else "increase", target_usd)
      else if lt target_usd (f.sub current_usd ten)
      then (if lt target_usd ten then ("close", zero_float) else ("reduce", target_usd))
      else ("none", target_usd)

  -- whether the reasons block the action: nothing is left, and it is no exit
  abbrev pub is_blocked : F → F → List String → Bool
  is_blocked current_usd target_usd reasons =
      not (is_empty reasons)
      && float_eq target_usd zero_float
      && not (lt target_usd (f.sub current_usd ten))

  -- the result that changes nothing, where a trade is too small or has no metadata
  unfoldable pub kept : String → Holding F → PairRiskResult F → PairRiskResult F
  kept reason h r = record {
    action = record r.action {
      action_type = "none";
      target_base_size = h.current_base;
      target_notional_usd = h.current_usd;
      reason = concat (reason ∷ ". " ∷ r.action.reason ∷ []);
      blocked = false;
      blocked_reasons = [];
      clamped = false;
    };
    current_usd = h.current_usd;
    target_usd = h.current_usd;
    current_by_strategy = h.current;
    target_by_strategy = h.current;
  }

  abbrev pub is_sell : PairRiskResult F → Holding F → Bool
  is_sell r h = lt (f.sub r.action.target_base_size h.current_base) zero_float

module _ {F W : Type 0} ⦃f : Float F⦄ (desk : Desk F W) where
  -- `_create_blocked_action`, as a result without exposure
  unfoldable pub without_price :
      RiskContext F → String → StrategyIntent F → String → PairRiskResult F
  without_price ctx pair first reason =
      let base = sum (map base_size (positions_of desk pair ctx.open_positions)) in
      record {
        action = record {
          pair = pair;
          strategy_id = first.strategy_id;
          action_type = "none";
          target_base_size = base;
          target_notional_usd = zero_float;
          current_base_size = base;
          reason = reason;
          blocked = true;
          blocked_reasons = reason ∷ [];
          clamped = false;
          strategy_tag = resolve_strategy_tag desk (first.strategy_id ∷ []);
          userref = resolve_userref desk (first.strategy_id ∷ []) none;
        };
        current_usd = zero_float;
        target_usd = zero_float;
        current_by_strategy = [];
        target_by_strategy = [];
      }

  -- the action of a pair at a price, before it is looked at as dust
  unfoldable pub wanted : String → F → Group F → Holding F → Limited F → PairRiskResult F
  wanted pair price g h l =
      let ids =
        unique_strategy_ids (map (λ (i : StrategyIntent F). i.strategy_id) (g.first ∷ g.later)) in
      let (kind, target_usd) = classify h.current_usd (sum_values l.targets) in
      let blocked = is_blocked h.current_usd target_usd l.reasons in
      record {
        action = record {
          pair = pair;
          strategy_id = join "," ids;
          action_type = kind;
          target_base_size = f.div target_usd price;
          target_notional_usd = target_usd;
          current_base_size = h.current_base;
          reason = reason_text blocked l.reasons;
          blocked = blocked;
          blocked_reasons = l.reasons;
          clamped = not (is_empty l.reasons) && not blocked;
          strategy_tag = resolve_strategy_tag desk ids;
          userref = resolve_userref desk ids (some g.first.timeframe);
        };
        current_usd = h.current_usd;
        target_usd = target_usd;
        current_by_strategy = h.current;
        target_by_strategy = l.targets;
      }

module _ {F D W : Type 0} ⦃f : Float F⦄ ⦃g : Float D⦄ (d : Decimals F D) (desk : Desk F W) where
  -- a close or reduce of a position that is dust itself
  dust_position : PairMetadata F → Holding F → PairRiskResult F → PairRiskResult F
  unfolding kept
  dust_position meta h r =
      let (rounded, ok) = classify_volume d meta h.current_base in
      if is_reducing r.action && not ok
      then kept (concat (dust_reason desk.format meta rounded ∷ " (Position)" ∷ [])) h r
      else r

  unfoldable pub tradeable :
      Option (PairMetadata F) → Holding F → PairRiskResult F → PairRiskResult F
  unfolding dust_position
  tradeable none h r = if is_sell r h then kept "Untradeable: missing pair metadata" h r else r
  tradeable (some meta) h r =
      let (rounded, ok) =
        classify_volume d meta (abs_float (f.sub r.action.target_base_size h.current_base)) in
      if is_sell r h && not ok
      then kept (dust_reason desk.format meta rounded) h r
      else dust_position meta h r

module _ {F D W : Type 0} ⦃f : Float F⦄ ⦃g : Float D⦄ (d : Decimals F D) (desk : Desk F W)
    (ctx : RiskContext F) (throttle : Option (Throttle F)) (caps exposures : Dict F)
    (total : F) where
  -- a pair that has a price
  unfoldable pub process_priced :
      String → F → Option (PairMetadata F) → Group F → W → PairRiskResult F × W
  process_priced pair price meta g w =
      let (listing, w1) = desk.get_pair_metadata pair w in
      let liquidity : Option F = elim listing [ none ↦ none | some l ↦ l.liquidity_24h_usd ] in
      let (targets, w2) = targets_of desk ctx caps pair price (g.first ∷ g.later) [] w1 in
      let h = holding_of price (positions_of desk pair ctx.open_positions) in
      let l =
        judged desk ctx caps throttle exposures total liquidity h (with_manual h.current targets) in
      (tradeable d desk meta h (wanted desk pair price g h l), w2)

  on_price : String → Option (PairMetadata F) → Group F → Price F → W → PairRiskResult F × W
  unfolding process_priced
  on_price pair meta g Price.stale w = (without_price desk ctx pair g.first "Stale price data", w)
  on_price pair meta g (Price.priced (some p)) w =
      if f.le p zero_float
      then (without_price desk ctx pair g.first "Missing price data", w)
      else process_priced pair p meta g w
  on_price pair meta g _ w = (without_price desk ctx pair g.first "Missing price data", w)

  -- `_process_pair_intents`
  unfoldable pub process_pair_intents : String → Group F → W → PairRiskResult F × W
  unfolding on_price
  process_pair_intents pair g w =
      let (listing, w1) = desk.get_pair_metadata pair w in
      let (price, w2) = desk.get_latest_price pair w1 in on_price pair (meta_of listing) g price w2
