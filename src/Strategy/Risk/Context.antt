-- ===== src/Strategy/Risk/Context.antt =====
-- `build_risk_context` of src/krakked/strategy/risk.py: the account as the engine sees it. The calls
-- whose result it throws away are left out, and so is the base asset of a pending order.
use krakked.Prelude.{
  String, Bool, true, false, not, ◌||◌, ◌&&◌, Option, none, some, List, [], ◌∷◌, ◌++◌,
  if◌then◌else◌, keep, map,
}
use krakked.Prelude.Text.{str_eq, is_filled}
use krakked.Prelude.Dict.{Dict, put}
use krakked.Prelude.Amounts.{sum, add_to}
use krakked.Prelude.Float.{Float, lt, zero_float, float_eq, max_float}
use krakked.Execution.Models.{LocalOrder}
use krakked.Strategy.Risk.Model.{Position, RiskContext, Price, Desk, Equity}

module _ {F : Type 0} ⦃f : Float F⦄ where
  abbrev hundred : F
  hundred = f.lit 100 0

  -- `x / y * 100.0` where `y` is not zero
  percent : F → F → F
  percent x y = if float_eq y zero_float then zero_float else f.mul (f.div x y) hundred

  -- `price or 0.0` of an answer, and whether there was an exception
  answered : Price F → F × Bool
  answered Price.stale = (zero_float, true)
  answered Price.failed = (zero_float, true)
  answered (Price.priced none) = (zero_float, false)
  answered (Price.priced (some p)) = (p, false)

  -- the price that an order names, if it is above zero
  named_price : LocalOrder F → Option F
  named_price o = elim o.requested_price [
    | none ↦ none
    | some p ↦ (if f.le p zero_float then none else some p)
  ]

  -- a pending buy as a position
  synthetic : LocalOrder F → F → Position F
  synthetic o price = record {
    pair = o.pair;
    base_size = o.requested_base_size;
    current_value_base =
        if float_eq price zero_float then zero_float else f.mul o.requested_base_size price;
    strategy_tag = o.strategy_id;
  }

  -- `_is_manual_position`
  unfoldable pub is_manual_position : Position F → Bool
  is_manual_position p = elim p.strategy_tag [
    | none ↦ true
    | some tag ↦ not (is_filled tag) || str_eq tag "manual"
  ]

  -- `strategy_tag or default`
  abbrev pub tag_or : Position F → String → String
  tag_or p d = elim p.strategy_tag [ none ↦ d | some tag ↦ (if is_filled tag then tag else d) ]

  abbrev pub value : Position F → F
  value p = p.current_value_base

  -- the exposure of each strategy, added up from what there is
  unfoldable pub exposures_from : Dict F → List (Position F) → Dict F
  exposures_from d [] = d
  exposures_from d (p ∷ ps) =
      exposures_from (add_to (tag_or p "unattributed") p.current_value_base d) ps

  percentages : F → Dict F → Dict F
  unfolding percent
  percentages equity [] = []
  percentages equity ((id, usd) ∷ d) =
      let rest = percentages equity d in
      if str_eq id "manual" then rest else (id, percent usd equity) ∷ rest

  highest : F → List F → F
  highest x [] = x
  highest x (y ∷ ys) = highest (max_float x y) ys

  -- the fall from the highest equity of a day, in percent
  unfoldable pub drawdown : F → List F → F
  unfolding highest
  drawdown equity snapshots =
      let top = highest equity snapshots in
      if lt zero_float top then f.mul (f.div (f.sub top equity) top) hundred else zero_float

module _ {F W : Type 0} ⦃f : Float F⦄ (desk : Desk F W) where
  price_of_pending : LocalOrder F → W → (F × Bool) × W
  unfolding named_price answered
  price_of_pending o w = elim (named_price o) [
    | some p ↦ ((p, false), w)
    | none ↦ let (price, w') = desk.get_latest_price o.pair w in (answered price, w')
  ]

  -- the pending buys, whether the price of one failed, and the world after the calls
  unfoldable pub pending_buys : List (LocalOrder F) → W → (List (Position F) × Bool) × W
  unfolding price_of_pending synthetic
  pending_buys [] w = (([], false), w)
  pending_buys (o ∷ os) w =
      let skip = pending_buys os w in
      let ((price, drift), w1) = price_of_pending o w in
      let (listing, w2) = desk.get_pair_metadata o.pair w1 in
      let ((later, drift'), w3) = pending_buys os w2 in
      if str_eq o.side "buy" then ((synthetic o price ∷ later, drift || drift'), w3) else skip

  abbrev flag_of : Option Bool → Bool
  flag_of none = false
  flag_of (some b) = b

  -- the exposure of each strategy, with the manual one where manual positions count
  unfoldable pub strategy_exposures : List (Position F) → F → Dict F
  strategy_exposures strategy_positions manual_usd =
      let d = exposures_from [] strategy_positions in
      if desk.config.include_manual_positions && lt zero_float manual_usd
      then put "manual" manual_usd d
      else d

  -- the context of what the account holds
  unfoldable pub context_of :
      Equity F → Bool → List (Position F) → Bool → List (String × F) → List F → RiskContext F
  unfolding percent percentages
  context_of equity drift positions pending_drift assets snapshots =
      let manual = keep is_manual_position positions in
      let strategy = keep (λ p. not (is_manual_position p)) positions in
      let manual_usd = sum (map value manual) in
      let counted = if desk.config.include_manual_positions then positions else strategy in
      let total = sum (map value counted) in
      let by_strategy = strategy_exposures strategy manual_usd in
      record {
        equity_usd = equity.equity_base;
        realized_pnl_usd = equity.realized_pnl_base_total;
        unrealized_pnl_usd = equity.unrealized_pnl_base_total;
        total_exposure_usd = total;
        total_exposure_pct = percent total equity.equity_base;
        manual_exposure_usd = manual_usd;
        manual_exposure_pct = percent manual_usd equity.equity_base;
        per_strategy_exposure_usd = by_strategy;
        per_strategy_exposure_pct =
            if float_eq equity.equity_base zero_float
            then []
            else percentages equity.equity_base by_strategy;
        open_positions = positions;
        asset_exposures = assets;
        manual_positions = manual;
        manual_positions_included = desk.config.include_manual_positions;
        drift_flag = equity.drift_flag || drift || pending_drift;
        daily_drawdown_pct = drawdown equity.equity_base snapshots;
      }

  unfoldable pub build_risk_context : List (LocalOrder F) → W → RiskContext F × W
  build_risk_context pending_orders w =
      let (equity, w1) = desk.get_equity w in
      let (drift, w2) = desk.get_drift_status w1 in
      let (positions, w3) = desk.get_positions w2 in
      let (assets, w4) = desk.get_asset_exposure w3 in
      let ((pending, pending_drift), w5) = pending_buys pending_orders w4 in
      let (snapshots, w6) = desk.get_snapshots w5 in
      (context_of equity (flag_of drift) (positions ++ pending) pending_drift assets snapshots, w6)
