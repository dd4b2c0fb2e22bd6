-- ===== src/Strategy/Risk/Kill.antt =====
-- `_block_all_opens` of src/krakked/strategy/risk.py: the actions under a kill switch.
use krakked.Prelude.{
  String, Bool, true, false, Option, none, some, List, [], ◌∷◌, if◌then◌else◌, map,
}
use krakked.Prelude.Text.{member, concat}
use krakked.Prelude.Amounts.{sum}
use krakked.Prelude.Float.{Float, lt, zero_float, max_float}
use krakked.Execution.Oms.State.{PairMetadata}
use krakked.Execution.Router.{Decimals, classify_volume}
use krakked.Strategy.Models.{RiskAdjustedAction, StrategyIntent}
use krakked.Strategy.Risk.Model.{Position, RiskContext, Price, Desk, Format, Listing}
use krakked.Strategy.Risk.Pairs.{positions_of, resolve_userref, resolve_strategy_tag}

abbrev pub is_exit : {F : Type 0} → StrategyIntent F → Bool
is_exit i = member i.intent_type ("exit" ∷ "reduce" ∷ [])

module _ {F : Type 0} where
  abbrev pub base_size : Position F → F
  base_size p = p.base_size

  abbrev pub meta_of : Option (Listing F) → Option (PairMetadata F)
  meta_of none = none
  meta_of (some l) = some l.meta

  -- `dust_reason` of src/krakked/execution/router.py
  unfoldable pub dust_reason : Format F → PairMetadata F → F → String
  dust_reason format meta rounded = concat (
      "Dust: rounded sell volume "
      ∷ format.repr rounded
      ∷ " < min_order_size "
      ∷ format.repr meta.min_order_size
      ∷ " for "
      ∷ meta.canonical
      ∷ [])

module _ {F D W : Type 0} ⦃f : Float F⦄ ⦃g : Float D⦄ (d : Decimals F D) (desk : Desk F W) where
  abbrev pub price_or_zero : Price F → F
  price_or_zero (Price.priced (some p)) = p
  price_or_zero _ = zero_float

  -- an action of an intent that changes no position
  abbrev pub idle : StrategyIntent F → F → F → String → List String → Bool → RiskAdjustedAction F
  idle i size price reason reasons blocked = record {
    pair = i.pair;
    strategy_id = i.strategy_id;
    action_type = "none";
    target_base_size = size;
    target_notional_usd = f.mul size price;
    current_base_size = size;
    reason = reason;
    blocked = blocked;
    blocked_reasons = reasons;
    clamped = false;
    strategy_tag = resolve_strategy_tag desk (i.strategy_id ∷ []);
    userref = resolve_userref desk (i.strategy_id ∷ []) (some i.timeframe);
  }

  abbrev pub target_usd : StrategyIntent F → F
  target_usd i = elim i.desired_exposure_usd [ none ↦ zero_float | some usd ↦ usd ]

  abbrev pub target_base : StrategyIntent F → F → F
  target_base i price = if lt zero_float price then f.div (target_usd i) price else zero_float

  unfoldable pub allowed : StrategyIntent F → F → F → String → RiskAdjustedAction F
  allowed i size price reason = record (idle i size price "" [] false) {
    action_type = if lt zero_float (target_base i price) then "reduce" else "close";
    target_base_size = target_base i price;
    target_notional_usd = target_usd i;
    reason = concat ("Allowed close/reduce during kill switch: " ∷ reason ∷ []);
  }

  -- the exit of a position, unless it is dust
  unfoldable pub exit_action :
      StrategyIntent F → F → F → Option (PairMetadata F) → String → RiskAdjustedAction F
  exit_action i size price none reason =
      idle i size price (concat ("Untradeable: missing pair metadata. " ∷ reason ∷ [])) [] false
  exit_action i size price (some meta) reason =
      let (rounded, ok) =
        classify_volume d meta (max_float (f.sub size (target_base i price)) zero_float) in
      if ok
      then allowed i size price reason
      else idle i size price (concat (dust_reason desk.format meta rounded ∷ ". " ∷ reason ∷ [])) []
          false

  unfoldable pub blocked_or_exit :
      StrategyIntent F → F → F → Option (PairMetadata F) → String → RiskAdjustedAction F
  blocked_or_exit i size price meta reason =
      if is_exit i
      then exit_action i size price meta reason
      else idle i size price (concat ("Blocked by Kill Switch: " ∷ reason ∷ [])) (reason ∷ []) true

  unfoldable pub block_open :
      RiskContext F → String → StrategyIntent F → W → RiskAdjustedAction F × W
  block_open ctx reason i w =
      let size = sum (map base_size (positions_of desk i.pair ctx.open_positions)) in
      let (listing, w1) = desk.get_pair_metadata i.pair w in
      let (price, w2) = desk.get_latest_price i.pair w1 in
      (blocked_or_exit i size (price_or_zero price) (meta_of listing) reason, w2)

  unfoldable pub block_all_opens :
      RiskContext F → String → List (StrategyIntent F) → W → List (RiskAdjustedAction F) × W
  block_all_opens ctx reason [] w = ([], w)
  block_all_opens ctx reason (i ∷ is) w =
      let (a, w1) = block_open ctx reason i w in
      let (as', w2) = block_all_opens ctx reason is w1 in (a ∷ as', w2)
