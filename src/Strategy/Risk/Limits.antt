-- ===== src/Strategy/Risk/Limits.antt =====
-- `_is_de_risking_target`, `_apply_limits` and `_build_effective_caps` of
-- src/krakked/strategy/risk.py. A step of `_apply_limits` is a function on the targets and the reasons.
pub mod Lowered
pub mod Budgets
use krakked.Prelude.{
  ℕ, String, Bool, true, false, not, ◌||◌, ◌&&◌, Option, none, some, List, [], ◌∷◌, ◌++◌,
  if◌then◌else◌, leb, length, keep,
}
use krakked.Prelude.Text.{str_eq, concat}
use krakked.Prelude.Dict.{Dict, get, put}
use krakked.Prelude.Amounts.{has, get_or, change_each, all_entries, sum_values}
use krakked.Prelude.Float.{Float, lt, zero_float, float_eq, max_float, min_float}
use krakked.Strategy.Risk.Model.{RiskConfig, RiskContext, Position, StrategyWeights, Format}

-- the targets by strategy, and the reasons so far
pub record Limited (F : Type 0) : Type 0 where
  pub targets : Dict F
  pub reasons : List String

-- targets that nothing is said of
abbrev pub from_targets : {F : Type 0} → Dict F → Limited F
from_targets targets = record { targets = targets; reasons = [] }

abbrev pub is_manual : String → Bool
is_manual id = str_eq id "manual"

module _ {F : Type 0} ⦃f : Float F⦄ where
  -- `epsilon`
  abbrev pub epsilon : F
  epsilon = f.lit 1 9

  -- `x > y + epsilon`
  abbrev pub exceeds : F → F → Bool
  exceeds x y = lt (f.add y epsilon) x

  abbrev is_empty : Dict F → Bool
  is_empty [] = true
  is_empty (e ∷ d) = false

  unfoldable pub is_de_risking_target : Dict F → Dict F → F → Bool
  is_de_risking_target targets current current_usd =
      if is_empty targets || exceeds (sum_values targets) current_usd
      then false
      else all_entries (λ id target. not (exceeds target (get_or id current zero_float))) targets

  -- the change of the targets that are not the manual one
  abbrev pub unless_manual : (String → F → F) → String → F → F
  unless_manual change id target = if is_manual id then target else change id target

  non_manual : Dict F → Dict F
  non_manual [] = []
  non_manual ((id, target) ∷ d) =
      let rest = non_manual d in if is_manual id then rest else (id, target) ∷ rest

  -- the targets of `clamp_total`
  unfoldable pub clamped_targets : F → Dict F → Dict F
  unfolding non_manual
  clamped_targets available targets =
      let manual_target = get_or "manual" targets zero_float in
      let total = sum_values (non_manual targets) in
      let remaining = f.sub available manual_target in
      let scale = if lt zero_float total then f.div remaining total else zero_float in
      if lt available manual_target
      then change_each (unless_manual (λ id target. zero_float)) targets
      else if f.le total remaining || float_eq total zero_float
      then targets
      else change_each (unless_manual (λ id target. f.mul target scale)) targets

  -- `clamp_total`: its reason is kept in every branch
  abbrev pub clamp_total : F → String → Limited F → Limited F
  clamp_total available reason l = record {
    targets = clamped_targets available l.targets;
    reasons = l.reasons ++ reason ∷ [];
  }

  -- a part of the equity
  abbrev pub share : F → F → F
  share equity pct = f.mul equity (f.div pct (f.lit 100 0))

module _ {F : Type 0} ⦃f : Float F⦄ (format : Format F) (config : RiskConfig F)
    (ctx : RiskContext F) (current : Dict F) (exposures : Dict F) (total_exposure_usd : F) where
  -- `({x:.2f} > {y:.2f})`
  abbrev above : F → F → String
  above x y = concat ("(" ∷ format.fixed x ∷ " > " ∷ format.fixed y ∷ ")" ∷ [])

  -- the exposure of a strategy outside of the pair
  abbrev pub other_pairs : String → F
  other_pairs id = f.sub (get_or id exposures zero_float) (get_or id current zero_float)

  budgeted : String → F → F → Limited F → Limited F
  budgeted id allowed target l =
      let projected = f.add (other_pairs id) target in
      let available = max_float (f.sub allowed (other_pairs id)) zero_float in
      if lt allowed projected
      then record {
        targets = put id (min_float target available) l.targets;
        reasons =
            l.reasons
            ++ concat ("Strategy " ∷ id ∷ " budget exceeded " ∷ above projected allowed ∷ []) ∷ [];
      }
      else l

  -- the cap of one strategy
  pub cap_strategy : String → F → Limited F → Limited F
  unfolding budgeted
  cap_strategy id pct l =
      if is_manual id && not ctx.manual_positions_included then l else elim (get id l.targets) [
        | none ↦ l
        | some target ↦ budgeted id (share ctx.equity_usd pct) target l
      ]

  unfoldable pub cap_strategies : Dict F → Limited F → Limited F
  unfolding cap_strategy
  cap_strategies [] l = l
  cap_strategies ((id, pct) ∷ caps) l = cap_strategies caps (cap_strategy id pct l)

  unfoldable pub limit_asset : Limited F → Limited F
  limit_asset l =
      let limit = share ctx.equity_usd config.max_per_asset_pct in
      let total = sum_values l.targets in
      if lt limit total
      then clamp_total (max_float limit zero_float)
          (concat ("Max per asset limit " ∷ above total limit ∷ [])) l
      else l

  unfoldable pub limit_portfolio : Limited F → Limited F
  limit_portfolio l =
      let limit = share ctx.equity_usd config.max_portfolio_risk_pct in
      let others = f.sub total_exposure_usd (sum_values current) in
      let projected = f.add others (sum_values l.targets) in
      if lt limit projected
      then clamp_total (max_float (f.sub limit others) zero_float)
          (concat ("Max portfolio exposure limit " ∷ above projected limit ∷ [])) l
      else l

  -- the open positions of more than ten dollars
  abbrev pub active_count : ℕ
  active_count = length (keep (λ p. lt (f.lit 10 0) p.current_value_base) ctx.open_positions)

  unfoldable pub limit_positions : Limited F → Limited F
  limit_positions l =
      if leb config.max_open_positions active_count
        && lt (sum_values current) (sum_values l.targets)
      then record {
        targets =
            change_each
              (unless_manual (λ id target. min_float target (get_or id current zero_float)))
              l.targets;
        reasons =
            l.reasons
            ++ concat ("Max open positions reached (" ∷ format.str_int active_count ∷ ")" ∷ [])
              ∷ [];
      }
      else l

  unfoldable pub apply_limits : Dict F → Dict F → Limited F
  apply_limits caps targets =
      if is_de_risking_target targets current (sum_values current)
      then from_targets targets
      else limit_positions
          (limit_portfolio (limit_asset (cap_strategies caps (from_targets targets))))

module _ {F : Type 0} ⦃f : Float F⦄ (config : RiskConfig F) where
  unfoldable pub lower_caps : Dict F → Dict F → Dict F
  lower_caps [] caps = caps
  lower_caps ((id, pct) ∷ weights) caps =
      lower_caps weights
        (put id (elim (get id caps) [ none ↦ pct | some cap ↦ min_float cap pct ]) caps)

  -- `_build_effective_caps`; weights are an object, so they are truthy where they are there
  unfoldable pub build_effective_caps : Option (StrategyWeights F) → Dict F
  unfolding lower_caps
  build_effective_caps none = config.max_per_strategy_pct
  build_effective_caps (some weights) =
      lower_caps weights.per_strategy_pct config.max_per_strategy_pct
