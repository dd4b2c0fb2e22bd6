-- ===== src/Strategy/Risk/Throttle.antt =====
-- The market-regime throttle of src/krakked/strategy/risk.py.
pub mod Lowering
use krakked.Prelude.{
  ℕ, suc, ◌+◌, String, Bool, true, false, not, ◌||◌, ◌&&◌, Option, none, some, List, [], ◌∷◌, ◌++◌,
  if◌then◌else◌, any, length, keep,
}
use krakked.Prelude.Text.{str_eq, concat, is_filled, starts_with, join}
use krakked.Prelude.Dict.{Dict, get, put}
use krakked.Prelude.Amounts.{get_or, change_each, all_entries}
use krakked.Prelude.Float.{Float, lt, zero_float, max_float, min_float}
use krakked.Strategy.Models.{RiskAdjustedAction}
use krakked.Strategy.Risk.Model.{ThrottleConfig, RegimeSnapshot, Throttle}
use krakked.Strategy.Risk.Limits.{
  Limited, from_targets, is_de_risking_target, is_manual, exceeds, epsilon, unless_manual,
}

abbrev pub throttle_prefix : String
throttle_prefix = "Market regime throttle"

module _ {F : Type 0} ⦃f : Float F⦄ where
  -- `_build_market_regime_throttle_payload`
  unfoldable pub build_throttle : ThrottleConfig → Option (RegimeSnapshot F) → Option (Throttle F)
  build_throttle config snapshot =
      if config.enabled
      then some (elim snapshot [
        | none ↦ record {
          available = false;
          regime = "unavailable";
          allocation_multiplier = zero_float;
          reason_codes = "market_regime_unavailable" ∷ [];
          unavailable_policy = config.unavailable_policy;
          throttled_actions = 0;
          blocked_actions = 0;
          clamped_actions = 0;
        }
        | some s ↦ record {
          available = true;
          regime = s.regime;
          allocation_multiplier = s.allocation_multiplier;
          reason_codes = s.reason_codes;
          unavailable_policy = config.unavailable_policy;
          throttled_actions = 0;
          blocked_actions = 0;
          clamped_actions = 0;
        }
      ])
      else none

  abbrev regime_of : Throttle F → String
  regime_of t = if is_filled t.regime then t.regime else "unknown"

  -- `_market_regime_throttle_reason`
  unfoldable pub throttle_reason : Throttle F → String
  throttle_reason t =
      let codes = join ", " (keep is_filled t.reason_codes) in
      concat (
        throttle_prefix
        ∷ " "
        ∷ regime_of t
        ∷ ": "
        ∷ (elim (keep is_filled t.reason_codes) [ [] ↦ "no reason codes" | _ ∷ _ ↦ codes ])
        ∷ [])

  -- a target without regime data: no more than what is held
  abbrev pub held_target : Dict F → String → F → F
  held_target current id target =
      let held = min_float target (get_or id current zero_float) in
      if lt held (f.sub target epsilon) then max_float held zero_float else target

  -- a target under a multiplier: scaled, if it is above what is held
  abbrev pub scaled_target : F → Dict F → String → F → F
  scaled_target multiplier current id target =
      let scaled = max_float (f.mul target multiplier) zero_float in
      if exceeds target (get_or id current zero_float) && lt scaled (f.sub target epsilon)
      then scaled
      else target

  -- whether a target is changed by them
  abbrev pub is_held_back : Dict F → String → F → Bool
  is_held_back current id target =
      lt (min_float target (get_or id current zero_float)) (f.sub target epsilon)

  abbrev pub is_scaled_down : F → Dict F → String → F → Bool
  is_scaled_down multiplier current id target =
      exceeds target (get_or id current zero_float)
      && lt (max_float (f.mul target multiplier) zero_float) (f.sub target epsilon)

  -- the targets after a change of some of them, and the reason if there is one
  abbrev pub changed_by : String → (String → F → Bool) → (String → F → F) → Dict F → Limited F
  changed_by reason test change targets = record {
    targets = change_each (unless_manual change) targets;
    reasons =
        if all_entries (λ id target. is_manual id || not (test id target)) targets
        then []
        else reason ∷ [];
  }

  -- `_apply_market_regime_throttle`
  pub throttled : Throttle F → Dict F → Dict F → Limited F
  throttled t current targets =
      if not t.available
      then (if str_eq t.unavailable_policy "block_new_risk"
          then changed_by (throttle_reason t) (is_held_back current) (held_target current) targets
          else from_targets targets)
      else if str_eq (regime_of t) "risk_on" || f.le (f.lit 1 0) t.allocation_multiplier
      then from_targets targets
      else changed_by (throttle_reason t) (is_scaled_down t.allocation_multiplier current)
          (scaled_target t.allocation_multiplier current) targets

  unfoldable pub apply_throttle : Option (Throttle F) → Dict F → F → Dict F → Limited F
  unfolding throttled
  apply_throttle none current current_usd targets = from_targets targets
  apply_throttle (some t) current current_usd targets =
      if is_de_risking_target targets current current_usd
      then from_targets targets
      else throttled t current targets

-- the actions that the throttle touched
abbrev pub is_throttled : {F : Type 0} → RiskAdjustedAction F → Bool
is_throttled a = any (λ reason. starts_with throttle_prefix reason) a.blocked_reasons

module _ {F : Type 0} where
  -- `_record_market_regime_throttle_results`
  unfoldable pub record_throttle :
      List (RiskAdjustedAction F) → Option (Throttle F) → Option (Throttle F)
  record_throttle actions none = none
  record_throttle actions (some t) =
      let touched = keep is_throttled actions in
      some (record t {
        throttled_actions = length touched;
        blocked_actions = length (keep (λ (a : RiskAdjustedAction F). a.blocked) touched);
        clamped_actions = length (keep (λ (a : RiskAdjustedAction F). a.clamped) touched);
      })
