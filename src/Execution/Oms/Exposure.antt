-- ===== src/Execution/Oms/Exposure.antt =====
-- The amounts that `execute_plan` checks its limits against: the targets by pair and the projected
-- exposure of the portfolio.
use krakked.Prelude.{
  ℕ, String, Bool, false, ◌+◌, ◌-◌, ◌/◌, Option, none, some, List, [], ◌∷◌, if◌then◌else◌, any, ltb,
}
use krakked.Prelude.Text.{str_eq, is_filled}
use krakked.Prelude.Float.{Float, lt, zero_float, max_float, abs_float}
use krakked.Prelude.Dict.{Dict, get, put}
use krakked.Strategy.Models.{RiskAdjustedAction, ExecutionPlan}
use krakked.Execution.Oms.State.{Calls, Snapshot, World}

abbrev distance : ℕ → ℕ → ℕ
distance a b = (a - b) + (b - a)

module _ {F : Type 0} ⦃f : Float F⦄ where
  -- `sum`, from the left
  unfoldable pub sum_floats : F → List F → F
  sum_floats acc [] = acc
  sum_floats acc (x ∷ xs) = sum_floats (f.add acc x) xs

  abbrev or_zero : Option F → F
  or_zero none = zero_float
  or_zero (some x) = x

  -- the loop that fills `pair_target_notional`
  unfoldable pub pair_targets : List (RiskAdjustedAction F) → Dict F → Dict F
  pair_targets [] d = d
  pair_targets (a ∷ rest) d =
      let target = max_float a.target_notional_usd zero_float in
      pair_targets rest (put a.pair (max_float (or_zero (get a.pair d)) target) d)

  -- the delta that counts as noise
  abbrev pub is_noise : RiskAdjustedAction F → Bool
  is_noise a = lt (abs_float (f.decimal_sub a.target_base_size a.current_base_size)) (f.lit 1 9)

  -- `min(snapshots, key=...)`: the first of the nearest
  nearest : ℕ → Snapshot F → List (Snapshot F) → Snapshot F
  nearest at best [] = best
  nearest at best (s ∷ rest) =
      nearest at (if ltb (distance s.timestamp at) (distance best.timestamp at) then s else best)
        rest

  abbrev latest_of : Option ℕ → Snapshot F → List (Snapshot F) → Snapshot F
  latest_of none first rest = first
  latest_of (some generated_at) first rest = nearest (generated_at / 1_000_000) first rest

  abbrev is_pair_of : Option String → List (RiskAdjustedAction F) → Bool
  is_pair_of none actions = false
  is_pair_of (some pair) actions =
      if is_filled pair then any (λ a. str_eq a.pair pair) actions else false

  passive_values : List (RiskAdjustedAction F) → List (Option String × F) → F → F
  passive_values actions [] acc = acc
  passive_values actions ((source_pair, value) ∷ rest) acc =
      passive_values actions rest (if is_pair_of source_pair actions then acc else f.add acc value)

  passive_exposure : List (RiskAdjustedAction F) → Snapshot F → List (Option String × F) → F
  unfolding passive_values
  passive_exposure actions latest [] =
      max_float zero_float (f.sub latest.equity_base latest.cash_base)
  passive_exposure actions latest (v ∷ rest) = passive_values actions (v ∷ rest) zero_float

  projected_from :
      ExecutionPlan F → List (RiskAdjustedAction F) → F → Option (List (Snapshot F)) → F
  unfolding nearest passive_exposure
  projected_from plan actions total none = total
  projected_from plan actions total (some []) = total
  projected_from plan actions total (some (first ∷ rest)) =
      let latest = latest_of plan.generated_at first rest in
      f.add (passive_exposure actions latest latest.valuations) total

module _ {F W : Type 0} ⦃f : Float F⦄ (c : Calls F W) where
  -- `_calculate_projected_exposure`
  unfoldable pub calculate_projected_exposure :
      ExecutionPlan F → List (RiskAdjustedAction F) → F → World F W → F
  unfolding projected_from
  calculate_projected_exposure plan actions total world =
      if c.has_store then projected_from plan actions total (c.stored_snapshots world) else total
