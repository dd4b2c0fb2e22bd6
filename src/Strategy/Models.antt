-- ===== src/Strategy/Models.antt =====
-- src/krakked/strategy/models.py: the actions of the risk engine and the plan that carries them.
-- Snapshots kept for display (`risk_limits_snapshot`, most of `metadata`) are left out.
use krakked.Prelude.{ℕ, String, Bool, Option, List, ◌&&◌}
use krakked.Prelude.Text.{member}
use krakked.Prelude.{[], ◌∷◌}
use krakked.Prelude.Float.{Float, lt}

pub record RiskAdjustedAction (F : Type 0) : Type 0 where
  pub pair : String
  pub strategy_id : String
  pub action_type : String
  pub target_base_size : F
  pub target_notional_usd : F
  pub current_base_size : F
  pub reason : String
  pub blocked : Bool
  pub blocked_reasons : List String
  pub clamped : Bool
  pub strategy_tag : Option String
  pub userref : Option String

-- `generated_at` is an instant in microseconds, `none` if it is missing or no datetime; `order_type`
-- and `requested_price` are the entries of `metadata` that the execution layer reads
pub record ExecutionPlan (F : Type 0) : Type 0 where
  pub plan_id : String
  pub generated_at : Option ℕ
  pub actions : List (RiskAdjustedAction F)
  pub emergency_reduce_only : Bool
  pub order_type : Option String
  pub requested_price : Option F

module _ {F : Type 0} where
  -- `action.action_type in {"reduce", "close"}`
  abbrev pub is_reducing : RiskAdjustedAction F → Bool
  is_reducing a = member a.action_type ("reduce" ∷ "close" ∷ [])

module _ {F : Type 0} ⦃f : Float F⦄ where
  -- `ExecutionService._is_true_risk_reducing_action`
  unfoldable pub is_true_risk_reducing_action : RiskAdjustedAction F → Bool
  is_true_risk_reducing_action a = is_reducing a && lt a.target_base_size a.current_base_size

-- `generated_at` and the free `metadata` of an intent are not read by the risk engine
pub record StrategyIntent (F : Type 0) : Type 0 where
  pub strategy_id : String
  pub pair : String
  pub side : String
  pub intent_type : String
  pub desired_exposure_usd : Option F
  pub confidence : F
  pub timeframe : String
