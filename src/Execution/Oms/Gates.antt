-- ===== src/Execution/Oms/Gates.antt =====
-- The gates of `execute_plan`: kill switch, live strategy boundary, account sync, portfolio drift,
-- unresolved submit intents and notional limits.
pub mod Frames
pub mod Truths
use krakked.Prelude.{
  String, Bool, true, false, not, ◌&&◌, Option, none, some, if◌then◌else◌, any, all,
}
use krakked.Prelude.Text.{member, strip}
use krakked.Prelude.Float.{Float, lt}
use krakked.Prelude.Dict.{Dict, get, values}
use krakked.Strategy.Models.{
  RiskAdjustedAction, ExecutionPlan, is_reducing, is_true_risk_reducing_action,
}
use krakked.Execution.Models.{Message}
use krakked.Execution.Config.{is_live, is_empty, live_submit_enabled, approved_live_strategy_ids}
use krakked.Execution.Oms.State.{
  on_option, Oms, M, Calls, AccountTruth, RiskStatus, is_submit_intent, pure, call, ◌>>=◌,
}

abbrev pub sync_order_blocked : String
sync_order_blocked =
    "Krakked cannot verify your live account right now, so this order was blocked before it reached Kraken. Orders will resume automatically once account sync recovers."

abbrev pub runtime_checks_unavailable : String
runtime_checks_unavailable =
    "Krakked cannot verify runtime safety checks right now, so this order was blocked before it reached Kraken. Orders will resume automatically once safety checks recover."

abbrev pub drift_order_blocked : String
drift_order_blocked =
    "Krakked detected a live portfolio mismatch, so this order was blocked before it reached Kraken. Orders will resume automatically once portfolio reconciliation is clean."

-- the account truth that was fetched for the plan: what the provider gave, or the block to apply
pub data Truth : Type 0 where
  unfetched : Truth
  known : AccountTruth → Truth
  unavailable : String → Truth

abbrev is_ok : Option Bool → Bool
is_ok none = false
is_ok (some b) = b

-- `portfolio_sync_ok is not None and not bool(portfolio_sync_ok)`
abbrev is_bad : Option Bool → Bool
is_bad none = false
is_bad (some b) = not b

abbrev kill_status : Bool → Option RiskStatus → Bool
kill_status live none = live
kill_status live (some status) = status.kill_switch_active

abbrev sync_of : Option RiskStatus → Option String
sync_of none = some runtime_checks_unavailable
sync_of (some status) =
    if is_ok status.truth.portfolio_sync_ok then none else some sync_order_blocked

abbrev drift_of : Option RiskStatus → Option String
drift_of none = some runtime_checks_unavailable
drift_of (some status) = if status.truth.drift_flag then some drift_order_blocked else none

module _ {F : Type 0} where
  -- the plan bypasses the kill switch: emergency reduce-only, with reducing actions alone
  abbrev pub is_emergency_bypass : ExecutionPlan F → Bool
  is_emergency_bypass plan = plan.emergency_reduce_only && all is_reducing plan.actions

module _ {F W : Type 0} where
  -- `_has_unresolved_opening_submit_intent`
  unfoldable pub has_unresolved_opening_submit_intent : Oms F W → Bool
  has_unresolved_opening_submit_intent s =
      any (λ o. is_submit_intent o && not o.risk_reducing) (values s.open_orders)

module _ {F : Type 0} ⦃f : Float F⦄ where
  abbrev or_notional : Option F → F → F
  or_notional none d = d
  or_notional (some x) d = x

  abbrev exceeds : F → Option F → Bool
  exceeds x none = false
  exceeds x (some limit) = lt limit x

module _ {F W : Type 0} ⦃f : Float F⦄ (c : Calls F W) where
  -- `_kill_switch_active`
  unfoldable pub kill_switch_active : ExecutionPlan F → M F W Bool
  kill_switch_active plan =
      if is_emergency_bypass plan
      then pure false
      else on_option c.risk_status_provider (pure true)
          (λ provider. do status ← call provider; pure (kill_status (is_live c.config) status))

  -- `_live_strategy_block_reason`
  unfoldable pub live_strategy_block_reason : RiskAdjustedAction F → Option Message
  live_strategy_block_reason action =
      let approved = approved_live_strategy_ids c.config in
      if not (live_submit_enabled c.config)
      then none
      else if is_true_risk_reducing_action action
      then none
      else if member (strip action.strategy_id) approved
      then none
      else if is_empty approved
      then some (
          Message.text
            "Live strategy boundary blocks opening risk: no strategy IDs are approved in execution.live_strategy_allowlist")
      else some (Message.strategy_not_approved (strip action.strategy_id))

  -- `_fresh_account_truth_for_opening_risk`
  unfoldable pub fresh_account_truth : M F W Truth
  fresh_account_truth = on_option c.account_truth_provider (pure unfetched) (λ provider.
      if not c.accepts_fresh_drift then pure (unavailable runtime_checks_unavailable) else do
        truth ← call provider
        pure (elim truth [ none ↦ unavailable runtime_checks_unavailable | some t ↦ known t ]))

  -- the truth to judge by: fetched again where none was and there is a provider
  abbrev with_truth : Truth → M F W Truth
  with_truth unfetched = fresh_account_truth
  with_truth truth = pure truth

  -- the status of the risk provider, where no account truth is known
  abbrev by_risk_status :
      Option String → (Option RiskStatus → Option String) → M F W (Option String)
  by_risk_status missing judge =
      on_option c.risk_status_provider (pure missing)
        (λ provider. do status ← call provider; pure (judge status))

  judge_sync : Truth → M F W (Option String)
  judge_sync unfetched = by_risk_status (some runtime_checks_unavailable) sync_of
  judge_sync (known t) = pure (if is_ok t.portfolio_sync_ok then none else some sync_order_blocked)
  judge_sync (unavailable message) = pure (some message)

  -- `_portfolio_sync_block_reason`
  unfoldable pub portfolio_sync_block_reason : RiskAdjustedAction F → Truth → M F W (Option String)
  unfolding judge_sync
  portfolio_sync_block_reason action truth =
      if not (live_submit_enabled c.config)
      then pure none
      else if is_true_risk_reducing_action action
      then pure none
      else do t ← with_truth truth; judge_sync t

  judge_drift : Truth → M F W (Option String)
  judge_drift unfetched = by_risk_status none drift_of
  judge_drift (known t) = pure (
      if is_bad t.portfolio_sync_ok
      then some runtime_checks_unavailable
      else if t.drift_flag
      then some drift_order_blocked
      else none)
  judge_drift (unavailable message) = pure (some message)

  -- `_portfolio_drift_block_reason`
  unfoldable pub portfolio_drift_block_reason : RiskAdjustedAction F → Truth → M F W (Option String)
  unfolding judge_drift
  portfolio_drift_block_reason action truth =
      if not (live_submit_enabled c.config)
      then pure none
      else if is_true_risk_reducing_action action
      then pure none
      else do t ← with_truth truth; judge_drift t

  -- `_evaluate_guardrails`
  unfoldable pub evaluate_guardrails : RiskAdjustedAction F → F → Dict F → F → Option Message
  evaluate_guardrails action order_notional pair_target_notional projected_total_exposure =
      let projected_pair = or_notional (get action.pair pair_target_notional) order_notional in
      if is_true_risk_reducing_action action
      then none
      else if exceeds projected_pair c.config.max_pair_notional_usd
      then some (Message.pair_limit_exceeded action.pair)
      else if exceeds projected_total_exposure c.config.max_total_notional_usd
      then some Message.total_limit_exceeded
      else none
