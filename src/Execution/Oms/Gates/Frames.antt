-- ===== src/Execution/Oms/Gates/Frames.antt =====
-- Rules for the gates.
use krakked.Prelude.Float.{Float}
use krakked.Strategy.Models.{RiskAdjustedAction, ExecutionPlan}
use krakked.Execution.Oms.State.{Oms, Calls}
use krakked.Execution.Oms.Frame.{CallFrame, Keeps, Keeps-pure, Keeps-call, keeps_rules}
use krakked.Execution.Oms.Gates.{
  Truth, unfetched, known, unavailable, with_truth, judge_sync, judge_drift, kill_switch_active,
  fresh_account_truth, portfolio_sync_block_reason, portfolio_drift_block_reason,
}

module _ {F W : Type 0} ⦃f : Float F⦄ (c : Calls F W) {P : Oms F W → Type 0} (k : CallFrame P) where
  pub Keeps-kill_switch_active : (plan : ExecutionPlan F) → Keeps P (kill_switch_active c plan)
  unfolding kill_switch_active
  Keeps-kill_switch_active plan = search (keeps_rules, Keeps-call k)

  pub Keeps-fresh_account_truth : Keeps P (fresh_account_truth c)
  unfolding fresh_account_truth
  Keeps-fresh_account_truth = search (keeps_rules, Keeps-call k)

  Keeps-with_truth : (t : Truth) → Keeps P (with_truth c t)
  Keeps-with_truth unfetched = Keeps-fresh_account_truth
  Keeps-with_truth (known t) = Keeps-pure (known t)
  Keeps-with_truth (unavailable m) = Keeps-pure (unavailable m)

  Keeps-judge_sync : (t : Truth) → Keeps P (judge_sync c t)
  unfolding judge_sync
  Keeps-judge_sync unfetched = search (keeps_rules, Keeps-call k)
  Keeps-judge_sync (known t) = search keeps_rules
  Keeps-judge_sync (unavailable m) = search keeps_rules

  Keeps-judge_drift : (t : Truth) → Keeps P (judge_drift c t)
  unfolding judge_drift
  Keeps-judge_drift unfetched = search (keeps_rules, Keeps-call k)
  Keeps-judge_drift (known t) = search keeps_rules
  Keeps-judge_drift (unavailable m) = search keeps_rules

  pub Keeps-portfolio_sync_block_reason :
      (a : RiskAdjustedAction F) (t : Truth) → Keeps P (portfolio_sync_block_reason c a t)
  unfolding portfolio_sync_block_reason
  Keeps-portfolio_sync_block_reason a t = search (keeps_rules, Keeps-with_truth, Keeps-judge_sync)

  pub Keeps-portfolio_drift_block_reason :
      (a : RiskAdjustedAction F) (t : Truth) → Keeps P (portfolio_drift_block_reason c a t)
  unfolding portfolio_drift_block_reason
  Keeps-portfolio_drift_block_reason a t = search (keeps_rules, Keeps-with_truth, Keeps-judge_drift)
