-- ===== src/Execution/Oms/Plan/Truthful.antt =====
-- The account truth, and the orders that a plan submits.
use krakked.Prelude.{
  ℕ, ◌≡◌, refl, Bool, true, false, not, ◌&&◌, List, inl, inr, Bool-cases, Option, some, ◌⊎◌,
}
use krakked.Prelude.Float.{Float, IsOrdered, IsDifference}
use krakked.Strategy.Models.{RiskAdjustedAction, ExecutionPlan, is_true_risk_reducing_action}
use krakked.Execution.Models.{LocalOrder}
use krakked.Execution.Config.{live_submit_enabled, is_empty}
use krakked.Execution.Oms.State.{Oms, Calls, World, AccountTruth, PairMetadata}
use krakked.Execution.Oms.Order.{launched}
use krakked.Execution.Oms.Gates.{Truth, unfetched, fresh_account_truth}
use krakked.Execution.Oms.Gates.Truths.{
  reports_synced, reports_drift, passes_sync, passes_drift, fresh-passes_sync, fresh-passes_drift,
  sync_gate-blocks, drift_gate-blocks,
}
use krakked.Execution.Oms.Plan.{opening, execute_plan, Setup, plan_truth}
use krakked.Execution.Oms.Plan.Launches.{Cleared}
use krakked.Execution.Oms.Plan.Boundary.{Routing, IsReduction, truly_reducing, launched-IsReduction}
use krakked.Execution.Oms.Plan.Submissions.{Adds, submitted_orders, execute_plan-All}

module _ {F : Type 0} where
  abbrev pub IsReducing : LocalOrder F → Type 0
  IsReducing o = o.risk_reducing ≡ true

module _ {F W : Type 0} ⦃f : Float F⦄ (c : Calls F W) where
  -- the truth of a plan is not there, or is as what is fetched
  plan_truth-fails :
      (passes : Truth → Bool)
      → ((s : Oms F W) → passes (fresh_account_truth c s).0 ≡ false)
      → (xs : List (RiskAdjustedAction F)) (s : Oms F W)
      → ((plan_truth c xs s).0 ≡ unfetched) ⊎ (passes (plan_truth c xs s).0 ≡ false)
  unfolding plan_truth
  plan_truth-fails passes h xs s =
      elim (Bool-cases (live_submit_enabled c.config && not (is_empty (opening c xs)))) [
        | inl e ↦ rw e (inr (h s))
        | inr e ↦ rw e (inl refl)
      ]

module _ {F W : Type 0} ⦃f : Float F⦄ (ord : IsOrdered F) (diff : IsDifference F)
    (c : Calls F W) where
  -- an action whose opening gates cannot pass gives reductions alone
  Cleared-reduces :
      (setup : Setup F) (a : RiskAdjustedAction F) (start : Oms F W) (o : LocalOrder F)
      (meta : PairMetadata F)
      → Routing c
      → Cleared c setup start a o
      → ¬ (is_true_risk_reducing_action a ≡ false)
      → IsReduction (launched c o meta)
  Cleared-reduces setup a start o meta routing g n =
      elim (Bool-cases (is_true_risk_reducing_action a)) [
        | inl e ↦
            let (reduces, lowers) = truly_reducing c a e in
            launched-IsReduction ord diff c setup a start o meta routing g reduces lowers
        | inr e ↦ absurd (n e)
      ]

  -- With live submission on and an account truth provider that never reports a portfolio in sync, a
  -- plan submits only sales that are marked as reducing risk.
  pub execute_plan-unsynced :
      (plan : ExecutionPlan F) (started_at : ℕ) (s : Oms F W)
      (provider : World F W → Option AccountTruth × W)
      → Routing c
      → live_submit_enabled c.config ≡ true
      → c.account_truth_provider ≡ some provider
      → ((w : World F W) → reports_synced (provider w).0 ≡ false)
      → Adds IsReduction
          (submitted_orders s)
          (submitted_orders (execute_plan c plan started_at s).1)
  execute_plan-unsynced plan started_at s provider routing live given h =
      let fresh = fresh-passes_sync c provider given h in
      execute_plan-All c IsReduction plan
        (λ setup a start o meta e i g. Cleared-reduces setup a start o meta routing g (λ opens.
          sync_gate-blocks c a live opens fresh setup.truth
            (rw e.fetched (plan_truth-fails c passes_sync fresh e.actions e.at_fetch)) g.at_sync
            g.synced))
        started_at s

  -- With live submission on and an account truth provider whose every snapshot is missing, drifted or
  -- out of sync, a plan submits only sales that are marked as reducing risk.
  pub execute_plan-drifted :
      (plan : ExecutionPlan F) (started_at : ℕ) (s : Oms F W)
      (provider : World F W → Option AccountTruth × W)
      → Routing c
      → live_submit_enabled c.config ≡ true
      → c.account_truth_provider ≡ some provider
      → ((w : World F W) → reports_drift (provider w).0 ≡ true)
      → Adds IsReduction
          (submitted_orders s)
          (submitted_orders (execute_plan c plan started_at s).1)
  execute_plan-drifted plan started_at s provider routing live given h =
      let fresh = fresh-passes_drift c provider given h in
      execute_plan-All c IsReduction plan
        (λ setup a start o meta e i g. Cleared-reduces setup a start o meta routing g (λ opens.
          drift_gate-blocks c a live opens fresh setup.truth
            (rw e.fetched (plan_truth-fails c passes_drift fresh e.actions e.at_fetch)) g.at_drift
            g.undrifted))
        started_at s
