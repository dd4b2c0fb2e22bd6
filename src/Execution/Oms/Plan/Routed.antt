-- ===== src/Execution/Oms/Plan/Routed.antt =====
-- `execute_plan` with the router of router.py.
use krakked.Prelude.{ℕ, ◌≡◌, true, false, Option, some}
use krakked.Prelude.Float.{Float, IsOrdered, IsDifference}
use krakked.Strategy.Models.{ExecutionPlan}
use krakked.Execution.Config.{live_submit_enabled}
use krakked.Execution.Oms.State.{Oms, Calls, World, AccountTruth}
use krakked.Execution.Router.{Decimals, Sources, build_order_from_plan_action, build_order_payload}
use krakked.Execution.Router.Orders.{build_order_from_plan_action-IsRouted}
use krakked.Execution.Oms.Gates.Truths.{reports_synced, reports_drift}
use krakked.Execution.Oms.Plan.{execute_plan}
use krakked.Execution.Oms.Plan.Submissions.{Adds, submitted_orders}
use krakked.Execution.Oms.Plan.Boundary.{
  Routing, IsApproved, IsReduction, execute_plan-submits-IsApproved,
}
use krakked.Execution.Oms.Plan.Truthful.{execute_plan-unsynced, execute_plan-drifted}

module _ {F D W : Type 0} ⦃f : Float F⦄ ⦃g : Float D⦄ (d : Decimals F D) (r : Sources F W)
    (c : Calls F W) where
  -- the service that routes by router.py
  abbrev pub routed : Calls F W
  routed = record c {
    config = r.config;
    build_order = build_order_from_plan_action d r;
    build_payload = λ order meta. build_order_payload d order r.config meta;
  }

  pub routed-Routing : Routing routed
  routed-Routing = record {
    strategy =
        λ a plan meta w o e. (build_order_from_plan_action-IsRouted d r a plan meta w o e).strategy;
    reducing =
        λ a plan meta w o e. (build_order_from_plan_action-IsRouted d r a plan meta w o e).reducing;
    side = λ a plan meta w o e. (build_order_from_plan_action-IsRouted d r a plan meta w o e).side;
  }

module _ {F D W : Type 0} ⦃f : Float F⦄ ⦃g : Float D⦄ (ord : IsOrdered F) (diff : IsDifference F)
    (d : Decimals F D) (r : Sources F W) (c : Calls F W) where
  -- With live submission on, floats that are ordered, and differences above zero only where the first is
  -- greater: for a strategy that is not approved, a plan submits only sales that are marked as reducing
  -- risk.
  pub routed-submits-IsApproved :
      (plan : ExecutionPlan F) (started_at : ℕ) (s : Oms F W)
      → live_submit_enabled r.config ≡ true
      → Adds
          (IsApproved (routed d r c))
          (submitted_orders s)
          (submitted_orders (execute_plan (routed d r c) plan started_at s).1)
  routed-submits-IsApproved plan started_at s live =
      execute_plan-submits-IsApproved ord diff (routed d r c) plan started_at s
        (routed-Routing d r c) live

  -- With live submission on, floats that are ordered, differences above zero only where the first is
  -- greater, and an account truth provider that never reports a portfolio in sync, a
  -- plan submits only sales that are marked as reducing risk.
  pub routed-unsynced :
      (plan : ExecutionPlan F) (started_at : ℕ) (s : Oms F W)
      (provider : World F W → Option AccountTruth × W)
      → live_submit_enabled r.config ≡ true
      → c.account_truth_provider ≡ some provider
      → ((w : World F W) → reports_synced (provider w).0 ≡ false)
      → Adds IsReduction
          (submitted_orders s)
          (submitted_orders (execute_plan (routed d r c) plan started_at s).1)
  routed-unsynced plan started_at s provider live given h =
      execute_plan-unsynced ord diff (routed d r c) plan started_at s provider
        (routed-Routing d r c) live given h

  -- With live submission on, floats that are ordered, differences above zero only where the first is
  -- greater, and an account truth provider whose every snapshot is missing, drifted or
  -- out of sync, a plan submits only sales that are marked as reducing risk.
  pub routed-drifted :
      (plan : ExecutionPlan F) (started_at : ℕ) (s : Oms F W)
      (provider : World F W → Option AccountTruth × W)
      → live_submit_enabled r.config ≡ true
      → c.account_truth_provider ≡ some provider
      → ((w : World F W) → reports_drift (provider w).0 ≡ true)
      → Adds IsReduction
          (submitted_orders s)
          (submitted_orders (execute_plan (routed d r c) plan started_at s).1)
  routed-drifted plan started_at s provider live given h =
      execute_plan-drifted ord diff (routed d r c) plan started_at s provider (routed-Routing d r c)
        live given h
