-- ===== src/Execution/Oms/Plan/Limits.antt =====
-- How many orders a plan submits.
use krakked.Prelude.{ℕ, ◌+◌, ◌≤◌, ◌<◌, ap, List, inl, inr, Bool-cases, length, length-take, arith}
use krakked.Prelude.Float.{Float}
use krakked.Strategy.Models.{RiskAdjustedAction, ExecutionPlan}
use krakked.Execution.Oms.State.{Oms, Calls}
use krakked.Execution.Oms.Plan.{execute_plan, eligible_actions, to_process, is_limited}
use krakked.Execution.Oms.Plan.Runs.{execute_plan-leads}
use krakked.Execution.Oms.Plan.Submissions.{submitted_orders, Frame-submitted, submitted-launch}

module _ {F W : Type 0} ⦃f : Float F⦄ (c : Calls F W) where
  to_process-length :
      (xs : List (RiskAdjustedAction F))
      → 0 < c.config.max_concurrent_orders
      → length (to_process c xs) ≤ c.config.max_concurrent_orders
  to_process-length xs h = elim (Bool-cases (is_limited c xs)) [
    | inl e ↦ rw e (omega (arith, length-take c.config.max_concurrent_orders xs))
    | inr e ↦ rw e (ground (arith, e, h))
  ]

  -- A plan submits no more orders than it has actions to process.
  pub execute_plan-submits_at_most :
      (plan : ExecutionPlan F) (started_at : ℕ) (s : Oms F W)
      → length (submitted_orders (execute_plan c plan started_at s).1)
        ≤ length (to_process c (eligible_actions c plan.actions)) + length (submitted_orders s)
  execute_plan-submits_at_most plan started_at s =
      execute_plan-leads c
        {P = λ n s'. length (submitted_orders s') ≤ n + length (submitted_orders s)}
        (λ n. Frame-submitted (λ os. length os ≤ n + length (submitted_orders s)))
        (λ m n le s' h. omega (arith, le, h)) plan
        (λ n setup a start o meta e i g. record {
          at = λ s' h. omega (arith, h, ap length (submitted-launch c o meta s'));
        })
        started_at (length (to_process c (eligible_actions c plan.actions))) (omega arith) s
        (omega arith)

  -- Where a concurrency limit is set, a plan submits no more orders than the limit.
  pub execute_plan-submits_within_limit :
      (plan : ExecutionPlan F) (started_at : ℕ) (s : Oms F W)
      → 0 < c.config.max_concurrent_orders
      → length (submitted_orders (execute_plan c plan started_at s).1)
        ≤ c.config.max_concurrent_orders + length (submitted_orders s)
  execute_plan-submits_within_limit plan started_at s h = omega (
    arith,
    execute_plan-submits_at_most plan started_at s,
    to_process-length (eligible_actions c plan.actions) h,
  )
