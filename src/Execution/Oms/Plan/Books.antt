-- ===== src/Execution/Oms/Plan/Books.antt =====
-- What a plan does to the book.
use krakked.Prelude.{ℕ, length, arith}
use krakked.Prelude.Float.{Float}
use krakked.Strategy.Models.{ExecutionPlan}
use krakked.Execution.Models.{LocalOrder}
use krakked.Execution.Oms.State.{Oms, Calls, PairMetadata, emit}
use krakked.Execution.Oms.Book.Keyed.{IsKeyed, Frame-IsKeyed}
use krakked.Execution.Oms.Order.{launch}
use krakked.Execution.Oms.Order.Frames.{Keeps-stage}
use krakked.Execution.Oms.Plan.{execute_plan, eligible_actions, to_process}
use krakked.Execution.Oms.Plan.Runs.{execute_plan-leads}

module _ {F W : Type 0} ⦃f : Float F⦄ (c : Calls F W) where
  launch-IsKeyed :
      (o : LocalOrder F) (meta : PairMetadata F) (s : Oms F W)
      → IsKeyed s
      → IsKeyed (launch c o meta s).1
  unfolding launch emit
  launch-IsKeyed o meta s h = (Keeps-stage c Frame-IsKeyed o meta).at s h

  -- A plan keeps each order of the book under its own local id, whatever the adapter, the store and
  -- the exchange answer.
  pub execute_plan-IsKeyed :
      (plan : ExecutionPlan F) (started_at : ℕ) (s : Oms F W)
      → IsKeyed s
      → IsKeyed (execute_plan c plan started_at s).1
  execute_plan-IsKeyed plan started_at s h =
      execute_plan-leads c {P = λ _ s'. IsKeyed s'} (λ _. Frame-IsKeyed) (λ m n le s' k. k) plan
        (λ n setup a start o meta e i g. record { at = launch-IsKeyed o meta }) started_at
        (length (to_process c (eligible_actions c plan.actions))) (omega arith) s h
