-- ===== src/Execution/Oms/Plan/Results.antt =====
-- What the result of a plan says, on every path.
use krakked.Prelude.{◌≡◌, true, none}
use krakked.Prelude.Float.{Float}
use krakked.Execution.Models.{ExecutionResult}
use krakked.Execution.Oms.State.{Oms, Calls}
use krakked.Execution.Oms.Plan.{Progress, continuing, aborted, raised, no_errors}
use krakked.Execution.Oms.Plan.Stopped.{Gives}

module _ {F : Type 0} where
  -- the result is complete, and a success just where it has no error
  abbrev pub IsClosed : ExecutionResult F → Type 0
  IsClosed r = (r.completed ≡ true) × (r.success ≡ no_errors r.errors)

module _ {F W : Type 0} ⦃f : Float F⦄ (c : Calls F W) where
  -- a plan that returns early returns a closed result, and one that raises has met a user reference
  -- that does not resolve
  abbrev EndsClosed : Progress F → Type 0
  EndsClosed (continuing r) = Unit
  EndsClosed (aborted r) = IsClosed r
  EndsClosed raised = Gives c (IsClosed {F = F}) none

  -- nothing is said of the result
  abbrev IsAny : ExecutionResult F → Type 0
  IsAny r = Unit
