-- ===== src/Execution/Oms/Plan/Unresolved.antt =====
-- Submissions whose fate is unknown, and the orders that an action submits.
use krakked.Prelude.{
  ◌≡◌, refl, sym, ap, subst, ◌∙◌, Bool, true, false, not, ◌&&◌, [], ◌∷◌, any, arith, some, String,
}
use krakked.Prelude.Dict.{Dict, get, values}
use krakked.Prelude.Float.{Float}
use krakked.Strategy.Models.{RiskAdjustedAction}
use krakked.Execution.Models.{LocalOrder, ExecutionResult, Message}
use krakked.Execution.Config.{live_submit_enabled}
use krakked.Execution.Oms.State.{Oms, Calls, is_submit_intent}
use krakked.Execution.Oms.Gates.{has_unresolved_opening_submit_intent}
use krakked.Execution.Oms.Order.{launched, settle, failed_order}
use krakked.Execution.Oms.Order.Settled.{settle_raised-intent}
use krakked.Execution.Oms.Plan.{Setup, process_action}
use krakked.Execution.Oms.Plan.Launches.{Cleared, Leads-process_action}
use krakked.Execution.Oms.Plan.Submissions.{
  Adds, Adds-more, submitted_orders, Frame-submitted, submitted-launch,
}
use krakked.Execution.Oms.Plan.Boundary.{launched-reducing}
use krakked.Execution.Oms.Plan.Truthful.{IsReducing}

module _ {F : Type 0} where
  any-get :
      (p : LocalOrder F → Bool) (id : String) (d : Dict (LocalOrder F)) (o : LocalOrder F)
      → get id d ≡ some o
      → p o ≡ true
      → any p (values d) ≡ true
  unfolding get values
  any-get p id [] o e h = cc e
  any-get p id ((j, w) ∷ d) o e h = ground (arith, any-get p id d o, e, h)

module _ {F W : Type 0} ⦃f : Float F⦄ (c : Calls F W)
    (live : live_submit_enabled c.config ≡ true) where
  unresolved-book :
      (s t : Oms F W)
      → s.open_orders ≡ t.open_orders
      → has_unresolved_opening_submit_intent s ≡ has_unresolved_opening_submit_intent t
  unfolding has_unresolved_opening_submit_intent
  unresolved-book s t e =
      ap (λ d. any (λ (o : LocalOrder F). is_submit_intent o && not o.risk_reducing) (values d)) e

  waiting_lem :
      (setup : Setup F) (a : RiskAdjustedAction F) (start : Oms F W) (o : LocalOrder F)
      → has_unresolved_opening_submit_intent start ≡ true
      → Cleared c setup start a o
      → IsReducing o
  waiting_lem setup a start o waits g =
      ground (arith, live, g.resolved, unresolved-book g.at_route start g.same_book ∙ waits)

  -- With live submission on, and a submission of an opening order unresolved in the book, an action
  -- submits nothing but orders that reduce risk.
  pub process_action-waits :
      (setup : Setup F) (a : RiskAdjustedAction F) (r : ExecutionResult F) (s : Oms F W)
      → has_unresolved_opening_submit_intent s ≡ true
      → Adds IsReducing (submitted_orders s) (submitted_orders (process_action c setup a r s).1)
  process_action-waits setup a r s waits =
      let P = Adds IsReducing (submitted_orders s) in
      Leads-process_action c (Frame-submitted P) (Frame-submitted P) (λ t h. h) setup a s
        (λ o meta g. record {
          at = λ t h. subst P (sym (submitted-launch c o meta t)) (
              Adds-more IsReducing (launched c o meta) (submitted_orders s) (submitted_orders t)
                (launched-reducing c o meta ∙ waiting_lem setup a s o waits g) h);
        })
        r ([], refl, tt)

  -- With live submission on, an opening order whose submission raises with its status pending or
  -- unknown leaves the service with an unresolved intent, which blocks further opening orders.
  pub settle-unresolved :
      (left : LocalOrder F) (message : Message) (r : ExecutionResult F) (s : Oms F W)
      → is_submit_intent left ≡ true
      → left.risk_reducing ≡ false
      → has_unresolved_opening_submit_intent
          (settle c (record { order = left; raised = some message }) r s).1
        ≡ true
  unfolding has_unresolved_opening_submit_intent settle
  settle-unresolved left message r s intent opens =
      any-get (λ o. is_submit_intent o && not o.risk_reducing) left.local_id _
        (failed_order c message left) (settle_raised-intent c live message left r s intent)
        (rw intent (ground (arith, intent, opens)))
