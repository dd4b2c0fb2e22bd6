-- ===== src/Execution/Oms/Plan/Submissions.antt =====
-- The orders that were submitted, newest first, and how a launch and a plan add to them.
use krakked.Prelude.{ap, ◌++◌, ℕ, ◌≡◌, refl, sym, subst, false, List, [], ◌∷◌, length, All, arith}
use krakked.Prelude.Float.{Float}
use krakked.Strategy.Models.{RiskAdjustedAction, ExecutionPlan}
use krakked.Execution.Models.{LocalOrder}
use krakked.Execution.Oms.State.{
  Oms, Calls, Event, submitted, saved, saved_result, status_updated, cancel_sent, cancel_all_sent,
  alerted, heartbeat, emit, PairMetadata,
}
use krakked.Execution.Oms.Frame.{Frame, is_submission}
use krakked.Execution.Oms.Order.{launch, launched}
use krakked.Execution.Oms.Order.Frames.{Keeps-stage, stage-launched}
use krakked.Execution.Oms.Plan.{Setup, execute_plan, eligible_actions, to_process}
use krakked.Execution.Oms.Plan.Launches.{Cleared}
use krakked.Execution.Oms.Plan.Runs.{Prepared, IsEligible, execute_plan-leads}

module _ {F : Type 0} where
  abbrev pub submissions : List (Event F) → List (LocalOrder F)
  submissions [] = []
  submissions (submitted o ∷ es) = o ∷ submissions es
  submissions (e ∷ es) = submissions es

  submissions-other :
      (e : Event F) (es : List (Event F))
      → is_submission e ≡ false
      → submissions (e ∷ es) ≡ submissions es
  submissions-other (submitted o) es h = cc h
  submissions-other (saved o) es h = refl
  submissions-other (saved_result o) es h = refl
  submissions-other (status_updated o) es h = refl
  submissions-other (cancel_sent o) es h = refl
  submissions-other cancel_all_sent es h = refl
  submissions-other (alerted o) es h = refl
  submissions-other (heartbeat o) es h = refl

module _ {F : Type 0} where
  -- what is submitted beyond `old` satisfies `R`
  abbrev pub Adds : (LocalOrder F → Type 0) → (old all : List (LocalOrder F)) → Type 0
  Adds R old all = (new : List (LocalOrder F)) × (all ≡ new ++ old) × All R new

  pub Adds-more :
      (R : LocalOrder F → Type 0) (o : LocalOrder F) (old all : List (LocalOrder F))
      → R o
      → Adds R old all
      → Adds R old (o ∷ all)
  Adds-more R o old all h (new, e, hs) = (o ∷ new, ap (λ os. o ∷ os) e, (h, hs))

module _ {F W : Type 0} where
  -- what a service has submitted so far
  abbrev pub submitted_orders : Oms F W → List (LocalOrder F)
  submitted_orders s = submissions s.world.trace

  pub Frame-submitted : (R : List (LocalOrder F) → Type 0) → Frame (λ s. R (submitted_orders s))
  Frame-submitted R = record {
    calls = record { outside = λ s w h. h };
    event = λ s e n h. subst R (sym (submissions-other e s.world.trace n)) h;
    filed = λ s o ids h. h;
    removed = λ s id h. h;
    indexed = λ s ids h. h;
    recent = λ s results h. h;
  }

module _ {F W : Type 0} ⦃f : Float F⦄ (c : Calls F W) where
  pub submitted-launch :
      (o : LocalOrder F) (meta : PairMetadata F) (s : Oms F W)
      → submitted_orders (launch c o meta s).1 ≡ launched c o meta ∷ submitted_orders s
  unfolding launch emit
  submitted-launch o meta s =
      let kept =
        (Keeps-stage c (Frame-submitted (λ os. os ≡ submitted_orders s)) o meta).at s refl in
      cc (kept, stage-launched c o meta s)

  -- what holds of each order that a plan launches holds of all that it submits
  pub execute_plan-All :
      (R : LocalOrder F → Type 0) (plan : ExecutionPlan F)
      → ((setup : Setup F) (a : RiskAdjustedAction F) (start : Oms F W) (o : LocalOrder F)
            (meta : PairMetadata F)
          → Prepared c plan setup
          → IsEligible c plan.actions a
          → Cleared c setup start a o
          → R (launched c o meta))
      → (started_at : ℕ) (s : Oms F W)
      → Adds R (submitted_orders s) (submitted_orders (execute_plan c plan started_at s).1)
  execute_plan-All R plan each started_at s =
      execute_plan-leads c {P = λ _ t. Adds R (submitted_orders s) (submitted_orders t)}
        (λ _. Frame-submitted (Adds R (submitted_orders s))) (λ m n le t h. h) plan
        (λ n setup a start o meta e i g. record {
          at = λ t h. subst (Adds R (submitted_orders s)) (sym (submitted-launch o meta t)) (
              Adds-more R (launched c o meta) (submitted_orders s) (submitted_orders t)
                (each setup a start o meta e i g) h);
        })
        started_at (length (to_process c (eligible_actions c plan.actions))) (omega arith) s
        ([], refl, tt)
