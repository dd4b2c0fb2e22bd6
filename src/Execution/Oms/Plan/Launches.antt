-- ===== src/Execution/Oms/Plan/Launches.antt =====
-- How a property goes through one action, and the gates before a launch.
use krakked.Prelude.{
  ◌≡◌, refl, Bool, false, not, ◌&&◌, Option, none, some, inl, inr, ◌⊎◌, String, Bool-cases,
}
use krakked.Prelude.Float.{Float, max_float, zero_float}
use krakked.Strategy.Models.{RiskAdjustedAction}
use krakked.Execution.Models.{LocalOrder, ExecutionResult, Message}
use krakked.Execution.Config.{live_submit_enabled}
use krakked.Execution.Oms.State.{call, Oms, M, Calls, World, PairMetadata, Built}
use krakked.Execution.Oms.Frame.{Frame, CallFrame, Keeps, Keeps-pure, Keeps-bind, Keeps-call}
use krakked.Execution.Oms.Gates.{
  live_strategy_block_reason, portfolio_sync_block_reason, portfolio_drift_block_reason,
  has_unresolved_opening_submit_intent, evaluate_guardrails,
}
use krakked.Execution.Oms.Gates.Frames.{
  Keeps-portfolio_sync_block_reason, Keeps-portfolio_drift_block_reason,
}
use krakked.Execution.Oms.Order.{add_error, launch, latest_price, submit}
use krakked.Execution.Oms.Order.Frames.{
  Keeps-finish, Keeps-refuse, Keeps-settle, Keeps-latest_price,
}
use krakked.Execution.Oms.Plan.{
  Setup, aborted, send, price_and_send, route, on_built, on_metadata, after_drift, after_sync,
  after_boundary, process_action,
}
use krakked.Execution.Oms.Plan.Frames.{Keeps-block_unresolved, Keeps-block_and_go_on}

module _ {F W : Type 0} ⦃f : Float F⦄ (c : Calls F W) where
  -- a live opening order waits for the unresolved intents
  abbrev pub held : LocalOrder F → Oms F W → Bool
  held o s =
      live_submit_enabled c.config && not o.risk_reducing && has_unresolved_opening_submit_intent s

  abbrev pub guard : Setup F → RiskAdjustedAction F → Option Message
  guard setup action =
      evaluate_guardrails c action (max_float action.target_notional_usd zero_float)
        setup.pair_target_notional setup.projected_total_exposure

-- The gates that an order has passed when it is launched. The calls of the gates are made one after
-- the other, each in a state of its own, and none of them changes the book of `start`.
pub record Cleared {F W : Type 0} ⦃f : Float F⦄ (c : Calls F W) (setup : Setup F) (start : Oms F W)
    (action : RiskAdjustedAction F) (order : LocalOrder F) : Type 0 where
  pub boundary : live_strategy_block_reason c action ≡ none
  pub at_sync : Oms F W
  pub synced : (portfolio_sync_block_reason c action setup.truth at_sync).0 ≡ none
  pub at_drift : Oms F W
  pub undrifted : (portfolio_drift_block_reason c action setup.truth at_drift).0 ≡ none
  pub meta : PairMetadata F
  pub at_build : World F W
  pub built : (c.build_order action setup.plan meta at_build).0 ≡ Built.order order
  pub at_route : Oms F W
  pub same_book : at_route.open_orders ≡ start.open_orders
  pub resolved : held c order at_route ≡ false
  pub guarded : guard c setup action ≡ none

-- `Q` holds of what `m` leaves where `P` held before
pub record Leads {F W A : Type 0} (P Q : Oms F W → Type 0) (m : M F W A) : Type 0 where
  pub at : (s : Oms F W) → P s → Q (m s).1

module _ {F W : Type 0} ⦃f : Float F⦄ (c : Calls F W) {P Q : Oms F W → Type 0} (kp : Frame P)
    (kq : Frame Q) (weaken : (s : Oms F W) → P s → Q s) (setup : Setup F)
    (action : RiskAdjustedAction F) (start : Oms F W)
    (launches : (o : LocalOrder F) (meta : PairMetadata F)
      → Cleared c setup start action o
      → Leads P Q (launch c o meta)) where
  Leads-Keeps : {A : Type 0} (m : M F W A) → Keeps P m → Leads P Q m
  Leads-Keeps m k = record { at = λ s h. weaken (m s).1 (k.at s h) }

  Leads-send :
      (o : LocalOrder F) (meta : PairMetadata F) (r : ExecutionResult F)
      (price : Message ⊎ Option F)
      → Cleared c setup start action o
      → Leads P Q (send c o meta r price)
  unfolding send submit
  Leads-send o meta r (inl reason) g = Leads-Keeps _ (Keeps-refuse c kp o reason r)
  Leads-send o meta r (inr price) g = record {
    at = λ s h.
        (Keeps-bind _ _ (Keeps-call kq.calls (c.submit_order (launch c o meta s).0 meta price))
            (λ sub. Keeps-settle c kq sub r)).at
          (launch c o meta s).1 ((launches o meta g).at s h);
  }

  Leads-price_and_send :
      (o : LocalOrder F) (meta : PairMetadata F) (r : ExecutionResult F) (guard : Option Message)
      → (guard ≡ none → Cleared c setup start action o)
      → Leads P Q (price_and_send c o meta r guard)
  unfolding price_and_send
  Leads-price_and_send o meta r (some reason) g = Leads-Keeps _ (Keeps-refuse c kp o reason r)
  Leads-price_and_send o meta r none g = record {
    at = λ s h.
        (Leads-send o meta r (latest_price c o s).0 (g refl)).at (latest_price c o s).1
          ((Keeps-latest_price c kp.calls o).at s h);
  }

  -- what holds up to the launch: `P`, and the book is that of the start
  abbrev At : Oms F W → Type 0
  At s = P s × (s.open_orders ≡ start.open_orders)

  At-CallFrame : CallFrame At
  At-CallFrame = record { outside = λ s w (h, e). (kp.calls.outside s w h, e) }

  still : {A : Type 0} (m : M F W A) → Keeps P m → Leads At Q m
  still m k = record { at = λ s (h, e). weaken (m s).1 (k.at s h) }

  Leads-route :
      (meta : PairMetadata F) (o : LocalOrder F) (r : ExecutionResult F)
      → ((s : Oms F W)
          → s.open_orders ≡ start.open_orders
          → held c o s ≡ false
          → guard c setup action ≡ none
          → Cleared c setup start action o)
      → Leads At Q (route c setup action meta o r)
  unfolding route
  Leads-route meta o r g = record {
    at = λ s (h, e'). elim (Bool-cases (held c o s)) [
      | inl e ↦ rw e ((still _ (Keeps-block_unresolved c kp setup action r)).at s (h, e'))
      | inr e ↦ rw e ((Leads-price_and_send o meta r (guard c setup action) (g s e' e)).at s h)
    ];
  }

  Leads-on_built :
      (meta : PairMetadata F) (r : ExecutionResult F) (built : Built F)
      → ((o : LocalOrder F)
          → built ≡ Built.order o
          → (s : Oms F W) → s.open_orders ≡ start.open_orders
          → held c o s ≡ false
          → guard c setup action ≡ none
          → Cleared c setup start action o)
      → Leads At Q (on_built c setup action meta r built)
  unfolding on_built
  Leads-on_built meta r (Built.invalid reason) g = still _ (Keeps-pure _)
  Leads-on_built meta r (Built.warning w) g = still _ (Keeps-pure _)
  Leads-on_built meta r (Built.order o) g = Leads-route meta o r (g o refl)

  Leads-on_metadata :
      (found : Option (PairMetadata F)) (r : ExecutionResult F)
      → ((o : LocalOrder F) (meta : PairMetadata F) (w : World F W)
          → (c.build_order action setup.plan meta w).0 ≡ Built.order o
          → (s : Oms F W) → s.open_orders ≡ start.open_orders
          → held c o s ≡ false
          → guard c setup action ≡ none
          → Cleared c setup start action o)
      → Leads At Q (on_metadata c setup action r found)
  unfolding on_metadata call
  Leads-on_metadata none r g = still _ (
      Keeps-bind _ _ (Keeps-finish c kp false (add_error (Message.text action.pair) r))
        (λ done. Keeps-pure (aborted done)))
  Leads-on_metadata (some meta) r g = record {
    at = λ s h.
        let s' = (call (c.build_order action setup.plan meta) s).1 in
        let built = (c.build_order action setup.plan meta s.world).0 in
        (Leads-on_built meta r built (λ o e. g o meta s.world e)).at s'
          ((Keeps-call At-CallFrame (c.build_order action setup.plan meta)).at s h);
  }

  Leads-after_drift :
      (at_sync at_drift : Oms F W) (reason : Option String) (r : ExecutionResult F)
      → live_strategy_block_reason c action ≡ none
      → (portfolio_sync_block_reason c action setup.truth at_sync).0 ≡ none
      → (portfolio_drift_block_reason c action setup.truth at_drift).0 ≡ reason
      → Leads At Q (after_drift c setup action r reason)
  unfolding after_drift
  Leads-after_drift at_sync at_drift (some reason) r b y d =
      still _ (Keeps-block_and_go_on c kp setup action (Message.text reason) r)
  Leads-after_drift at_sync at_drift none r b y d = record {
    at = λ s h.
        (Leads-on_metadata (call (c.get_pair_metadata action.pair) s).0 r
            (λ o meta w e s' same no g. record {
              boundary = b;
              at_sync = at_sync;
              synced = y;
              at_drift = at_drift;
              undrifted = d;
              meta = meta;
              at_build = w;
              built = e;
              at_route = s';
              same_book = same;
              resolved = no;
              guarded = g;
            })).at
          (call (c.get_pair_metadata action.pair) s).1
          ((Keeps-call At-CallFrame (c.get_pair_metadata action.pair)).at s h);
  }

  Leads-after_sync :
      (at_sync : Oms F W) (reason : Option String) (r : ExecutionResult F)
      → live_strategy_block_reason c action ≡ none
      → (portfolio_sync_block_reason c action setup.truth at_sync).0 ≡ reason
      → Leads At Q (after_sync c setup action r reason)
  unfolding after_sync
  Leads-after_sync at_sync (some reason) r b y =
      still _ (Keeps-block_and_go_on c kp setup action (Message.text reason) r)
  Leads-after_sync at_sync none r b y = record {
    at = λ s h.
        let (reason, s') = portfolio_drift_block_reason c action setup.truth s in
        (Leads-after_drift at_sync s reason r b y refl).at s'
          ((Keeps-portfolio_drift_block_reason c At-CallFrame action setup.truth).at s h);
  }

  Leads-after_boundary :
      (reason : Option Message) (r : ExecutionResult F)
      → live_strategy_block_reason c action ≡ reason
      → Leads At Q (after_boundary c setup action r reason)
  unfolding after_boundary
  Leads-after_boundary (some reason) r b =
      still _ (Keeps-block_and_go_on c kp setup action reason r)
  Leads-after_boundary none r b = record {
    at = λ s h.
        let (reason, s') = portfolio_sync_block_reason c action setup.truth s in
        (Leads-after_sync s reason r b refl).at s'
          ((Keeps-portfolio_sync_block_reason c At-CallFrame action setup.truth).at s h);
  }

  pub Leads-process_action :
      (r : ExecutionResult F) → P start → Q (process_action c setup action r start).1
  unfolding process_action
  Leads-process_action r h =
      (Leads-after_boundary (live_strategy_block_reason c action) r refl).at start (h, refl)
