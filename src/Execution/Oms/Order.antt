-- ===== src/Execution/Oms/Order.antt =====
-- The steps of `execute_plan` that deal with one order: rejecting it, pricing it, staging it ahead
-- of its submission, and settling what the adapter did.
pub mod Frames
pub mod Settled
use krakked.Prelude.{
  Bool, true, false, not, ◌&&◌, ◌||◌, Option, none, some, List, [], ◌∷◌, ◌++◌, if◌then◌else◌, inl,
  inr, ◌⊎◌,
}
use krakked.Prelude.Text.{str_eq, member}
use krakked.Prelude.Float.{Float, lt, zero_float, abs_float}
use krakked.Strategy.Models.{RiskAdjustedAction, ExecutionPlan}
use krakked.Execution.Models.{Message, LocalOrder, ExecutionResult}
use krakked.Execution.Config.{is_live, live_submit_enabled}
use krakked.Execution.Oms.State.{
  on_option, M, Calls, PairMetadata, Quote, failed, quoted, Submission, saved, saved_result,
  submitted, alerted, is_submit_intent, pure, call, emit, modify, when, ◌>>=◌, ◌>>◌, ◌>>?◌,
}
use krakked.Execution.Oms.Book.{register_order, write_through, record_execution_result}

module _ {F : Type 0} where
  abbrev pub new_result : ExecutionPlan F → ExecutionResult F
  new_result plan = record {
    plan_id = plan.plan_id;
    completed = false;
    success = false;
    orders = [];
    errors = [];
    warnings = [];
  }

  abbrev pub add_error : Message → ExecutionResult F → ExecutionResult F
  add_error e r = record r { errors = r.errors ++ e ∷ [] }

  abbrev pub add_order : LocalOrder F → ExecutionResult F → ExecutionResult F
  add_order o r = record r { orders = r.orders ++ o ∷ [] }

  abbrev pub add_warning : Message → ExecutionResult F → ExecutionResult F
  add_warning w r = record r { warnings = r.warnings ++ w ∷ [] }

  abbrev pub reject : Message → LocalOrder F → LocalOrder F
  reject reason order = record order { status = "rejected"; last_error = some reason }

module _ {F W : Type 0} ⦃f : Float F⦄ (c : Calls F W) where
  abbrev pub save : LocalOrder F → M F W (Unit {0})
  save order = when c.has_store (emit (saved order))

  close : ExecutionResult F → M F W (ExecutionResult F)
  close done = do
    modify (record_execution_result done)
    when c.has_store (emit (saved_result done))
    pure done

  -- the end of every path: the result is recorded and stored
  unfoldable pub finish : Bool → ExecutionResult F → M F W (ExecutionResult F)
  unfolding close
  finish success r = close (record r { completed = true; success = success })

  unfoldable pub save_rejected : LocalOrder F → M F W (Option (LocalOrder F))
  save_rejected order = do save order; pure (some order)

  -- `_create_rejected_order`; the `ValueError` of `resolve_userref` leaves it
  unfoldable pub create_rejected_order :
      ExecutionPlan F → RiskAdjustedAction F → Message → M F W (Option (LocalOrder F))
  unfolding save_rejected
  create_rejected_order plan action reason = do
    local_id ← call c.uuid4
    resolved ← call (c.resolve_userref action.userref)
    let delta = f.sub action.target_base_size action.current_base_size
    on_option resolved (pure none) (λ userref. save_rejected (record {
      local_id = local_id;
      plan_id = some plan.plan_id;
      strategy_id = some action.strategy_id;
      pair = action.pair;
      side = if lt zero_float delta then "buy" else "sell";
      order_type = (elim plan.order_type [ none ↦ "" | some t ↦ t ]);
      kraken_order_id = none;
      userref = userref;
      requested_base_size = abs_float delta;
      requested_price = plan.requested_price;
      status = "rejected";
      cumulative_base_filled = zero_float;
      avg_fill_price = none;
      risk_reducing = false;
      last_error = some reason;
      raw_request = none;
      raw_response = none;
    }))

  -- a blocked action: a rejected order, and the reason among the errors
  unfoldable pub block :
      ExecutionPlan F
      → RiskAdjustedAction F
      → Message
      → ExecutionResult F
      → M F W (Option (ExecutionResult F))
  block plan action reason r = create_rejected_order plan action reason >>? λ order.
      pure (some (add_order order (add_error reason r)))

  abbrev pub needs_fill_price : LocalOrder F → Bool
  needs_fill_price order =
      not c.config.validate_only
      && member c.config.mode ("paper" ∷ "dry_run" ∷ [])
      && str_eq order.order_type "market"
      && (elim order.requested_price [ none ↦ true | some _ ↦ false ])

  abbrev pub needs_notional_price : LocalOrder F → Bool
  needs_notional_price order =
      (elim order.requested_price [ none ↦ true | some _ ↦ false ])
      && lt zero_float c.config.min_order_notional_usd
      && str_eq order.side "buy"
      && not order.risk_reducing

  -- the midpoint of the book, where the latest price failed outside live mode
  abbrev midpoint : Option (F × F) → Option F
  midpoint none = none
  midpoint (some (bid, ask)) = some (f.div (f.add bid ask) (f.lit 2 0))

  -- the price that the adapter is given, or the reason to reject the order
  abbrev priced : LocalOrder F → Quote F → M F W (Message ⊎ Option F)
  priced order (quoted price) = pure (inr price)
  priced order (failed error) =
      if is_live c.config
      then pure (inl (Message.price_unavailable error))
      else do ticker ← call (c.get_best_bid_ask order.pair); pure (inr (midpoint ticker))

  unfoldable pub latest_price : LocalOrder F → M F W (Message ⊎ Option F)
  latest_price order =
      if needs_notional_price order || needs_fill_price order
      then (do quote ← call (c.get_latest_price order.pair); priced order quote)
      else pure (inr none)

  abbrev pub staged_order : LocalOrder F → PairMetadata F → LocalOrder F
  staged_order order meta = record order {
    raw_request = some (c.build_payload order meta);
    status = "pending_submit";
  }

  put_aside : LocalOrder F → M F W (LocalOrder F)
  put_aside staged = do modify (register_order staged); save staged; pure staged

  -- write-ahead: a live order is in the book and in the store before it is submitted
  unfoldable pub stage : LocalOrder F → PairMetadata F → M F W (LocalOrder F)
  unfolding put_aside
  stage order meta =
      if live_submit_enabled c.config then put_aside (staged_order order meta) else pure order

  -- what the adapter changed shows in the book, where the order stands there
  abbrev share : LocalOrder F → M F W (Unit {0})
  share order = when (live_submit_enabled c.config) (modify (write_through order))

  abbrev rejection : LocalOrder F → List Message
  rejection order =
      if str_eq order.status "rejected"
      then (elim order.last_error [ none ↦ [] | some e ↦ e ∷ [] ])
      else []

  -- after `submit_order` returns, and after it raises
  unfoldable pub settle_returned : LocalOrder F → ExecutionResult F → M F W (ExecutionResult F)
  settle_returned order r = do
    share order
    when (not (str_eq order.status "validated")) (modify (register_order order))
    save order
    pure (add_order order (record r { errors = r.errors ++ rejection order }))

  -- the error is noted, and the status is an error unless it is a submit intent
  abbrev pub failed_order : Message → LocalOrder F → LocalOrder F
  failed_order message left = record left {
    last_error = some message;
    status = (if is_submit_intent left then left.status else "error");
  }

  -- an order in an unknown state stays in the book, and an alert is sent
  keep_intent : LocalOrder F → M F W (Unit {0})
  keep_intent order =
      when (is_submit_intent order) (do
        modify (register_order order)
        when c.has_alerts (emit (alerted "order_submit_unknown")))

  settle_failed : Message → LocalOrder F → ExecutionResult F → M F W (ExecutionResult F)
  unfolding keep_intent
  settle_failed message order r = do
    share order
    keep_intent order
    save order
    pure (add_order order (add_error message r))

  unfoldable pub settle_raised :
      Message → LocalOrder F → ExecutionResult F → M F W (ExecutionResult F)
  unfolding settle_failed
  settle_raised message left r = settle_failed message (failed_order message left) r

  unfoldable pub settle : Submission F → ExecutionResult F → M F W (ExecutionResult F)
  unfolding settle_returned settle_raised
  settle sub r =
      on_option sub.raised (settle_returned sub.order r)
        (λ message. settle_raised message sub.order r)

  -- the order as it is handed to the adapter
  abbrev pub launched : LocalOrder F → PairMetadata F → LocalOrder F
  launched order meta = if live_submit_enabled c.config then staged_order order meta else order

  -- the order is staged and handed to the adapter
  unfoldable pub launch : LocalOrder F → PairMetadata F → M F W (LocalOrder F)
  launch order meta = do staged ← stage order meta; emit (submitted staged); pure staged

  unfoldable pub submit :
      LocalOrder F → PairMetadata F → Option F → ExecutionResult F → M F W (ExecutionResult F)
  submit order meta price r = do
    staged ← launch order meta
    sub ← call (c.submit_order staged meta price)
    settle sub r

  unfoldable pub refuse : LocalOrder F → Message → ExecutionResult F → M F W (ExecutionResult F)
  refuse order reason r =
      let rejected = reject reason order in
      do save rejected; pure (add_order rejected (add_error reason r))
