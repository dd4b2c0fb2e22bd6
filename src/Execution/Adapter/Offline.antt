-- ===== src/Execution/Adapter/Offline.antt =====
-- `DryRunExecutionAdapter` and `SimulationExecutionAdapter` of src/krakked/execution/adapter.py: orders
-- that are filled without an exchange. The answer that they put together is `Response.local`, and the fill
-- callback of the simulation is left out.
use krakked.Prelude.{
  ◌≡◌, ◌≢◌, refl, sym, subst, String, Bool, true, false, Option, none, some, [], ◌∷◌, if◌then◌else◌,
  Bool-cases, inl, inr, ◌⊎◌,
}
use krakked.Prelude.Text.{is_filled, concat}
use krakked.Prelude.Float.{Float}
use krakked.Execution.Models.{LocalOrder, Message, Payload, Response}
use krakked.Execution.Config.{ExecutionConfig}
use krakked.Execution.Oms.State.{PairMetadata}
use krakked.Execution.Adapter.{local_block, price_for_notional}

module _ {F : Type 0} where
  -- `order.kraken_order_id or f"{prefix}-{order.local_id}"`
  abbrev kraken_id_or : String → LocalOrder F → String
  kraken_id_or prefix order = elim order.kraken_order_id [
    | none ↦ concat (prefix ∷ "-" ∷ order.local_id ∷ [])
    | some id ↦ (if is_filled id then id else concat (prefix ∷ "-" ∷ order.local_id ∷ []))
  ]

  -- the whole of the order is filled
  abbrev filled : String → LocalOrder F → Option F → LocalOrder F
  filled prefix order price = record order {
    kraken_order_id = some (kraken_id_or prefix order);
    status = "filled";
    cumulative_base_filled = order.requested_base_size;
    avg_fill_price = price;
    raw_response = some Response.local;
  }

  abbrev rejected : LocalOrder F → Message → LocalOrder F
  rejected order reason = record order { status = "rejected"; last_error = some reason }

module _ {F : Type 0} ⦃f : Float F⦄ (config : ExecutionConfig F)
    (build : LocalOrder F → PairMetadata F → Payload F) where
  dry_fill : LocalOrder F → Option F → LocalOrder F
  dry_fill order none =
      record (rejected order (Message.text "Unable to simulate fill: price unavailable")) {
        raw_response = some Response.local;
      }
  dry_fill order (some price) = filled "dry" order (some price)

  dry_checked : LocalOrder F → Option F → Option Message → LocalOrder F
  unfolding dry_fill
  dry_checked order price (some reason) = rejected order reason
  dry_checked order price none =
      if config.validate_only then record order { status = "validated" } else dry_fill order price

  -- `DryRunExecutionAdapter.submit_order`, which never raises
  unfoldable pub dry_run_order : LocalOrder F → PairMetadata F → Option F → LocalOrder F
  unfolding dry_checked
  dry_run_order order meta latest_price =
      let payload = build order meta in
      let order' = record order { raw_request = some payload } in
      dry_checked order' (price_for_notional order' payload latest_price)
        (local_block config order' meta payload latest_price)

  -- `SimulationExecutionAdapter.submit_order`, on the resolver of fill prices if it has one
  unfoldable pub simulate_order :
      Option (LocalOrder F → PairMetadata F → Option F → Option F)
      → LocalOrder F
      → PairMetadata F
      → Option F
      → LocalOrder F
  simulate_order none order meta latest_price =
      filled "sim" order (elim latest_price [ none ↦ order.requested_price | some p ↦ some p ])
  simulate_order (some resolve) order meta latest_price =
      filled "sim" order (resolve order meta latest_price)

  -- what a dry run of an order ends as
  abbrev pub IsDryRun : LocalOrder F → LocalOrder F → Type 0
  IsDryRun order o =
      ((o.status ≡ "rejected") × (o.last_error ≢ none))
      ⊎ ((o.status ≡ "validated") × (config.validate_only ≡ true))
      ⊎ ((o.status ≡ "filled")
          × (o.cumulative_base_filled ≡ order.requested_base_size)
          × (o.avg_fill_price ≢ none)
          × (config.validate_only ≡ false))

  dry_fill-IsDryRun :
      (order : LocalOrder F) (price : Option F)
      → config.validate_only ≡ false
      → IsDryRun order (dry_fill order price)
  unfolding dry_fill
  dry_fill-IsDryRun order none v = inl (refl, λ e. cc e)
  dry_fill-IsDryRun order (some p) v = inr (inr (refl, refl, (λ e. cc e), v))

  dry_checked-IsDryRun :
      (order : LocalOrder F) (price : Option F) (block : Option Message)
      → IsDryRun order (dry_checked order price block)
  unfolding dry_checked
  dry_checked-IsDryRun order price (some reason) = inl (refl, λ e. cc e)
  dry_checked-IsDryRun order price none =
      let end_of : Bool → LocalOrder F =
        λ b. if b then record order { status = "validated" } else dry_fill order price in
      elim (Bool-cases config.validate_only) [
        | inl v ↦ subst (λ b. IsDryRun order (end_of b)) (sym v) (inr (inl (refl, v)))
        | inr v ↦ subst (λ b. IsDryRun order (end_of b)) (sym v) (dry_fill-IsDryRun order price v)
      ]

  -- A dry run rejects an order with a reason, or validates it where only validation is asked for, or
  -- fills the whole of it at a known price where it is not.
  pub dry_run_order-IsDryRun :
      (order : LocalOrder F) (meta : PairMetadata F) (latest_price : Option F)
      → IsDryRun order (dry_run_order order meta latest_price)
  unfolding dry_run_order
  dry_run_order-IsDryRun order meta latest_price =
      let payload = build order meta in
      let order' = record order { raw_request = some payload } in
      dry_checked-IsDryRun order' (price_for_notional order' payload latest_price)
        (local_block config order' meta payload latest_price)
