-- ===== src/Execution/Adapter.antt =====
-- `KrakenExecutionAdapter.submit_order` of src/krakked/execution/adapter.py, and the recovery of a live
-- order whose submission has no answer. The sleeps between retries are left out. A remote status that
-- is no text counts as missing.
pub mod Requests
pub mod Offline
pub mod Cancel
use krakked.Prelude.{
  ℕ, zero, suc, String, Bool, true, false, not, ◌&&◌, ◌||◌, Option, none, some, List, [], ◌∷◌,
  if◌then◌else◌, ltb,
}
use krakked.Prelude.Text.{str_eq, is_filled}
use krakked.Prelude.Dict.{Dict}
use krakked.Prelude.Float.{Float, lt, zero_float, float_eq}
use krakked.Execution.Models.{Json, Fields, end, field_of, LocalOrder, Message, Payload, Response}
use krakked.Execution.Config.{ExecutionConfig, is_live, is_some, get_live_trading_block_reason}
use krakked.Execution.Correlation.{
  CorrelationState, CorrelationResult, classify_client_order_id_matches,
}
use krakked.Execution.Oms.State.{PairMetadata, Submission}

-- what `client.add_order` does: one of its exceptions, with its text, or a response
pub data Answer : Type 0 where
  rate_limited : String → Answer
  unavailable : String → Answer
  failed : String → Answer
  response : (errors txids : List String) → Answer

-- the REST client; a lookup gives `none` where it raises, and then what its answer has under its key
pub record Client (F W : Type 0) : Type 0 where
  pub add_order : Payload F → W → Answer × W
  pub get_open_orders : String → W → Option (Option (Dict (Json F))) × W
  pub get_closed_orders : String → W → Option (Option (Dict (Json F))) × W
  pub cancel_all_orders_after : Option (ℕ → W → Bool × W)

-- the exchange, and the AddOrder requests so far, newest first
pub record Wire (F W : Type 0) : Type 0 where
  pub outside : W
  pub requests : List (Payload F)

-- an endpoint's part in the recovery
pub data Lookup (F : Type 0) : Type 0 where
  next : Lookup F
  stop : Lookup F
  found : LocalOrder F → Lookup F

module _ {F : Type 0} where
  abbrev fields_of : Option (Json F) → Fields F
  fields_of (some (Json.object fields)) = fields
  fields_of _ = end

  abbrev status_or : Json F → String → String
  status_or (Json.text s) d = if is_filled s then s else d
  status_or _ d = d

  -- the order that an exact match is adopted for
  recovered : LocalOrder F → Bool → CorrelationResult F → LocalOrder F
  recovered order is_closed result =
      let payload = fields_of result.payload in
      record order {
        kraken_order_id = result.kraken_order_id;
        raw_response = some (Response.remote payload);
        status = status_or (field_of "status" payload) (if is_closed then "closed" else "open");
        last_error = none;
      }

  by_state : LocalOrder F → Bool → CorrelationResult F → CorrelationState → Lookup F
  unfolding recovered
  by_state order is_closed result CorrelationState.absent = next
  by_state order is_closed result CorrelationState.exact = found (recovered order is_closed result)
  by_state order is_closed result CorrelationState.unverified = stop
  by_state order is_closed result CorrelationState.ambiguous = stop

  look_up : LocalOrder F → String → Bool → Option (Option (Dict (Json F))) → Lookup F
  unfolding by_state
  look_up order id is_closed none = next
  look_up order id is_closed (some matches) =
      let result = classify_client_order_id_matches matches id in
      by_state order is_closed result result.state

  -- an order that the adapter gives up on
  abbrev raised : LocalOrder F → String → Message → Message → Submission F
  raised order status last_error message = record {
    order = record order { status = status; last_error = some last_error };
    raised = some message;
  }

  abbrev returned : LocalOrder F → Submission F
  returned order = record { order = order; raised = none }

  abbrev refused : LocalOrder F → Message → Submission F
  refused order reason = returned (record order { status = "rejected"; last_error = some reason })

module _ {F : Type 0} ⦃f : Float F⦄ where
  abbrev truthy : Option F → Option F
  truthy none = none
  truthy (some x) = if float_eq x zero_float then none else some x

  abbrev or_price : Option F → Option F → Option F
  or_price (some x) _ = some x
  or_price none y = y

  -- the price that a notional is judged by
  abbrev pub price_for_notional : LocalOrder F → Payload F → Option F → Option F
  price_for_notional order payload latest_price =
      or_price payload.price (or_price (truthy latest_price) order.requested_price)

module _ {F : Type 0} ⦃f : Float F⦄ (config : ExecutionConfig F) where
  -- the reason for which the notional is refused, if it is
  notional_block : LocalOrder F → Payload F → Option F → Option Message
  notional_block order payload price =
      if lt zero_float config.min_order_notional_usd
        && str_eq order.side "buy"
        && not order.risk_reducing
      then (elim price [
        | none ↦ some (Message.text "Unable to verify minimum notional: price unavailable")
        | some p ↦
            (if lt (f.mul payload.volume p) config.min_order_notional_usd
              then some Message.notional_below_minimum
              else none)
      ])
      else none

  -- what refuses an order before any request
  unfoldable pub local_block : LocalOrder F → PairMetadata F → Payload F → Option F → Option Message
  unfolding notional_block
  local_block order meta payload latest_price =
      if lt payload.volume meta.min_order_size
      then some (Message.volume_below_minimum meta.canonical)
      else notional_block order payload (price_for_notional order payload latest_price)

module _ {F W : Type 0} ⦃f : Float F⦄ (config : ExecutionConfig F) (client : Client F W)
    (build : LocalOrder F → PairMetadata F → Payload F) where
  closed_lookup : LocalOrder F → String → W → Option (LocalOrder F) × W
  closed_lookup order id w =
      let (answer, w') = client.get_closed_orders id w in
      (elim (look_up order id true answer) [ next ↦ none | stop ↦ none | found o ↦ some o ], w')

  after_open : LocalOrder F → String → Lookup F → W → Option (LocalOrder F) × W
  unfolding closed_lookup
  after_open order id next w = closed_lookup order id w
  after_open order id stop w = (none, w)
  after_open order id (found o) w = (some o, w)

  recover_by_id : LocalOrder F → String → W → Option (LocalOrder F) × W
  unfolding after_open
  recover_by_id order id w =
      let (answer, w') = client.get_open_orders id w in
      after_open order id (look_up order id false answer) w'

  -- `_recover_ambiguous_live_submit`
  pub recover_ambiguous_live_submit : LocalOrder F → Option String → W → Option (LocalOrder F) × W
  unfolding recover_by_id
  recover_ambiguous_live_submit order none w = (none, w)
  recover_ambiguous_live_submit order (some id) w =
      if is_filled id then recover_by_id order id w else (none, w)

  abbrev unknown : LocalOrder F → String → Option (LocalOrder F) → Submission F
  unknown order error none =
      raised order "submit_unknown" (Message.text error) (Message.submit_unknown error)
  unknown order error (some o) = returned o

  abbrev with_txid : LocalOrder F → List String → Submission F
  with_txid order [] =
      raised order "error" (Message.text "Missing transaction id in Kraken response")
        (Message.text "Missing transaction id in Kraken response")
  with_txid order (txid ∷ _) =
      returned (record order { kraken_order_id = some txid; status = "open" })

  pub on_response : LocalOrder F → List String → List String → Submission F
  on_response order [] txids =
      if config.validate_only || not (is_live config)
      then returned (record order { status = "validated" })
      else with_txid order txids
  on_response order errors txids =
      raised order "rejected" (Message.joined errors) (Message.joined errors)

  abbrev exhausted : LocalOrder F → String → Submission F
  exhausted order error = raised order "error" (Message.text error) (Message.submit_failed error)

  -- an order that may be live although the request has no answer: it is looked up, never sent again
  ambiguous : LocalOrder F → Payload F → String → Wire F W → Submission F × Wire F W
  ambiguous order payload error wire =
      let (o, w) = recover_ambiguous_live_submit order payload.cl_ord_id wire.outside in
      (unknown order error o, record wire { outside = w })

  -- what an answer leads to, `again` after a transient error
  on_answer :
      LocalOrder F
      → Payload F
      → Wire F W
      → (String → Submission F × Wire F W)
      → Answer
      → Submission F × Wire F W
  unfolding ambiguous
  on_answer order payload wire again (rate_limited error) = again error
  on_answer order payload wire again (unavailable error) =
      if is_live config && not payload.validate
      then ambiguous order payload error wire
      else again error
  on_answer order payload wire again (failed error) = (exhausted order error, wire)
  on_answer order payload wire again (response errors txids) =
      let answered = some (Response.add_order errors txids) in
      (on_response (record order { raw_response = answered }) errors txids, wire)

  -- one request: its answer, and the wire after it
  abbrev pub request : Payload F → Wire F W → Answer × Wire F W
  request payload wire =
      let (answer, w) = client.add_order payload wire.outside in
      (answer, record { outside = w; requests = payload ∷ wire.requests })

  -- the loop of requests, on the retries that are left
  pub send_order : LocalOrder F → Payload F → ℕ → Wire F W → Submission F × Wire F W
  unfolding on_answer
  send_order order payload zero wire =
      let (answer, wire') = request payload wire in
      on_answer order payload wire' (λ error. (exhausted order error, wire')) answer
  send_order order payload (suc left) wire =
      let (answer, wire') = request payload wire in
      on_answer order payload wire' (λ error. send_order order payload left wire') answer

  -- the payload of the order: the one that it carries, or a new one
  abbrev payload_of : LocalOrder F → PairMetadata F → Payload F
  payload_of order meta = elim order.raw_request [ none ↦ build order meta | some p ↦ p ]

  -- the heartbeat of the dead-man switch, where the client has one
  beat_by : Option (ℕ → W → Bool × W) → Wire F W → Wire F W
  beat_by none wire = wire
  beat_by (some beat) wire = record wire {
    outside = (beat config.dead_man_switch_seconds wire.outside).1;
  }

  pub heartbeat_before : Wire F W → Wire F W
  unfolding beat_by
  heartbeat_before wire =
      if ltb 0 config.dead_man_switch_seconds
        && not (is_some (get_live_trading_block_reason config))
      then beat_by client.cancel_all_orders_after wire
      else wire

  -- past the local checks: the heartbeat, the live guard, and the requests
  pub guarded : LocalOrder F → Payload F → Option String → Wire F W → Submission F × Wire F W
  guarded order payload none wire = send_order order payload config.max_retries wire
  guarded order payload (some reason) wire =
      if payload.validate
      then send_order order payload config.max_retries wire
      else (refused order (Message.text reason), wire)

  pub checked : LocalOrder F → Payload F → Option Message → Wire F W → Submission F × Wire F W
  unfolding guarded
  checked order payload (some reason) wire = (refused order reason, wire)
  checked order payload none wire =
      guarded order payload (get_live_trading_block_reason config) (heartbeat_before wire)

  unfoldable pub submit_order :
      LocalOrder F → PairMetadata F → Option F → Wire F W → Submission F × Wire F W
  submit_order order meta latest_price wire =
      let payload = payload_of order meta in
      let order' = record order { raw_request = some payload } in
      checked order' payload (local_block config order' meta payload latest_price) wire
