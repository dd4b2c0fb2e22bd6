-- ===== src/Examples/Adapters.antt =====
-- The theorems on the adapter, with an exchange that does not answer.
use krakked.Prelude.{◌≡◌, ◌+◌, refl, ℕ, true, false, none, some, [], ◌∷◌, All}
use krakked.Prelude.Float.{Nano, nano_float}
use krakked.Execution.Models.{Payload, LocalOrder}
use krakked.Execution.Adapter.{Client, Wire, unavailable, submit_order}
use krakked.Execution.Config.{ExecutionConfig}
use krakked.Execution.Adapter.Cancel.{
  CancelAnswer, CancelClient, ExecutionAdapter, get_execution_adapter, cancel_order_of,
  cancel_all_orders_of, offline_cancel-IsLocal,
}
use krakked.Execution.Adapter.Requests.{IsAllowed, submit_order-IsAllowed}
use krakked.Execution.Router.{build_order_payload}
use krakked.Execution.Oms.State.{PairMetadata}
use krakked.Examples.Service.{config, metadata, nano_decimals, built}

-- the exchange counts the requests
abbrev silent : Client Nano ℕ
silent = record {
  add_order = λ payload n. (unavailable "503", n + 1);
  get_open_orders = λ id n. (none, n);
  get_closed_orders = λ id n. (none, n);
  cancel_all_orders_after = none;
}

abbrev wire : Wire Nano ℕ
wire = record { outside = 0; requests = [] }

abbrev build : LocalOrder Nano → PairMetadata Nano → Payload Nano
build order meta = build_order_payload nano_decimals order config meta

abbrev payload : Payload Nano
payload = record {
  pair = "XXBTZUSD";
  side = "buy";
  ordertype = "market";
  volume = nano_float.lit 1 2;
  price = none;
  timeinforce = none;
  oflags = none;
  cl_ord_id = some "p1-trend-XBTUSD-buy";
  userref = none;
  validate = false;
}

submit_order-IsAllowed_example :
    All
      (IsAllowed config silent build)
      (submit_order config silent build built metadata none wire).1.requests
submit_order-IsAllowed_example =
    submit_order-IsAllowed config silent build built metadata none wire tt

-- an exchange that would refuse to cancel
abbrev refusing : CancelClient ℕ
refusing = record {
  cancel_order = λ id n. (CancelAnswer.errors ("EOrder:Unknown order" ∷ []), n + 1);
  cancel_all_orders = λ n. (CancelAnswer.failed "503", n + 1);
}

abbrev paper_config : ExecutionConfig Nano
paper_config = record config { mode = "paper" }

offline_cancel-IsLocal_example :
    (a : ExecutionAdapter) × (get_execution_adapter paper_config true ≡ some a)
    × (cancel_order_of refusing a built 0 ≡ (record built { status = "canceled" }, none, 0))
    × (cancel_all_orders_of refusing a 0 ≡ (none, 0))
offline_cancel-IsLocal_example = offline_cancel-IsLocal refusing paper_config true built 0 refl
