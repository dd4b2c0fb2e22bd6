-- ===== src/Execution/Adapter/Cancel.antt =====
-- The cancellations of the adapters in src/krakked/execution/adapter.py, and `get_execution_adapter`. The
-- time stamps of orders are left out.
use krakked.Prelude.{
  String, Bool, true, false, Option, none, some, List, [], ◌∷◌, if◌then◌else◌, ◌≡◌, refl,
}
use krakked.Prelude.Text.{str_eq, is_filled, join}
use krakked.Execution.Models.{LocalOrder}
use krakked.Execution.Config.{ExecutionConfig, is_live}

-- the adapters
pub data ExecutionAdapter : Type 0 where
  kraken : ExecutionAdapter
  dry_run : ExecutionAdapter
  simulation : ExecutionAdapter

-- what a cancellation may raise
pub data CancelError : Type 0 where
  no_kraken_id : CancelError
  order_cancel_error : String → CancelError

-- what the client does: an exception, with its text, or a response with its errors
pub data CancelAnswer : Type 0 where
  failed : String → CancelAnswer
  errors : List String → CancelAnswer

pub record CancelClient (W : Type 0) : Type 0 where
  pub cancel_order : String → W → CancelAnswer × W
  pub cancel_all_orders : W → CancelAnswer × W

-- the error of an answer
unfoldable pub cancel_error : CancelAnswer → Option CancelError
cancel_error (CancelAnswer.failed text) = some (CancelError.order_cancel_error text)
cancel_error (CancelAnswer.errors []) = none
cancel_error (CancelAnswer.errors (e ∷ es)) =
    some (CancelError.order_cancel_error (join "; " (e ∷ es)))

module _ {F : Type 0} where
  -- `get_execution_adapter`; `none` is the `ExecutionError`
  unfoldable pub get_execution_adapter : ExecutionConfig F → Bool → Option ExecutionAdapter
  get_execution_adapter config has_client =
      if is_live config
      then (if has_client then some ExecutionAdapter.kraken else none)
      else if str_eq config.mode "paper"
      then some ExecutionAdapter.dry_run
      else if str_eq config.mode "simulation"
      then some ExecutionAdapter.simulation
      else some ExecutionAdapter.dry_run

abbrev filled_id : Option String → Option String
filled_id none = none
filled_id (some id) = if is_filled id then some id else none

module _ {W : Type 0} (client : CancelClient W) where
  by_id : Option String → W → Option CancelError × W
  by_id none w = (some CancelError.no_kraken_id, w)
  by_id (some id) w = let (answer, w') = client.cancel_order id w in (cancel_error answer, w')

module _ {F W : Type 0} (client : CancelClient W) where
  -- `cancel_order`: the order, and what is raised
  unfoldable pub cancel_order_of :
      ExecutionAdapter → LocalOrder F → W → LocalOrder F × Option CancelError × W
  unfolding by_id cancel_error
  cancel_order_of ExecutionAdapter.kraken order w =
      let (error, w') = by_id client (filled_id order.kraken_order_id) w in (order, error, w')
  cancel_order_of _ order w = (record order { status = "canceled" }, none, w)

module _ {W : Type 0} (client : CancelClient W) where
  -- `cancel_all_orders`
  unfoldable pub cancel_all_orders_of : ExecutionAdapter → W → Option CancelError × W
  unfolding cancel_error
  cancel_all_orders_of ExecutionAdapter.kraken w =
      let (answer, w') = client.cancel_all_orders w in (cancel_error answer, w')
  cancel_all_orders_of _ w = (none, w)

-- an adapter that does not reach the exchange
data IsOffline : ExecutionAdapter → Type 0 where
  by_dry_run : IsOffline ExecutionAdapter.dry_run
  by_simulation : IsOffline ExecutionAdapter.simulation

module _ {F : Type 0} where
  -- Outside the live mode there is always an adapter, and it is not the one of the exchange.
  get_execution_adapter-IsOffline :
      (config : ExecutionConfig F) (has_client : Bool)
      → is_live config ≡ false
      → (a : ExecutionAdapter) × (get_execution_adapter config has_client ≡ some a) × IsOffline a
  unfolding get_execution_adapter
  get_execution_adapter-IsOffline config has_client h =
      rw h (by_mode (str_eq config.mode "paper") (str_eq config.mode "simulation"))
    where
      by_mode :
          (p s : Bool)
          → (a : ExecutionAdapter) × ((if p
                then some ExecutionAdapter.dry_run
                else if s
                then some ExecutionAdapter.simulation
                else some ExecutionAdapter.dry_run)
              ≡ some a)
            × IsOffline a
      by_mode true s = (ExecutionAdapter.dry_run, refl, IsOffline.by_dry_run)
      by_mode false true = (ExecutionAdapter.simulation, refl, IsOffline.by_simulation)
      by_mode false false = (ExecutionAdapter.dry_run, refl, IsOffline.by_dry_run)

module _ {F W : Type 0} (client : CancelClient W) where
  offline_cancel :
      (a : ExecutionAdapter) (order : LocalOrder F) (w : W)
      → IsOffline a
      → (cancel_order_of client a order w ≡ (record order { status = "canceled" }, none, w))
        × (cancel_all_orders_of client a w ≡ (none, w))
  unfolding cancel_order_of cancel_all_orders_of
  offline_cancel ExecutionAdapter.dry_run order w IsOffline.by_dry_run = (refl, refl)
  offline_cancel ExecutionAdapter.simulation order w IsOffline.by_simulation = (refl, refl)
  offline_cancel ExecutionAdapter.kraken order w h = elim h [ ]

  -- Outside the live mode the configured adapter cancels without a request: an order is marked as
  -- canceled and nothing is raised, whatever the client would answer.
  pub offline_cancel-IsLocal :
      (config : ExecutionConfig F) (has_client : Bool) (order : LocalOrder F) (w : W)
      → is_live config ≡ false
      → (a : ExecutionAdapter) × (get_execution_adapter config has_client ≡ some a)
        × (cancel_order_of client a order w ≡ (record order { status = "canceled" }, none, w))
        × (cancel_all_orders_of client a w ≡ (none, w))
  offline_cancel-IsLocal config has_client order w h =
      let (a, e, offline) = get_execution_adapter-IsOffline config has_client h in
      let (one, all) = offline_cancel a order w offline in (a, e, one, all)
