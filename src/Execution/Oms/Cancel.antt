-- ===== src/Execution/Oms/Cancel.antt =====
-- `cancel_order`, `cancel_all` and `cancel_orders` of `ExecutionService`. A result that is not `none`
-- is the text of the `ExecutionError` that the adapter raised, which ends the method.
pub mod Cleared
use krakked.Prelude.{String, Option, none, some, List, [], ◌∷◌}
use krakked.Prelude.Float.{Float}
use krakked.Prelude.Dict.{values}
use krakked.Execution.Models.{LocalOrder}
use krakked.Execution.Oms.State.{
  M, Calls, cancel_sent, cancel_all_sent, status_updated, pure, call, gets, emit, modify, when,
  ◌>>=◌, ◌>>◌,
}
use krakked.Execution.Oms.Book.{forget}
use krakked.Execution.Oms.Sync.{refresh_open_orders, reconcile_orders}

module _ {F : Type 0} where
  abbrev pub canceled : LocalOrder F → LocalOrder F
  canceled order = record order { status = "canceled" }

module _ {F W : Type 0} ⦃f : Float F⦄ (c : Calls F W) where
  -- once the exchange has canceled the order
  close_canceled : LocalOrder F → M F W (Option String)
  close_canceled order = do
    modify (forget order)
    when c.has_store (emit (status_updated order))
    pure none

  after_cancel : LocalOrder F → Option String → M F W (Option String)
  unfolding close_canceled
  after_cancel order none = close_canceled (canceled order)
  after_cancel order (some error) = pure (some error)

  unfoldable pub cancel_order : LocalOrder F → M F W (Option String)
  unfolding after_cancel
  cancel_order order = do
    emit (cancel_sent order)
    error ← call (c.adapter_cancel_order order)
    after_cancel order error

  -- the loop of `cancel_all` over the orders that are still in the book
  mark_each : List (LocalOrder F) → M F W (Unit {0})
  mark_each [] = pure tt
  mark_each (order ∷ rest) = do
    when c.has_store (emit (status_updated (canceled order)))
    modify (forget (canceled order))
    mark_each rest

  clear : M F W (Option String)
  unfolding mark_each
  clear = do
    refresh_open_orders c
    reconcile_orders c
    orders ← gets (λ s. values s.open_orders)
    mark_each orders
    pure none

  after_cancel_all : Option String → M F W (Option String)
  unfolding clear
  after_cancel_all none = clear
  after_cancel_all (some error) = pure (some error)

  unfoldable pub cancel_all : M F W (Option String)
  unfolding after_cancel_all
  cancel_all = do emit cancel_all_sent; error ← call c.adapter_cancel_all; after_cancel_all error

  -- an order that cannot be canceled does not keep the others from being canceled
  unfoldable pub cancel_orders : List (LocalOrder F) → M F W (Unit {0})
  cancel_orders [] = pure tt
  cancel_orders (order ∷ rest) = do _ ← cancel_order order; cancel_orders rest
