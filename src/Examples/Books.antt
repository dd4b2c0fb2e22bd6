-- ===== src/Examples/Books.antt =====
-- The theorems on the order book, on a book with one order.
use krakked.Execution.Oms.Cancel.{cancel_all}
use krakked.Execution.Oms.Cancel.Cleared.{Settles, cancel_all-Settles}
use krakked.Execution.Oms.DeadMan.{recommended_dead_man_refresh_interval}
use krakked.Prelude.{◌≡◌, refl, true, false, none, some, [], ◌∷◌}
use krakked.Prelude.Dict.{Dict, get, values}
use krakked.Prelude.Float.{Nano, nano_float}
use krakked.Execution.Models.{LocalOrder, Json, Fields, end, field, field_of, Message}
use krakked.Execution.Config.{live_submit_enabled, get_live_trading_block_reason}
use krakked.Execution.Userref.{Seen}
use krakked.Execution.Oms.State.{Oms, Calls}
use krakked.Execution.Oms.Gates.{has_unresolved_opening_submit_intent}
use krakked.Execution.Oms.Gates.{unfetched}
use krakked.Execution.Oms.Order.{new_result, settle, submit, launch, stage}
use krakked.Execution.Oms.Order.Settled.{submission, submit-book}
use krakked.Execution.Oms.Sync.{
  as_userref, or_text, as_text, resolve_local_order, sync_remote_order, update_order_status,
}
use krakked.Execution.Oms.Sync.Books.{sync_remote_order-ends, update_order_status-book}
use krakked.Execution.Oms.Plan.{Setup, process_action}
use krakked.Execution.Oms.Plan.Submissions.{Adds, submitted_orders}
use krakked.Execution.Oms.Plan.Truthful.{IsReducing}
use krakked.Execution.Oms.Plan.Unresolved.{process_action-waits, settle-unresolved}
use krakked.Examples.Service.{
  config, service, synced_account, start, built, plan, open_long, metadata,
}
use krakked.Examples.Plans.{config_is_live}

-- an order whose submission has no answer yet
abbrev unknown : LocalOrder Nano
unknown = record built { status = "submit_unknown" }

abbrev waiting : Oms Nano Seen
waiting = record start { open_orders = (unknown.local_id, unknown) ∷ [] }

-- the exchange knows it as OABC
abbrev tracked : Oms Nano Seen
tracked = record waiting { kraken_to_local = ("OABC", unknown.local_id) ∷ [] }

abbrev closed_payload : Fields Nano
closed_payload = field "status" (Json.text "closed") end

is_unresolved : has_unresolved_opening_submit_intent waiting ≡ true
unfolding has_unresolved_opening_submit_intent values
is_unresolved = refl

is_found :
    (resolve_local_order
      (service synced_account false)
      "OABC"
      (as_userref (field_of "userref" closed_payload))
      (or_text none (as_text (field_of "cl_ord_id" closed_payload)))
      tracked).0
    ≡ some (unknown, true)
unfolding resolve_local_order get field_of
is_found = refl

is_in_book : get unknown.local_id waiting.open_orders ≡ some unknown
unfolding get
is_in_book = refl

sync_remote_order-ends_example :
    get unknown.local_id
      (sync_remote_order
        (service synced_account false)
        "OABC"
        closed_payload
        true
        none
        tracked).1.open_orders
    ≡ none
sync_remote_order-ends_example =
    sync_remote_order-ends (service synced_account false) "OABC" closed_payload true none unknown
      true tracked is_found refl

update_order_status-book_example :
    get unknown.local_id
      (update_order_status
        (service synced_account false)
        unknown.local_id
        "open"
        (some "OABC")
        waiting).1.open_orders
    ≡ some (record unknown { status = "open"; kraken_order_id = some "OABC" })
update_order_status-book_example =
    update_order_status-book (service synced_account false) unknown.local_id "open" (some "OABC")
      unknown waiting (refl, tt) is_in_book

-- a service whose adapter gives every order back as rejected
abbrev refusing_service : Calls Nano Seen
refusing_service = record (service synced_account false) {
  submit_order = λ order meta price w.
      (record { order = record order { status = "rejected" }; raised = none }, w.outside);
}

abbrev rejected_order : LocalOrder Nano
rejected_order = (submission refusing_service config_is_live built metadata none start).order

submit-book_example :
    get "p1-trend-XBTUSD-buy"
      (submit refusing_service built metadata none (new_result plan) start).1.open_orders
    ≡ some rejected_order
unfolding launch stage live_submit_enabled get_live_trading_block_reason
submit-book_example =
    submit-book refusing_service config_is_live built metadata none (new_result plan) start refl

abbrev setup : Setup Nano
setup = record {
  plan = plan;
  pair_target_notional = [];
  projected_total_exposure = nano_float.lit 0 0;
  truth = unfetched;
}

process_action-waits_example : Adds IsReducing [] (
    submitted_orders
      (process_action (service synced_account false) setup open_long (new_result plan) waiting).1)
process_action-waits_example =
    process_action-waits (service synced_account false) config_is_live setup open_long
      (new_result plan) waiting is_unresolved

settle-unresolved_example :
    has_unresolved_opening_submit_intent
      (settle
        (service synced_account false)
        (record { order = unknown; raised = some (Message.text "timeout") })
        (new_result plan)
        start).1
    ≡ true
settle-unresolved_example =
    settle-unresolved (service synced_account false) config_is_live unknown (Message.text "timeout")
      (new_result plan) start refl refl

cancel_all-Settles_example :
    Settles
      (λ (d : Dict (LocalOrder Nano)). d ≡ [])
      waiting
      (cancel_all (service synced_account false) waiting)
cancel_all-Settles_example = cancel_all-Settles (service synced_account false) waiting (refl, tt)

interval_of_config : recommended_dead_man_refresh_interval config ≡ some 300_000_000
unfolding recommended_dead_man_refresh_interval
interval_of_config = refl
