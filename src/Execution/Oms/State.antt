-- ===== src/Execution/Oms/State.antt =====
-- The state of `ExecutionService`, what it calls, and the log of what it does to the outside.
-- The world beyond the service (exchange, store contents, market data, clocks) is a value of a type
-- `W` that the calls may change in any way; what the service writes is kept in `trace`, newest first.
use krakked.Prelude.{ℕ, String, Bool, true, false, Option, none, some, List, [], ◌∷◌}
use krakked.Prelude.Int.{ℤ}
use krakked.Prelude.Text.{member, is_filled}
use krakked.Prelude.Dict.{Dict}
use krakked.Strategy.Models.{RiskAdjustedAction, ExecutionPlan}
use krakked.Execution.Models.{Json, Message, Payload, LocalOrder, ExecutionResult}
use krakked.Execution.Config.{ExecutionConfig}

abbrev pub active_order_statuses : List String
active_order_statuses =
    "pending" ∷ "pending_submit" ∷ "submit_unknown" ∷ "submitted" ∷ "open" ∷ "partially_filled"
    ∷ "pending_cancel" ∷ "pending_cancellation" ∷ "canceling" ∷ []

abbrev pub submit_intent_statuses : List String
submit_intent_statuses = "pending_submit" ∷ "submit_unknown" ∷ []

abbrev pub terminal_order_statuses : List String
terminal_order_statuses =
    "canceled" ∷ "closed" ∷ "expired" ∷ "rejected" ∷ "filled" ∷ "validated" ∷ "error"
    ∷ "submit_absent" ∷ []

abbrev pub is_terminal : String → Bool
is_terminal status = member status terminal_order_statuses

module _ {F : Type 0} where
  abbrev pub is_active : LocalOrder F → Bool
  is_active o = member o.status active_order_statuses

  abbrev pub is_submit_intent : LocalOrder F → Bool
  is_submit_intent o = member o.status submit_intent_statuses

-- a text that is there and not empty
abbrev pub is_given : Option String → Bool
is_given none = false
is_given (some s) = is_filled s

pub record PairMetadata (F : Type 0) : Type 0 where
  pub canonical : String
  pub rest_symbol : String
  pub price_decimals : ℕ
  pub volume_decimals : ℕ
  pub min_order_size : F

-- `asset_valuations` and the totals of a `PortfolioSnapshot`
pub record Snapshot (F : Type 0) : Type 0 where
  pub timestamp : ℕ
  pub equity_base : F
  pub cash_base : F
  pub valuations : List (Option String × F)

-- the part of a `RiskStatus` or of an account-truth snapshot that the service reads; a missing
-- attribute is `none`
pub record AccountTruth : Type 0 where
  pub portfolio_sync_ok : Option Bool
  pub drift_flag : Bool

pub record RiskStatus : Type 0 where
  pub kill_switch_active : Bool
  pub truth : AccountTruth

-- what `build_order_from_plan_action` does: an order, a warning, or a `ValueError`
pub data Built (F : Type 0) : Type 0 where
  order : LocalOrder F → Built F
  warning : Message → Built F
  invalid : Message → Built F

-- what `submit_order` of an adapter does: the order as it is left, and the text of the
-- `ExecutionError` if it raises one
pub record Submission (F : Type 0) : Type 0 where
  pub order : LocalOrder F
  pub raised : Option Message

-- a call that reads a price: the text of its exception, or the price
pub data Quote (F : Type 0) : Type 0 where
  failed : String → Quote F
  quoted : Option F → Quote F

-- what the service writes to the outside
pub data Event (F : Type 0) : Type 0 where
  saved : LocalOrder F → Event F
  saved_result : ExecutionResult F → Event F
  status_updated : LocalOrder F → Event F
  submitted : LocalOrder F → Event F
  cancel_sent : LocalOrder F → Event F
  cancel_all_sent : Event F
  alerted : String → Event F
  heartbeat : ℕ → Event F

pub record World (F W : Type 0) : Type 0 where
  pub outside : W
  pub trace : List (Event F)

-- What the service calls. `none` for a provider means that none was set; a lookup gives `none` where
-- the source's call raises an exception that is caught. What the store and the exchange answer may
-- depend on everything written before.
pub record Calls (F W : Type 0) : Type 0 where
  pub config : ExecutionConfig F
  pub has_store : Bool
  pub has_client : Bool
  pub has_alerts : Bool
  pub risk_status_provider : Option (World F W → Option RiskStatus × W)
  pub account_truth_provider : Option (World F W → Option AccountTruth × W)
  -- `_account_truth_provider_accepts_fresh_drift`
  pub accepts_fresh_drift : Bool
  pub get_pair_metadata : String → World F W → Option (PairMetadata F) × W
  pub get_latest_price : String → World F W → Quote F × W
  -- the bid and the ask, where both are truthy
  pub get_best_bid_ask : String → World F W → Option (F × F) × W
  pub uuid4 : World F W → String × W
  -- `none` is the `ValueError` of a reference out of range or of a collision
  pub resolve_userref : Option String → World F W → Option (Option ℤ) × W
  pub build_order :
      RiskAdjustedAction F → ExecutionPlan F → PairMetadata F → World F W → Built F × W
  pub build_payload : LocalOrder F → PairMetadata F → Payload F
  pub submit_order : LocalOrder F → PairMetadata F → Option F → World F W → Submission F × W
  pub adapter_cancel_order : LocalOrder F → World F W → Option String × W
  pub adapter_cancel_all : World F W → Option String × W
  -- `client.get_open_orders` and `get_closed_orders`, with the client order id that they filter by
  pub get_open_orders : Option String → World F W → Option (Option (Dict (Json F))) × W
  pub get_closed_orders : Option String → World F W → Option (Option (Dict (Json F))) × W
  pub cancel_all_orders_after : Option (ℕ → World F W → Bool × W)
  pub stored_open_orders : World F W → List (LocalOrder F)
  pub stored_by_client_order_id : String → World F W → Option (LocalOrder F)
  pub stored_by_reference : String → Option ℤ → World F W → Option (LocalOrder F)
  pub stored_snapshots : World F W → Option (List (Snapshot F))

pub record Oms (F W : Type 0) : Type 0 where
  pub open_orders : Dict (LocalOrder F)
  pub kraken_to_local : Dict String
  pub recent_executions : List (ExecutionResult F)
  pub last_dead_man_refresh_at : Option ℕ
  pub world : World F W

-- A method: the result and the service after the call.
abbrev pub M : Type 0 → Type 0 → Type 0 → Type 0
M F W A = Oms F W → A × Oms F W

module _ {F W A : Type 0} where
  abbrev pub pure : A → M F W A
  pure a s = (a, s)

  -- a call out of the service
  unfoldable pub call : (World F W → A × W) → M F W A
  call f s =
      let (a, outside) = f s.world in (a, record s { world = record s.world { outside = outside } })

  abbrev pub gets : (Oms F W → A) → M F W A
  gets f s = (f s, s)

module _ {F W : Type 0} where
  unfoldable pub emit : Event F → M F W (Unit {0})
  emit e s = (tt, record s { world = record s.world { trace = e ∷ s.world.trace } })

  abbrev pub modify : (Oms F W → Oms F W) → M F W (Unit {0})
  modify f s = (tt, f s)

  -- `if test: action`
  abbrev pub when : Bool → M F W (Unit {0}) → M F W (Unit {0})
  when true m = m
  when false m = pure tt

module _ {F W A B : Type 0} where
  infixl 5 ◌>>=◌
  abbrev pub ◌>>=◌ : M F W A → (A → M F W B) → M F W B
  ◌>>=◌ m k s = let (a, s') = m s in k a s'

module _ {F W B : Type 0} where
  infixl 5 ◌>>◌
  abbrev pub ◌>>◌ : M F W (Unit {0}) → M F W B → M F W B
  m >> k = m >>= λ _. k

module _ {F W A B : Type 0} where
  -- a step for each case of a value that may be missing
  abbrev pub on_option : Option A → M F W B → (A → M F W B) → M F W B
  on_option none m g = m
  on_option (some a) m g = g a

module _ {F W A : Type 0} where
  -- a method that returns, in one that may raise: a method with `none` as its result has raised
  abbrev pub returning : M F W A → M F W (Option A)
  returning m = m >>= λ a. pure (some a)

module _ {F W A B : Type 0} where
  -- the rest of a method, after a part that may raise
  infixl 5 ◌>>?◌
  abbrev pub ◌>>?◌ : M F W (Option A) → (A → M F W (Option B)) → M F W (Option B)
  m >>? k = m >>= λ o. on_option o (pure none) k
