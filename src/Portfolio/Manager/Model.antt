-- ===== src/Portfolio/Manager/Model.antt =====
-- The state of `PortfolioService` in src/krakked/portfolio/manager.py that a sync reads or changes, what it
-- calls, and the steps that methods are made of. A call changes the outside, a value of type `W`, and
-- `none` is its exception; the numbers in an answer are read. Instants are microseconds. The cached
-- positions are the portfolio's own objects, and are left out.
use krakked.Prelude.{
  ℕ, String, Bool, true, false, Option, none, some, List, if◌then◌else◌, ltb, ◌-◌, ◌*◌,
}
use krakked.Prelude.Text.{str_eq}
use krakked.Prelude.Dict.{Dict}
use krakked.Portfolio.Ledger.Model.{AssetBalance, Trade, CashFlowRecord, DriftStatus, Portfolio}
use krakked.Portfolio.Ledger.Equity.{EquityView}
use krakked.Portfolio.Ledger.Equity.Snapshots.{AssetExposure}
use krakked.Portfolio.Balances.{LedgerEntry}
use krakked.Portfolio.SyncStatus.{Setting, second}

-- the text of a reason, by its constant in sync_status.py
pub data SyncReason : Type 0 where
  sync_failed degraded trades_unavailable ledgers_unavailable lagging stuck : SyncReason
  lag_escalated : ℕ → SyncReason

pub record SyncResult : Type 0 where
  pub new_trades : ℕ
  pub new_cash_flows : ℕ

-- the answers of TradesHistory and Ledgers, and rows of the store
pub record TradesPage (F : Type 0) : Type 0 where
  pub trades : List (Trade F)
  pub last : Option F

pub record LedgerInfo (F D : Type 0) : Type 0 where
  pub time : F
  pub kind : String
  pub subtype : String
  pub asset : String
  pub amount : D
  pub fee : D
  pub balance : Option D
  pub refid : Option String

pub record BalanceSnapshot (F : Type 0) : Type 0 where
  pub last_ledger_id : String
  pub balances : Dict (AssetBalance F)

pub record OrderReference : Type 0 where
  pub strategy_id : String
  pub userref : Option String

pub record Service (F W : Type 0) : Type 0 where
  pub portfolio : Portfolio F
  pub bootstrapped : Bool
  pub last_sync_ok : Bool
  pub last_sync_reason : Option SyncReason
  pub last_sync_at : Option ℕ
  pub last_balance_reconcile_at : Option ℕ
  pub sync_in_progress : Bool
  pub sync_started_at : Option ℕ
  pub sync_run_kind : Option String
  pub sync_generation : ℕ
  pub last_sync_result : SyncResult
  pub last_sync_result_generation : ℕ
  pub trade_history_lag_alerted_refs : List String
  pub cached_equity : Option (EquityView F)
  pub cached_asset_exposure : List (AssetExposure F)
  pub cached_drift_status : Option (DriftStatus F)
  pub cached_last_snapshot_ts : Option ℕ
  pub outside : W

-- the exchange, the store and the clock
pub record Links (F D W : Type 0) : Type 0 where
  pub sync_interval_seconds : Setting
  pub now : W → ℕ × W
  pub get_trades_history : Option F → W → Option (TradesPage F) × W
  pub get_ledgers : Option F → W → Option (Dict (LedgerInfo F D)) × W
  pub get_balance : W → Option (Dict F) × W
  -- `get_trades` of the last trade, of the trades from a time to a time, and of all
  pub latest_trade_time : W → Option (Option F) × W
  pub trades_between : F → F → W → Option (List (Trade F)) × W
  pub all_trades : W → Option (List (Trade F)) × W
  pub save_trades : List (Trade F) → W → Option Bool × W
  pub get_order_by_reference : String → W → Option (Option OrderReference) × W
  pub get_latest_balance_snapshot : W → Option (Option (BalanceSnapshot F)) × W
  pub ledger_entries_after : Option String → W → Option (List (LedgerEntry F D)) × W
  pub ledger_ids_since : F → W → Option (List String) × W
  pub latest_ledger_time : W → Option (Option F) × W
  pub save_ledger_entry : LedgerEntry F D → W → Option Bool × W
  pub save_cash_flows : List (CashFlowRecord F) → W → Option Bool × W
  pub get_unmatched_trade_ledger_ref_times : List String → W → Option (Dict F) × W
  pub latest_snapshot_time : W → Option (Option ℕ) × W
  -- the missing and the escalated references; whether the alert was delivered, an exception being logged
  pub send_alert : List String → List String → W → Bool × W

-- a method: its result, or `none` for an exception, and the state it leaves
abbrev pub M : Type 0 → Type 0 → Type 0 → Type 0
M F W A = Service F W → Option A × Service F W

module _ {F W A : Type 0} where
  abbrev pub pure : A → M F W A
  pure a s = (some a, s)

  unfoldable pub call : (W → Option A × W) → M F W A
  call f s = let (a, w) = f s.outside in (a, record s { outside = w })

  -- a call that raises nothing
  unfoldable pub ask : (W → A × W) → M F W A
  ask f s = let (a, w) = f s.outside in (some a, record s { outside = w })

  abbrev pub gets : (Service F W → A) → M F W A
  gets f s = (some (f s), s)

module _ {F W : Type 0} where
  abbrev pub modify : (Service F W → Service F W) → M F W Bool
  modify f s = (some true, f s)

module _ {F W A B : Type 0} where
  abbrev pub next : Option A × Service F W → (A → M F W B) → Option B × Service F W
  next (none, s) k = (none, s)
  next (some a, s) k = k a s

  infixl 5 ◌>>=◌
  abbrev pub ◌>>=◌ : M F W A → (A → M F W B) → M F W B
  ◌>>=◌ m k s = next (m s) k

  -- `try: m except: handler`
  abbrev pub caught : Option A × Service F W → M F W B → (A → M F W B) → Option B × Service F W
  caught (none, s) handler k = handler s
  caught (some a, s) handler k = k a s

  abbrev pub try_call : M F W A → M F W B → (A → M F W B) → M F W B
  try_call m handler k s = caught (m s) handler k

module _ {F W : Type 0} where
  -- `_set_last_sync_state`, with the instant of the sync unchanged
  unfoldable pub set_failed : SyncReason → Service F W → Service F W
  set_failed reason s = record s { last_sync_ok = false; last_sync_reason = some reason }

  -- and after a sync that verified the account
  unfoldable pub set_verified : ℕ → Service F W → Service F W
  set_verified at s = record s {
    last_sync_ok = true;
    last_sync_reason = none;
    last_sync_at = some at;
  }

abbrev pub full_sync : String
full_sync = "full_sync"

abbrev pub live_full_sync_deadline_seconds : ℕ
live_full_sync_deadline_seconds = 3600

unfoldable pub is_full_sync : Option String → Bool
is_full_sync none = false
is_full_sync (some kind) = str_eq kind full_sync

module _ {F D W : Type 0} (k : Links F D W) where
  -- whether a full sync has run beyond the deadline at an instant
  unfoldable pub is_late : ℕ → Service F W → Bool
  unfolding is_full_sync
  is_late now s =
      if is_full_sync s.sync_run_kind
      then (elim s.sync_started_at [
        | none ↦ false
        | some started ↦ ltb (live_full_sync_deadline_seconds * second) (now - started)
      ])
      else false

  unfoldable pub marked : Bool → M F W Bool
  unfolding set_failed
  marked late s = (some late, if late then set_failed SyncReason.stuck s else s)

  -- `_mark_full_sync_deadline_exceeded`
  unfoldable pub mark_full_sync_deadline_exceeded : M F W Bool
  unfolding is_late marked
  mark_full_sync_deadline_exceeded = do now ← ask k.now; late ← gets (is_late now); marked late
