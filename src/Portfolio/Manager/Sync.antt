-- ===== src/Portfolio/Manager/Sync.antt =====
-- The sync of `PortfolioService` in src/krakked/portfolio/manager.py outside the paper mode: the start from
-- the store, the balances of the exchange, and a sync as a whole with its single-flight protection.
pub mod Start
pub mod Branches
pub mod Ends
pub mod Verified
pub mod Allowed
use krakked.Prelude.{
  ℕ, ◌+◌, String, Bool, true, false, Option, none, some, List, [], ◌∷◌, if◌then◌else◌, ◌==◌,
}
use krakked.Prelude.Dict.{Dict}
use krakked.Prelude.Float.{Float}
use krakked.Execution.Router.{Decimals}
use krakked.Portfolio.Ledger.Model.{AssetBalance, Trade, Books, Portfolio}
use krakked.Portfolio.Ledger.Trades.Ingest.{sorted_by_time}
use krakked.Portfolio.Ledger.Reconcile.{reconcile}
use krakked.Portfolio.Balances.{Cents, LedgerEntry, rebuild_balances}
use krakked.Portfolio.Manager.Model.{
  Service, Links, SyncReason, SyncResult, BalanceSnapshot, M, pure, call, ask, gets, modify,
  set_failed, set_verified, full_sync, is_full_sync, mark_full_sync_deadline_exceeded, ◌>>=◌,
  try_call,
}
use krakked.Portfolio.Manager.Trades.{TradeSyncResult, ingest, sync_trades_history}
use krakked.Portfolio.Manager.Ledgers.{
  LedgerSyncResult, TradeHistoryLagStatus, sync_ledgers, missing_trade_history_refs,
  trade_history_lag_reason, send_trade_history_lag_alert,
}
use krakked.Portfolio.Manager.Views.{refresh_cached_views}

abbrev noop : SyncResult
noop = record { new_trades = 0; new_cash_flows = 0 }

abbrev counted : ℕ → ℕ → SyncResult
counted trades flows = record { new_trades = trades; new_cash_flows = flows }

-- how a call of `sync` gets the lock: at once; after a run of a kind and a generation; or not in time
pub data Turn : Type 0 where
  free : Turn
  waited : Option String → ℕ → Turn
  timed_out : Turn

module _ {F D W : Type 0} ⦃f : Float F⦄ ⦃g : Float D⦄ (d : Decimals F D) (c : Cents F D)
    (books : Books F W) (k : Links F D W) where
  last_id : Option (BalanceSnapshot F) → Option String
  last_id none = none
  last_id (some snapshot) = some snapshot.last_ledger_id

  balances_in : Option (BalanceSnapshot F) → Option (Dict (AssetBalance F))
  balances_in none = none
  balances_in (some snapshot) = some snapshot.balances

  rebuilt : List (LedgerEntry F D) → Option (BalanceSnapshot F) → Service F W → Service F W
  unfolding rebuild_balances balances_in
  rebuilt ledgers snapshot s = record s {
    portfolio = record s.portfolio { balances = rebuild_balances c ledgers (balances_in snapshot) };
  }

  -- an exception of the ingestion is not caught here
  or_raise : Bool → M F W Bool
  or_raise true s = (some true, s)
  or_raise false s = (none, s)

  ingest_stored : List (Trade F) → M F W Bool
  unfolding ingest or_raise
  ingest_stored [] = pure true
  ingest_stored (t ∷ ts) = do ok ← ingest d books k (t ∷ ts); or_raise ok

  load_from_store : M F W Bool
  unfolding rebuilt last_id ingest_stored refresh_cached_views sorted_by_time
  load_from_store = do
    snapshot ← call k.get_latest_balance_snapshot
    ledgers ← call (k.ledger_entries_after (last_id snapshot))
    _ ← modify (rebuilt ledgers snapshot)
    trades ← call k.all_trades
    _ ← ingest_stored (sorted_by_time trades)
    _ ← refresh_cached_views books k
    modify (λ s. record s { bootstrapped = true })

  -- `_bootstrap_from_store`
  unfoldable pub bootstrap_from_store : M F W Bool
  unfolding load_from_store
  bootstrap_from_store = do
    done ← gets (λ s. s.bootstrapped)
    if done then pure true else load_from_store

  compare : Dict F → Service F W → Service F W
  unfolding reconcile
  compare live s =
      let (portfolio, drift, w) = reconcile books live s.portfolio s.outside in
      record s { portfolio = portfolio; outside = w }

  unverified : M F W Bool
  unfolding set_failed
  unverified = do _ ← modify (set_failed SyncReason.degraded); pure false

  compared_live : Dict F → M F W Bool
  unfolding compare
  compared_live live = do
    _ ← modify (compare live)
    now ← ask k.now
    _ ← modify (λ s. record s { last_balance_reconcile_at = some now })
    pure true

  -- `_reconcile`
  unfoldable pub reconcile_live : M F W Bool
  unfolding unverified compared_live
  reconcile_live = try_call (call k.get_balance) unverified compared_live

  -- the result, if the deadline has passed, or the rest
  unfoldable pub unless_late : SyncResult → M F W SyncResult → M F W SyncResult
  unfolding mark_full_sync_deadline_exceeded
  unless_late result rest = do
    late ← mark_full_sync_deadline_exceeded k
    if late then pure result else rest

  lagging : SyncResult → TradeHistoryLagStatus F → M F W SyncResult
  unfolding set_failed trade_history_lag_reason refresh_cached_views send_trade_history_lag_alert
  lagging result lag = do
    _ ← modify (set_failed (trade_history_lag_reason lag))
    _ ← refresh_cached_views books k
    _ ← send_trade_history_lag_alert c books k lag
    pure result

  verify : SyncResult → M F W SyncResult
  unfolding set_verified
  verify result = do now ← ask k.now; _ ← modify (set_verified now); pure result

  reconciled : SyncResult → M F W SyncResult
  unfolding reconcile_live refresh_cached_views unless_late verify
  reconciled result = do
    _ ← modify (λ s. record s { trade_history_lag_alerted_refs = [] })
    ok ← reconcile_live
    _ ← refresh_cached_views books k
    if ok then unless_late result (verify result) else pure result

  unfoldable pub matched : SyncResult → TradeHistoryLagStatus F → M F W SyncResult
  unfolding lagging reconciled
  matched result lag = elim lag.ref_times [ [] ↦ reconciled result | r ∷ rs ↦ lagging result lag ]

  after_ledgers : TradeSyncResult → LedgerSyncResult → M F W SyncResult
  unfolding missing_trade_history_refs matched unless_late
  after_ledgers trades ledgers =
      let result = counted trades.count ledgers.cash_flow_count in
      if ledgers.failed
      then pure (counted trades.count 0)
      else unless_late result (do
        lag ← missing_trade_history_refs c books k trades.trade_ids ledgers.trade_refids
        matched result lag)

  after_trades : TradeSyncResult → M F W SyncResult
  unfolding sync_ledgers after_ledgers unless_late
  after_trades trades =
      if trades.failed
      then pure noop
      else unless_late (counted trades.count 0)
          (do ledgers ← sync_ledgers c books k; after_ledgers trades ledgers)

  -- what `_sync_unlocked` tries, outside the paper mode
  unfoldable pub steps : M F W SyncResult
  unfolding bootstrap_from_store sync_trades_history after_trades unless_late
  steps = unless_late noop (do
    _ ← bootstrap_from_store
    unless_late noop (do
      since ← call k.latest_trade_time
      trades ← sync_trades_history d books k since
      after_trades trades))

  -- `_set_sync_in_progress`
  begun : M F W Bool
  begun = do
    now ← ask k.now
    modify (λ s. record s { sync_in_progress = true; sync_started_at = some now })

  ended : Option SyncResult × Service F W → Option SyncResult × Service F W
  unfolding set_failed
  ended (none, s) = (
    none,
    record (set_failed SyncReason.sync_failed s) {
      sync_in_progress = false;
      sync_started_at = none;
    },
  )
  ended (some r, s) = (some r, record s { sync_in_progress = false; sync_started_at = none })

  -- `_sync_unlocked`; an exception is raised again
  unfoldable pub sync_unlocked : M F W SyncResult
  unfolding begun steps ended
  sync_unlocked s = ended ((do _ ← begun; steps) s)

  begin_full_sync_run : Service F W → Service F W
  begin_full_sync_run s = record s {
    sync_generation = s.sync_generation + 1;
    sync_run_kind = some full_sync;
  }

  -- the result is remembered for a call that waited for this one
  remembered : ℕ → Option SyncResult × Service F W → Option SyncResult × Service F W
  remembered generation (none, s) = (none, record s { sync_run_kind = none })
  remembered generation (some r, s) = (
    some r,
    record s {
      last_sync_result = r;
      last_sync_result_generation = generation;
      sync_run_kind = none;
    },
  )

  run_full : M F W SyncResult
  unfolding begin_full_sync_run sync_unlocked remembered
  run_full s = let s' = begin_full_sync_run s in remembered s'.sync_generation (sync_unlocked s')

  last_or_noop_sync_result : ℕ → Service F W → SyncResult
  last_or_noop_sync_result generation s =
      if s.last_sync_result_generation == generation then s.last_sync_result else noop

  -- `sync`
  unfoldable pub sync : Turn → M F W SyncResult
  unfolding run_full is_full_sync last_or_noop_sync_result mark_full_sync_deadline_exceeded
  sync Turn.free = run_full
  sync (Turn.waited kind generation) =
      if is_full_sync kind then gets (last_or_noop_sync_result generation) else run_full
  sync Turn.timed_out = do _ ← mark_full_sync_deadline_exceeded k; pure noop
