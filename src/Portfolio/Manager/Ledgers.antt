-- ===== src/Portfolio/Manager/Ledgers.antt =====
-- `_sync_ledgers` and the trade references that lag, in src/krakked/portfolio/manager.py. A set of ids is a
-- list of them.
pub mod Kept
use krakked.Prelude.{
  ℕ, String, Bool, true, false, ◌&&◌, Option, none, some, List, [], ◌∷◌, ◌++◌, length,
  if◌then◌else◌,
}
use krakked.Prelude.Int.{pos}
use krakked.Prelude.Text.{str_eq, member, is_filled}
use krakked.Prelude.Dict.{Dict}
use krakked.Prelude.Float.{Float, lt, zero_float, float_eq}
use krakked.Portfolio.Ledger.Model.{AssetBalance, CashFlowRecord, Books, Portfolio}
use krakked.Portfolio.Balances.{LedgerEntry, Cents, apply_entry, sorted, classify_cashflow}
use krakked.Portfolio.SyncStatus
use krakked.Portfolio.SyncStatus.{max_live_sync_age_seconds}
use krakked.Portfolio.Manager.Model.{
  Service, Links, LedgerInfo, SyncReason, M, pure, call, ask, gets, modify, set_failed, ◌>>=◌,
  try_call,
}

pub record LedgerSyncResult : Type 0 where
  pub cash_flow_count : ℕ
  pub trade_refids : List String
  pub failed : Bool

pub record TradeHistoryLagStatus (F : Type 0) : Type 0 where
  pub ref_times : Dict F
  pub escalated_refids : List String
  pub max_age_seconds : ℕ

module _ {F : Type 0} where
  unfoldable pub ids_of : Dict F → List String
  ids_of [] = []
  ids_of ((id, time) ∷ rest) = id ∷ ids_of rest

  -- the references whose trades were not fetched
  unfoldable pub missing_of : List String → Dict F → Dict F
  missing_of fetched [] = []
  missing_of fetched ((id, time) ∷ rest) =
      let others = missing_of fetched rest in
      if member id fetched then others else (id, time) ∷ others

module _ {F : Type 0} ⦃f : Float F⦄ where
  -- the references of ledger entries that are older than a limit at an instant in seconds
  escalated : F → F → Dict F → List String
  escalated now limit [] = []
  escalated now limit ((id, time) ∷ rest) =
      let others = escalated now limit rest in
      if lt limit (f.sub now time) then id ∷ others else others

module _ {F D W : Type 0} ⦃f : Float F⦄ ⦃g : Float D⦄ (c : Cents F D) (books : Books F W)
    (k : Links F D W) where
  -- `_create_ledger_entry`
  unfoldable pub create_ledger_entry : String → LedgerInfo F D → LedgerEntry F D
  create_ledger_entry id info = record {
    id = id;
    time = info.time;
    kind = info.kind;
    subtype = info.subtype;
    asset = books.normalize_asset info.asset;
    amount = info.amount;
    fee = info.fee;
    balance = info.balance;
    refid = info.refid;
    misc = none;
  }

  -- whether an entry is older than the last one stored, or stored itself
  unfoldable pub is_stored : F → List String → String → LedgerInfo F D → Bool
  is_stored last known id info =
      if lt info.time last then true else float_eq info.time last && member id known

  unfoldable pub new_entries : F → List String → Dict (LedgerInfo F D) → List (LedgerEntry F D)
  unfolding is_stored create_ledger_entry
  new_entries last known [] = []
  new_entries last known ((id, info) ∷ rest) =
      let others = new_entries last known rest in
      if is_stored last known id info then others else create_ledger_entry id info ∷ others

  -- the reference of an entry of a trade
  refs_of : LedgerEntry F D → List String
  refs_of e = elim e.refid [
    | none ↦ []
    | some id ↦ (if str_eq e.kind "trade" && is_filled id then id ∷ [] else [])
  ]

  -- the engine works on the balances of the portfolio themselves
  applied : LedgerEntry F D → Service F W → Service F W
  unfolding apply_entry
  applied e s = record s {
    portfolio = record s.portfolio { balances = apply_entry c e s.portfolio.balances };
  }

  flows_onto : List (CashFlowRecord F) → Option (CashFlowRecord F) → List (CashFlowRecord F)
  flows_onto flows none = flows
  flows_onto flows (some flow) = flow ∷ flows

  -- the entries in order: the references and the cash flows
  apply_new : List (LedgerEntry F D) → M F W (List String × List (CashFlowRecord F))
  unfolding applied refs_of flows_onto classify_cashflow
  apply_new [] = pure ([], [])
  apply_new (e ∷ es) =
      let rest = apply_new es in
      do
        _ ← call (k.save_ledger_entry e)
        _ ← modify (applied e)
        found ← rest
        pure (refs_of e ++ found.0, flows_onto found.1 (classify_cashflow c books.int_of e))

  boundary_ledgers : F → M F W (List String)
  boundary_ledgers last = if lt zero_float last then call (k.ledger_ids_since last) else pure []

  save_flows : List (CashFlowRecord F) → M F W Bool
  save_flows [] = pure true
  save_flows (flow ∷ flows) = call (k.save_cash_flows (flow ∷ flows))

  ledgers_failed : M F W LedgerSyncResult
  unfolding set_failed
  ledgers_failed = do
    _ ← modify (set_failed SyncReason.ledgers_unavailable)
    pure (record { cash_flow_count = 0; trade_refids = []; failed = true })

  take_ledgers : F → List String → Dict (LedgerInfo F D) → M F W LedgerSyncResult
  unfolding new_entries sorted apply_new save_flows
  take_ledgers last known answer = do
    found ← apply_new (sorted (new_entries last known answer))
    _ ← save_flows found.1
    pure (record { cash_flow_count = length found.1; trade_refids = found.0; failed = false })

  -- `_sync_ledgers`
  unfoldable pub sync_ledgers : M F W LedgerSyncResult
  unfolding boundary_ledgers take_ledgers ledgers_failed
  sync_ledgers = do
    latest ← call k.latest_ledger_time
    let last : F = elim latest [ none ↦ zero_float | some time ↦ time ]
    known ← boundary_ledgers last
    try_call (call (k.get_ledgers (if lt zero_float last then some last else none))) ledgers_failed
        (take_ledgers last known)

  -- `max_live_sync_age_seconds(self.config)`
  unfoldable pub max_age : ℕ
  unfolding max_live_sync_age_seconds
  max_age = max_live_sync_age_seconds (record {
    sync_interval_seconds = k.sync_interval_seconds;
    last_sync_ok = false;
    last_sync_reason = none;
    last_sync_at = none;
    sync_in_progress = false;
  })

  -- `datetime.timestamp()`
  seconds_of : ℕ → F
  seconds_of now = f.div (f.of_int (pos now)) (f.lit 1000000 0)

  -- the references that are missing, at an instant
  lag_at : List String → Dict F → M F W (TradeHistoryLagStatus F)
  unfolding missing_of escalated seconds_of max_age
  lag_at fetched [] =
      pure (record { ref_times = []; escalated_refids = []; max_age_seconds = max_age })
  lag_at fetched (r ∷ rs) = do
    now ← ask k.now
    let missing = missing_of fetched (r ∷ rs)
    pure (record {
      ref_times = missing;
      escalated_refids = escalated (seconds_of now) (f.of_int (pos max_age)) missing;
      max_age_seconds = max_age;
    })

  -- `_missing_trade_history_refs`
  unfoldable pub missing_trade_history_refs :
      List String → List String → M F W (TradeHistoryLagStatus F)
  unfolding lag_at
  missing_trade_history_refs fetched refids = do
    times ← call (k.get_unmatched_trade_ledger_ref_times refids)
    lag_at fetched times

  without : List String → List String → List String
  without known [] = []
  without known (id ∷ ids) =
      let rest = without known ids in if member id known then rest else id ∷ rest

  note_alert : Bool → List String → Service F W → Service F W
  note_alert delivered fresh s =
      if delivered
      then record s { trade_history_lag_alerted_refs = s.trade_history_lag_alerted_refs ++ fresh }
      else s

  alert : TradeHistoryLagStatus F → List String → M F W Bool
  unfolding ids_of note_alert
  alert status [] = pure false
  alert status (id ∷ ids) = do
    delivered ← ask (k.send_alert (ids_of status.ref_times) status.escalated_refids)
    modify (note_alert delivered (id ∷ ids))

  -- `_send_trade_history_lag_alert`, with a notifier
  unfoldable pub send_trade_history_lag_alert : TradeHistoryLagStatus F → M F W Bool
  unfolding without alert
  send_trade_history_lag_alert status = do
    known ← gets (λ s. s.trade_history_lag_alerted_refs)
    alert status (without known status.escalated_refids)

-- `_trade_history_lag_reason`
unfoldable pub trade_history_lag_reason : {F : Type 0} → TradeHistoryLagStatus F → SyncReason
trade_history_lag_reason status = elim status.escalated_refids [
  | [] ↦ SyncReason.lagging
  | id ∷ ids ↦ SyncReason.lag_escalated status.max_age_seconds
]
