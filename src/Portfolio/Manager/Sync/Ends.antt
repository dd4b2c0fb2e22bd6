-- ===== src/Portfolio/Manager/Sync/Ends.antt =====
-- What `_sync_unlocked` of src/krakked/portfolio/manager.py comes to: a verified account, or a failure with a
-- reason.
use krakked.Prelude.{ℕ, Bool, true, false, Option, none, some, if◌then◌else◌, refl, inl, inr}
use krakked.Prelude.Float.{Float}
use krakked.Execution.Router.{Decimals}
use krakked.Portfolio.Ledger.Model.{Books, Portfolio}
use krakked.Portfolio.Balances.{Cents}
use krakked.Portfolio.Manager.Model.{
  Service, Links, SyncReason, SyncResult, M, pure, ask, set_failed, ◌>>=◌,
}
use krakked.Portfolio.Manager.Rules.{Frame, Held, Post, Post-some, Post-then, Post-next, call-Keeps}
use krakked.Portfolio.Manager.Trades.{TradeSyncResult, sync_trades_history}
use krakked.Portfolio.Manager.Trades.Kept.{WhenFailed, sync_trades_history-End}
use krakked.Portfolio.Manager.Ledgers.{LedgerSyncResult, sync_ledgers, missing_trade_history_refs}
use krakked.Portfolio.Manager.Ledgers.Kept.{sync_ledgers-End, missing_trade_history_refs-Keeps}
use krakked.Portfolio.Manager.Sync.Start.{bootstrap_from_store-Keeps}
use krakked.Portfolio.Manager.Sync.{
  noop, counted, unless_late, matched, after_ledgers, after_trades, steps, begun, ended,
  sync_unlocked,
}
use krakked.Portfolio.Manager.Sync.Branches.{Ends, unless_late-End, matched-End}

module _ {F D W : Type 0} ⦃f : Float F⦄ ⦃g : Float D⦄ (d : Decimals F D) (c : Cents F D)
    (books : Books F W) (k : Links F D W) (Q : Portfolio F → Type 0) (frame : Frame d books Q)
    (at : Option ℕ) where
  abbrev Closed : SyncResult → Service F W → Type 0
  Closed r s = Ends books k Q at s

  after_ledgers-End :
      (trades : TradeSyncResult) (ledgers : LedgerSyncResult) (s : Service F W)
      → WhenFailed ledgers.failed Q at s
      → Post (Held Q at) Closed (after_ledgers d c books k trades ledgers s)
  unfolding after_ledgers
  after_ledgers-End trades ledgers s h = by_failure ledgers.failed h
    where
      result : SyncResult
      result = counted trades.count ledgers.cash_flow_count

      rest : M F W SyncResult
      rest = do
        lag ← missing_trade_history_refs c books k trades.trade_ids ledgers.trade_refids
        matched d c books k result lag

      by_failure :
          (b : Bool)
          → WhenFailed b Q at s
          → Post
              (Held Q at)
              Closed
              ((if b then pure (counted trades.count 0) else unless_late d c books k result rest) s)
      by_failure true h = Post-some (Held Q at) Closed _ s (inl h)
      by_failure false h =
          unless_late-End d c books k Q frame at (Held Q at) result rest (λ s w h. h) (λ s h. h)
            (Post-then (Held Q at) Closed _ _
              (missing_trade_history_refs-Keeps d c books k Q frame at _ _)
              (matched-End d c books k Q frame at result))
            s h

  after_trades-End :
      (trades : TradeSyncResult) (s : Service F W)
      → WhenFailed trades.failed Q at s
      → Post (Held Q at) Closed (after_trades d c books k trades s)
  unfolding after_trades
  after_trades-End trades s h = by_failure trades.failed h
    where
      rest : M F W SyncResult
      rest = do ledgers ← sync_ledgers c books k; after_ledgers d c books k trades ledgers

      by_failure :
          (b : Bool)
          → WhenFailed b Q at s
          → Post
              (Held Q at)
              Closed
              ((if b then pure noop else unless_late d c books k (counted trades.count 0) rest) s)
      by_failure true h = Post-some (Held Q at) Closed noop s (inl h)
      by_failure false h =
          unless_late-End d c books k Q frame at (Held Q at) (counted trades.count 0) rest
            (λ s w h. h) (λ s h. h)
            (λ s h.
              Post-next (Held Q at) (λ r s'. WhenFailed r.failed Q at s') Closed
                (sync_ledgers c books k s) _ (sync_ledgers-End d c books k Q frame at s h)
                (after_ledgers-End trades))
            s h

  steps-End : (s : Service F W) → Held Q at s → Post (Held Q at) Closed (steps d c books k s)
  unfolding steps
  steps-End =
      unless_late-End d c books k Q frame at (Held Q at) noop _ (λ s w h. h) (λ s h. h)
        (Post-then (Held Q at) Closed _ _ (bootstrap_from_store-Keeps d c books k Q frame at)
          (λ done.
            unless_late-End d c books k Q frame at (Held Q at) noop _ (λ s w h. h) (λ s h. h)
              (Post-then (Held Q at) Closed _ _ (call-Keeps Q at _) (λ since s h.
                Post-next (Held Q at) (λ r s'. WhenFailed r.failed Q at s') Closed
                  (sync_trades_history d books k since s) _
                  (sync_trades_history-End d books k Q frame at since s h) after_trades-End))))

  ended-Ends :
      (r : Option SyncResult × Service F W)
      → Post (Held Q at) Closed r
      → Ends books k Q at ((ended d c books k r).1)
  unfolding ended set_failed Post
  ended-Ends (none, s) h = inl (refl, SyncReason.sync_failed, refl, h)
  ended-Ends (some r, s) (inl h) = inl h
  ended-Ends (some r, s) (inr h) = inr h

  pub sync_unlocked-Ends :
      (s : Service F W) → Held Q at s → Ends books k Q at ((sync_unlocked d c books k s).1)
  unfolding sync_unlocked begun ask
  sync_unlocked-Ends s h =
      let (now, w) = k.now s.outside in
      ended-Ends _ (
        steps-End (record s { sync_in_progress = true; sync_started_at = some now; outside = w }) h)
