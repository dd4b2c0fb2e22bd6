-- ===== src/Portfolio/Manager/Ledgers/Kept.antt =====
-- What `_sync_ledgers` and the search for lagging references in src/krakked/portfolio/manager.py keep.
use krakked.Prelude.{
  ℕ, String, Bool, true, false, Option, none, some, List, [], ◌∷◌, refl, if-both, length,
}
use krakked.Prelude.Dict.{Dict}
use krakked.Prelude.Float.{Float, lt, zero_float}
use krakked.Execution.Router.{Decimals}
use krakked.Portfolio.Ledger.Model.{Books, Portfolio, CashFlowRecord}
use krakked.Portfolio.Balances.{LedgerEntry, Cents, sorted}
use krakked.Portfolio.Manager.Model.{
  Service, Links, LedgerInfo, SyncReason, call, ask, pure, set_failed,
}
use krakked.Portfolio.Manager.Rules.{
  Frame, Held, IsFailed, Post, Keeps, Post-then, Post-caught, call-Keeps, ask-Keeps,
}
use krakked.Portfolio.Manager.Trades.Kept.{WhenFailed}
use krakked.Portfolio.Manager.Ledgers.{
  LedgerSyncResult, TradeHistoryLagStatus, applied, apply_new, boundary_ledgers, save_flows,
  ledgers_failed, take_ledgers, sync_ledgers, new_entries, lag_at, missing_trade_history_refs,
  without, ids_of, note_alert, alert, send_trade_history_lag_alert,
}

module _ {F D W : Type 0} ⦃f : Float F⦄ ⦃g : Float D⦄ (d : Decimals F D) (c : Cents F D)
    (books : Books F W) (k : Links F D W) (Q : Portfolio F → Type 0) (frame : Frame d books Q)
    (at : Option ℕ) where
  abbrev End : LedgerSyncResult → Service F W → Type 0
  End r s = WhenFailed r.failed Q at s

  apply_new-Keeps : (es : List (LedgerEntry F D)) → Keeps (Held Q at) (apply_new c books k es)
  unfolding apply_new applied Post
  apply_new-Keeps [] s h = h
  apply_new-Keeps (e ∷ es) s h =
      Post-then (Held Q at) (λ a s'. Held Q at s') _ _ (call-Keeps Q at _)
        (λ saved s1 h1.
          Post-then (Held Q at) (λ a s'. Held Q at s') _ _ (apply_new-Keeps es) (λ r s' h'. h')
            (applied c books k e s1) (frame.balances s1.portfolio _ h1.0, h1.1))
        s h

  boundary_ledgers-Keeps : (last : F) → Keeps (Held Q at) (boundary_ledgers c books k last)
  unfolding boundary_ledgers Post
  boundary_ledgers-Keeps last =
      if-both (Keeps (Held Q at)) (lt zero_float last) (call (k.ledger_ids_since last)) (pure [])
        (call-Keeps Q at _) (λ s h. h)

  save_flows-Keeps :
      (flows : List (CashFlowRecord F)) → Keeps (Held Q at) (save_flows c books k flows)
  unfolding save_flows Post
  save_flows-Keeps [] s h = h
  save_flows-Keeps (x ∷ xs) s h = call-Keeps Q at _ s h

  take_ledgers-End :
      (last : F) (known : List String) (answer : Dict (LedgerInfo F D)) (s : Service F W)
      → Held Q at s
      → Post (Held Q at) End (take_ledgers c books k last known answer s)
  unfolding take_ledgers Post
  take_ledgers-End last known answer =
      Post-then (Held Q at) End
        (apply_new c books k (sorted (new_entries c books k last known answer))) _
        (apply_new-Keeps _)
        (λ (found : List String × List (CashFlowRecord F)).
          Post-then (Held Q at) End (save_flows c books k found.1)
            (λ saved.
              pure (record {
                cash_flow_count = length found.1;
                trade_refids = found.0;
                failed = false;
              }))
            (save_flows-Keeps found.1) (λ saved s' h'. h'))

  ledgers_failed-End :
      (s : Service F W) → Held Q at s → Post (Held Q at) End (ledgers_failed c books k s)
  unfolding ledgers_failed set_failed Post
  ledgers_failed-End s h = (refl, SyncReason.ledgers_unavailable, refl, h)

  pub sync_ledgers-End :
      (s : Service F W) → Held Q at s → Post (Held Q at) End (sync_ledgers c books k s)
  unfolding sync_ledgers
  sync_ledgers-End = Post-then (Held Q at) End _ _ (call-Keeps Q at _) (λ latest.
      let last : F = elim latest [ none ↦ zero_float | some time ↦ time ] in
      Post-then (Held Q at) End _ _ (boundary_ledgers-Keeps last) (λ known s h.
        Post-caught (Held Q at) (λ a s'. Held Q at s') End _ _ _ (call-Keeps Q at _ s h)
          ledgers_failed-End (take_ledgers-End last known)))

  lag_at-Keeps :
      (fetched : List String) (times : Dict F) → Keeps (Held Q at) (lag_at c books k fetched times)
  unfolding lag_at Post
  lag_at-Keeps fetched [] s h = h
  lag_at-Keeps fetched (r ∷ rs) s h =
      Post-then (Held Q at) (λ a s'. Held Q at s') _ _ (ask-Keeps Q at k.now) (λ now s' h'. h') s h

  pub missing_trade_history_refs-Keeps :
      (fetched refids : List String)
      → Keeps (Held Q at) (missing_trade_history_refs c books k fetched refids)
  unfolding missing_trade_history_refs
  missing_trade_history_refs-Keeps fetched refids =
      Post-then (Held Q at) (λ a s'. Held Q at s') _ _ (call-Keeps Q at _) (lag_at-Keeps fetched)

  -- a failed sync stays one while the alert is sent
  alert-IsFailed :
      (status : TradeHistoryLagStatus F) (fresh : List String)
      → Keeps (IsFailed Q at) (alert c books k status fresh)
  unfolding alert note_alert Post ask
  alert-IsFailed status [] s h = h
  alert-IsFailed status (id ∷ ids) s h =
      let (delivered, w) =
        k.send_alert (ids_of status.ref_times) status.escalated_refids s.outside in
      by_answer delivered (record s { outside = w }) h
    where
      by_answer :
          (b : Bool) (s' : Service F W)
          → IsFailed Q at s'
          → IsFailed Q at (note_alert c books k b (id ∷ ids) s')
      by_answer true s' h' = h'
      by_answer false s' h' = h'

  pub send_trade_history_lag_alert-IsFailed :
      (status : TradeHistoryLagStatus F)
      → Keeps (IsFailed Q at) (send_trade_history_lag_alert c books k status)
  unfolding send_trade_history_lag_alert
  send_trade_history_lag_alert-IsFailed status s h =
      alert-IsFailed status
        (without c books k s.trade_history_lag_alerted_refs status.escalated_refids) s h
