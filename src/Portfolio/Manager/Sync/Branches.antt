-- ===== src/Portfolio/Manager/Sync/Branches.antt =====
-- The branches of `_sync_unlocked` in src/krakked/portfolio/manager.py: each comes to a verified account, or to
-- a failure with a reason.
use krakked.Prelude.{
  ℕ, Bool, true, false, Option, none, some, [], ◌∷◌, if◌then◌else◌, ◌≡◌, refl, ◌⊎◌, inl, inr,
}
use krakked.Prelude.Dict.{Dict}
use krakked.Prelude.Float.{Float}
use krakked.Execution.Router.{Decimals}
use krakked.Portfolio.Ledger.Model.{Books, Portfolio}
use krakked.Portfolio.Balances.{Cents}
use krakked.Portfolio.Manager.Model.{
  Service, Links, SyncReason, SyncResult, M, pure, ask, set_failed, is_late, marked,
  mark_full_sync_deadline_exceeded, set_verified, ◌>>=◌,
}
use krakked.Portfolio.Manager.Rules.{Frame, Held, IsFailed, Post, Post-some, Post-map, Post-next}
use krakked.Portfolio.Manager.Ledgers.{
  TradeHistoryLagStatus, trade_history_lag_reason, send_trade_history_lag_alert,
}
use krakked.Portfolio.Manager.Ledgers.Kept.{send_trade_history_lag_alert-IsFailed}
use krakked.Portfolio.Manager.Views.{refresh_cached_views}
use krakked.Portfolio.Manager.Views.Kept.{refresh_cached_views-Keeps}
use krakked.Portfolio.Manager.Sync.Start.{
  IsCompared, IsFailed-ViewFrame, IsCompared-ViewFrame, Outcome, reconcile_live-Outcome,
}
use krakked.Portfolio.Manager.Sync.{
  reconcile_live, unless_late, lagging, verify, reconciled, matched,
}

module _ {F D W : Type 0} ⦃f : Float F⦄ (books : Books F W) (k : Links F D W)
    (Q : Portfolio F → Type 0) where
  -- the sync has verified the account at an instant of the clock: the drift that the portfolio and the cached view
  -- show is that of its balances against an answer of the exchange
  abbrev pub IsVerified : Service F W → Type 0
  IsVerified s =
      (s.last_sync_ok ≡ true)
      × (s.last_sync_reason ≡ none)
      × (outside : W) × (s.last_sync_at ≡ some (k.now outside).0)
      × IsCompared books k s.portfolio
      × (s.cached_drift_status ≡ some s.portfolio.drift_status)
      × Q s.portfolio

  abbrev pub Ends : Option ℕ → Service F W → Type 0
  Ends at s = IsFailed Q at s ⊎ IsVerified s

module _ {F D W : Type 0} ⦃f : Float F⦄ ⦃g : Float D⦄ (d : Decimals F D) (c : Cents F D)
    (books : Books F W) (k : Links F D W) (Q : Portfolio F → Type 0) (frame : Frame d books Q)
    (at : Option ℕ) where
  abbrev pub End : SyncResult → Service F W → Type 0
  End r s = Ends books k Q at s

  -- a deadline that has passed is a failure
  pub unless_late-End :
      (E : Service F W → Type 0) (result : SyncResult) (rest : M F W SyncResult)
      → ((s : Service F W) (w : W) → E s → E (record s { outside = w }))
      → ((s : Service F W) → E s → Held Q at s)
      → ((s : Service F W) → E s → Post (Held Q at) End (rest s))
      → (s : Service F W) → E s
      → Post (Held Q at) End (unless_late d c books k result rest s)
  unfolding unless_late mark_full_sync_deadline_exceeded marked ask set_failed Post
  unless_late-End E result rest outside held next s h =
      let (now, w) = k.now s.outside in
      let s' : Service F W = record s { outside = w } in
      by_test (is_late k now s') s' (held s' (outside s w h)) (next s' (outside s w h))
    where
      by_test :
          (b : Bool) (s' : Service F W)
          → Held Q at s'
          → Post (Held Q at) End (rest s')
          → Post
              (Held Q at)
              End
              ((if b then pure result else rest) (if b then set_failed SyncReason.stuck s' else s'))
      by_test true s' h p = inl (refl, SyncReason.stuck, refl, h)
      by_test false s' h p = p

  verify-End :
      (result : SyncResult) (s : Service F W)
      → IsCompared books k s.portfolio
      → s.cached_drift_status ≡ some s.portfolio.drift_status
      → Q s.portfolio
      → Post (Held Q at) End (verify d c books k result s)
  unfolding verify set_verified ask Post
  verify-End result s p e q = inr (refl, refl, s.outside, refl, p, e, q)

  abbrev Fresh : Service F W → Type 0
  Fresh s =
      (IsCompared books k s.portfolio × Held Q at s)
      × (s.cached_drift_status ≡ some s.portfolio.drift_status)

  after_refresh-End :
      (result : SyncResult) (ok : Bool) (s : Service F W)
      → Outcome d c books k Q frame at ok s
      → Post (Held Q at) End (
          (do
            _ ← refresh_cached_views books k
            if ok then unless_late d c books k result (verify d c books k result) else pure result)
            s)
  unfolding Post
  after_refresh-End result true s h =
      Post-next (Held Q at) (λ a s'. Fresh s') End (refresh_cached_views books k s) _
        (Post-map (λ s' h'. h'.1) (λ a s' h'. h') (refresh_cached_views books k s)
          (refresh_cached_views-Keeps books k _ (IsCompared-ViewFrame d c books k Q frame at) s h))
        (λ a.
          unless_late-End Fresh result (verify d c books k result) (λ s w h. h) (λ s h. h.0.1)
            (λ s h. verify-End result s h.0.0 h.1 h.0.1.0))
  after_refresh-End result false s h =
      Post-next (Held Q at) (λ a s'. IsFailed Q at s') End (refresh_cached_views books k s) _
        (Post-map (λ s' h'. h'.3) (λ a s' h'. h'.0) (refresh_cached_views books k s)
          (refresh_cached_views-Keeps books k _ (IsFailed-ViewFrame d c books k Q frame at) s h))
        (λ a s h. inl h)

  reconciled-End :
      (result : SyncResult) (s : Service F W)
      → Held Q at s
      → Post (Held Q at) End (reconciled d c books k result s)
  unfolding reconciled
  reconciled-End result s h =
      let s' : Service F W = record s { trade_history_lag_alerted_refs = [] } in
      Post-next (Held Q at) (Outcome d c books k Q frame at) End (reconcile_live d c books k s') _
        (reconcile_live-Outcome d c books k Q frame at s' h) (after_refresh-End result)

  lagging-End :
      (result : SyncResult) (lag : TradeHistoryLagStatus F) (s : Service F W)
      → Held Q at s
      → Post (Held Q at) End (lagging d c books k result lag s)
  unfolding lagging set_failed
  lagging-End result lag s h =
      let s' : Service F W = set_failed (trade_history_lag_reason lag) s in
      Post-next (Held Q at) (λ a s'. IsFailed Q at s') End (refresh_cached_views books k s') _
        (Post-map (λ s' h'. h'.3) (λ a s' h'. h'.0) (refresh_cached_views books k s')
          (refresh_cached_views-Keeps books k _ (IsFailed-ViewFrame d c books k Q frame at) s'
            (refl, trade_history_lag_reason lag, refl, h)))
        (λ a s1 h1.
          Post-next (Held Q at) (λ a s'. IsFailed Q at s') End
            (send_trade_history_lag_alert c books k lag s1) _
            (Post-map (λ s' h'. h'.3) (λ a s' h'. h')
              (send_trade_history_lag_alert c books k lag s1)
              (send_trade_history_lag_alert-IsFailed d c books k Q frame at lag s1 h1))
            (λ a s2 h2. Post-some (Held Q at) End result s2 (inl h2)))

  pub matched-End :
      (result : SyncResult) (lag : TradeHistoryLagStatus F) (s : Service F W)
      → Held Q at s
      → Post (Held Q at) End (matched d c books k result lag s)
  unfolding matched
  matched-End result lag s h =
      by_times lag.ref_times (reconciled-End result s h) (lagging-End result lag s h)
    where
      by_times :
          (times : Dict F)
          → Post (Held Q at) End (reconciled d c books k result s)
          → Post (Held Q at) End (lagging d c books k result lag s)
          → Post (Held Q at) End (
              (let m : M F W SyncResult = elim times [
                | [] ↦ reconciled d c books k result
                | r ∷ rs ↦ lagging d c books k result lag
              ] in
                  m)
                s)
      by_times [] p q = p
      by_times (r ∷ rs) p q = q
