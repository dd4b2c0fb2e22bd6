-- ===== src/Portfolio/Manager/Views/Kept.antt =====
-- What the refresh of the views in src/krakked/portfolio/manager.py keeps: the portfolio is only valued again.
use krakked.Prelude.{ℕ, zero, suc, Bool, Option, none, some, ◌≡◌, refl}
use krakked.Prelude.Float.{Float}
use krakked.Portfolio.Ledger.Model.{Books, Portfolio}
use krakked.Portfolio.Ledger.Equity.{equity_view}
use krakked.Portfolio.Ledger.Equity.Snapshots.{get_asset_exposure}
use krakked.Portfolio.Manager.Model.{Service, Links, SyncReason, call, modify}
use krakked.Portfolio.Manager.Rules.{Post, Keeps, Post-then}
use krakked.Portfolio.Manager.Views.{valued, revalue, snapshot_time, cache, refresh_cached_views}

-- a statement about the portfolio, and the outcome and the instant of the last sync
abbrev pub SyncClaim : Type 0 → Type 1
SyncClaim F = Portfolio F → Bool → Option SyncReason → Option ℕ → Type 0

abbrev pub Holds : {F W : Type 0} → SyncClaim F → Service F W → Type 0
Holds R s = R s.portfolio s.last_sync_ok s.last_sync_reason s.last_sync_at

-- it holds of a portfolio that is valued again
pub record ViewFrame {F W : Type 0} ⦃f : Float F⦄ (books : Books F W) (R : SyncClaim F)
    : Type 0 where
  pub viewed :
      (p : Portfolio F) (w : W) (ok : Bool) (reason : Option SyncReason) (at : Option ℕ)
      → R p ok reason at
      → R ((equity_view books none p w).0) ok reason at

module _ {F D W : Type 0} ⦃f : Float F⦄ (books : Books F W) (k : Links F D W) (R : SyncClaim F)
    (frame : ViewFrame books R) where
  revalue-Keeps : Keeps (Holds R) (revalue books k)
  unfolding revalue valued get_asset_exposure Post
  revalue-Keeps s h =
      let (p, equity, w) = equity_view books none s.portfolio s.outside in
      frame.viewed p w s.last_sync_ok s.last_sync_reason s.last_sync_at
        (frame.viewed s.portfolio s.outside s.last_sync_ok s.last_sync_reason s.last_sync_at h)

  call-Holds : {A : Type 0} (g : W → Option A × W) → Keeps (Holds R) (call g)
  unfolding call Post
  call-Holds {A} g s h = by_answer (g s.outside)
    where
      by_answer :
          (r : Option A × W)
          → Post (Holds R) (λ a s'. Holds R s') ((r.0, record s { outside = r.1 }))
      by_answer (none, w) = h
      by_answer (some a, w) = h

  snapshot_time-Keeps : (last : ℕ) → Keeps (Holds R) (snapshot_time books k last)
  unfolding snapshot_time Post
  snapshot_time-Keeps zero s h = call-Holds k.latest_snapshot_time s h
  snapshot_time-Keeps (suc n) s h = h

  -- and the cached status of drift is the portfolio's
  pub refresh_cached_views-Keeps :
      (s : Service F W)
      → Holds R s
      → Post
          (Holds R)
          (λ a s'. Holds R s' × (s'.cached_drift_status ≡ some s'.portfolio.drift_status))
          (refresh_cached_views books k s)
  unfolding refresh_cached_views cache Post
  refresh_cached_views-Keeps =
      let Fresh : Bool → Service F W → Type 0 =
        λ a s'. Holds R s' × (s'.cached_drift_status ≡ some s'.portfolio.drift_status) in
      Post-then (Holds R) Fresh (revalue books k) _ revalue-Keeps (λ views s1.
        Post-then (Holds R) Fresh (snapshot_time books k s1.portfolio.last_snapshot_ts)
          (λ time. modify (cache books k views.0 views.1 time))
          (snapshot_time-Keeps s1.portfolio.last_snapshot_ts) (λ time s2 h. (h, refl)) s1)
