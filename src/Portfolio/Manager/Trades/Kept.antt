-- ===== src/Portfolio/Manager/Trades/Kept.antt =====
-- What `_sync_trades_history` of src/krakked/portfolio/manager.py keeps, and how it fails.
use krakked.Prelude.{ℕ, String, Bool, true, false, Option, none, some, List, [], ◌∷◌, refl}
use krakked.Prelude.Float.{Float}
use krakked.Execution.Router.{Decimals}
use krakked.Portfolio.Ledger.Model.{Trade, Books, Portfolio}
use krakked.Portfolio.Manager.Model.{Service, Links, SyncReason, set_failed}
use krakked.Portfolio.Manager.Rules.{Frame, Held, IsFailed, Post, Keeps, Post-then, call-Keeps}
use krakked.Portfolio.Manager.Trades.{
  TradeSyncResult, Paged, boundary_ids, pages, ingest, trades_failed, stored, taken, start_of,
  sync_trades_history,
}

-- a sync that says that it failed is marked as failed
abbrev pub WhenFailed :
    {F W : Type 0} → Bool → (Portfolio F → Type 0) → Option ℕ → Service F W → Type 0
WhenFailed true Q at s = IsFailed Q at s
WhenFailed false Q at s = Held Q at s

module _ {F D W : Type 0} ⦃f : Float F⦄ ⦃g : Float D⦄ (d : Decimals F D) (books : Books F W)
    (k : Links F D W) (Q : Portfolio F → Type 0) (frame : Frame d books Q) (at : Option ℕ) where
  boundary_ids-Keeps : (since : Option F) → Keeps (Held Q at) (boundary_ids d books k since)
  unfolding boundary_ids Post
  boundary_ids-Keeps none s h = h
  boundary_ids-Keeps (some since) s h =
      Post-then (Held Q at) (λ a s'. Held Q at s') _ _ (call-Keeps Q at _) (λ ts s' h'. h') s h

  pages-Keeps :
      (known : List String) (start since : Option F)
      → Keeps (Held Q at) (pages d books k known start since)
  unfolding pages Post
  pages-Keeps known start since s h = h

  pub ingest-Keeps : (ts : List (Trade F)) → Keeps (Held Q at) (ingest d books k ts)
  unfolding ingest Post
  ingest-Keeps ts s h = (frame.ingested ts s.portfolio s.outside h.0, h.1)

  abbrev End : TradeSyncResult → Service F W → Type 0
  End r s = WhenFailed r.failed Q at s

  trades_failed-End :
      (s : Service F W) → Held Q at s → Post (Held Q at) End (trades_failed d books k s)
  unfolding trades_failed set_failed Post
  trades_failed-End s h = (refl, SyncReason.trades_unavailable, refl, h)

  stored-End :
      (ts : List (Trade F)) (ok : Bool) (s : Service F W)
      → Held Q at s
      → Post (Held Q at) End (stored d books k ts ok s)
  unfolding stored Post
  stored-End ts false s h = trades_failed-End s h
  stored-End ts true s h = Post-then (Held Q at) End _ _ (call-Keeps Q at _) (λ saved s' h'. h') s h

  taken-End :
      (paged : Paged F) (s : Service F W)
      → Held Q at s
      → Post (Held Q at) End (taken d books k paged s)
  unfolding taken Post
  taken-End Paged.raised s h = trades_failed-End s h
  taken-End Paged.out_of_fuel s h = trades_failed-End s h
  taken-End (Paged.fetched []) s h = h
  taken-End (Paged.fetched (t ∷ ts)) s h =
      Post-then (Held Q at) End (ingest d books k (t ∷ ts)) (stored d books k (t ∷ ts))
        (ingest-Keeps (t ∷ ts)) (stored-End (t ∷ ts)) s h

  pub sync_trades_history-End :
      (since : Option F) (s : Service F W)
      → Held Q at s
      → Post (Held Q at) End (sync_trades_history d books k since s)
  unfolding sync_trades_history
  sync_trades_history-End since =
      Post-then (Held Q at) End _ _ (boundary_ids-Keeps (start_of since)) (λ known.
        Post-then (Held Q at) End _ _ (pages-Keeps known (start_of since) since) taken-End)
