-- ===== src/Portfolio/Manager/Sync/Start.antt =====
-- What the start from the store and the reconciliation in src/krakked/portfolio/manager.py keep.
use krakked.Prelude.{ℕ, Bool, true, false, Option, none, some, List, [], ◌∷◌, ◌≡◌, refl, if-both}
use krakked.Prelude.Dict.{Dict}
use krakked.Prelude.Float.{Float}
use krakked.Execution.Router.{Decimals}
use krakked.Portfolio.Ledger.Model.{Trade, Books, Portfolio}
use krakked.Portfolio.Ledger.Equity.{equity_view}
use krakked.Portfolio.Ledger.Reconcile.{reconcile}
use krakked.Portfolio.Ledger.Trades.Ingest.{sorted_by_time}
use krakked.Portfolio.Balances.{Cents}
use krakked.Portfolio.Manager.Model.{
  Service, Links, SyncReason, pure, call, ask, set_failed, caught,
}
use krakked.Portfolio.Manager.Rules.{
  Frame, Held, IsFailed, Post, Post-some, Post-map, Keeps, Post-then, call-Keeps,
}
use krakked.Portfolio.Manager.Trades.{ingest}
use krakked.Portfolio.Manager.Trades.Kept.{ingest-Keeps}
use krakked.Portfolio.Manager.Views.{refresh_cached_views}
use krakked.Portfolio.Manager.Views.Kept.{ViewFrame, refresh_cached_views-Keeps}
use krakked.Portfolio.Manager.Sync.{
  or_raise, ingest_stored, load_from_store, rebuilt, bootstrap_from_store, compare, unverified,
  compared_live, reconcile_live,
}

-- the balances of the portfolio are compared with an answer of the exchange, as its drift tells
pub record IsCompared {F D W : Type 0} ⦃f : Float F⦄ (books : Books F W) (k : Links F D W)
    (p : Portfolio F) : Type 0 where
  pub live : Dict F
  pub before : Portfolio F
  pub outside : W
  pub after : W
  pub answered : k.get_balance outside ≡ (some live, after)
  pub balances : p.balances ≡ before.balances
  pub drift_flag : p.drift_flag ≡ (reconcile books live before after).1
  pub drift_status : p.drift_status ≡ (reconcile books live before after).0.drift_status

module _ {F D W : Type 0} ⦃f : Float F⦄ ⦃g : Float D⦄ (d : Decimals F D) (c : Cents F D)
    (books : Books F W) (k : Links F D W) (Q : Portfolio F → Type 0) (frame : Frame d books Q)
    (at : Option ℕ) where
  pub Held-ViewFrame : ViewFrame books (λ p ok reason at'. Q p × (at' ≡ at))
  Held-ViewFrame = record { viewed = λ p w ok reason at' h. (frame.viewed p w h.0, h.1) }

  pub IsFailed-ViewFrame :
      ViewFrame books (λ p ok reason at'.
        (ok ≡ false) × (r : SyncReason) × (reason ≡ some r) × (Q p × (at' ≡ at)))
  IsFailed-ViewFrame = record {
    viewed = λ p w ok reason at' h. (h.0, h.1, h.2, (frame.viewed p w h.3.0, h.3.1));
  }

  pub IsCompared-ViewFrame :
      ViewFrame books (λ p ok reason at'. IsCompared books k p × (Q p × (at' ≡ at)))
  unfolding equity_view
  IsCompared-ViewFrame = record {
    viewed = λ p w ok reason at' h. (
      record {
        live = IsCompared.live h.0;
        before = IsCompared.before h.0;
        outside = IsCompared.outside h.0;
        after = IsCompared.after h.0;
        answered = IsCompared.answered h.0;
        balances = IsCompared.balances h.0;
        drift_flag = IsCompared.drift_flag h.0;
        drift_status = IsCompared.drift_status h.0;
      },
      (frame.viewed p w h.1.0, h.1.1),
    );
  }

  or_raise-Keeps : (ok : Bool) → Keeps (Held Q at) (or_raise d c books k ok)
  unfolding or_raise Post
  or_raise-Keeps true s h = h
  or_raise-Keeps false s h = h

  ingest_stored-Keeps : (ts : List (Trade F)) → Keeps (Held Q at) (ingest_stored d c books k ts)
  unfolding ingest_stored Post
  ingest_stored-Keeps [] s h = h
  ingest_stored-Keeps (t ∷ ts) s h =
      Post-then (Held Q at) (λ a s'. Held Q at s') (ingest d books k (t ∷ ts))
        (or_raise d c books k) (ingest-Keeps d books k Q frame at (t ∷ ts)) or_raise-Keeps s h

  refresh-Keeps : Keeps (Held Q at) (refresh_cached_views books k)
  refresh-Keeps s h =
      Post-map (λ s' h'. h') (λ a s' h'. h'.0) (refresh_cached_views books k s)
        (refresh_cached_views-Keeps books k (λ p ok reason at'. Q p × (at' ≡ at)) Held-ViewFrame s
          h)

  load_from_store-Keeps : Keeps (Held Q at) (load_from_store d c books k)
  unfolding load_from_store rebuilt
  load_from_store-Keeps =
      let Still : Bool → Service F W → Type 0 = λ a s'. Held Q at s' in
      Post-then (Held Q at) Still _ _ (call-Keeps Q at _) (λ snapshot.
        Post-then (Held Q at) Still _ _ (call-Keeps Q at _) (λ ledgers s h.
          Post-then (Held Q at) Still _ _ (call-Keeps Q at _)
            (λ trades.
              Post-then (Held Q at) Still _ _ (ingest_stored-Keeps (sorted_by_time trades)) (λ done.
                Post-then (Held Q at) Still _ _ refresh-Keeps
                  (λ seen s' h'. Post-some (Held Q at) Still true _ h')))
            (rebuilt d c books k ledgers snapshot s) (frame.balances s.portfolio _ h.0, h.1)))

  pub bootstrap_from_store-Keeps : Keeps (Held Q at) (bootstrap_from_store d c books k)
  unfolding bootstrap_from_store
  bootstrap_from_store-Keeps s h =
      if-both (λ m. Post (Held Q at) (λ a s'. Held Q at s') (m s)) s.bootstrapped (pure true)
        (load_from_store d c books k) (Post-some (Held Q at) (λ a s'. Held Q at s') true s h)
        (load_from_store-Keeps s h)

  -- after a reconciliation: compared, or failed
  abbrev pub Outcome : Bool → Service F W → Type 0
  Outcome true s = IsCompared books k s.portfolio × Held Q at s
  Outcome false s = IsFailed Q at s

  pub reconcile_live-Outcome :
      (s : Service F W) → Held Q at s → Post (Held Q at) Outcome (reconcile_live d c books k s)
  unfolding reconcile_live unverified compared_live compare set_failed call ask Post reconcile
  reconcile_live-Outcome s h = by_answer (k.get_balance s.outside) refl
    where
      by_answer :
          (r : Option (Dict F) × W)
          → k.get_balance s.outside ≡ r
          → Post (Held Q at) Outcome (
              caught
                (r.0, record s { outside = r.1 })
                (unverified d c books k)
                (compared_live d c books k))
      by_answer (none, w) e = (refl, SyncReason.degraded, refl, h)
      by_answer (some live, w) e = (
        record {
          live = live;
          before = s.portfolio;
          outside = s.outside;
          after = w;
          answered = e;
          balances = refl;
          drift_flag = refl;
          drift_status = refl;
        },
        (frame.compared live s.portfolio w h.0, h.1),
      )
