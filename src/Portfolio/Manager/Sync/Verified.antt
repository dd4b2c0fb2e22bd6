-- ===== src/Portfolio/Manager/Sync/Verified.antt =====
-- The account after a sync of src/krakked/portfolio/manager.py, and the agreement of its books.
use krakked.Prelude.{ℕ, ◌+◌, Option, none, some, refl, inl, inr, if-both}
use krakked.Prelude.Float.{Float}
use krakked.Execution.Router.{Decimals}
use krakked.Portfolio.Ledger.Model.{Books}
use krakked.Portfolio.Ledger.Equity.Valued.{equity_view-Agrees}
use krakked.Portfolio.Ledger.Trades.Agreement.{IsNegating, Agrees}
use krakked.Portfolio.Ledger.Trades.Ingested.{ingest_trades-Agrees}
use krakked.Portfolio.Ledger.Reconcile.{reconcile}
use krakked.Portfolio.Balances.{Cents}
use krakked.Portfolio.Manager.Model.{
  Service, Links, SyncReason, SyncResult, ask, gets, is_full_sync, is_late, marked, set_failed,
  mark_full_sync_deadline_exceeded,
}
use krakked.Portfolio.Manager.Rules.{Frame}
use krakked.Portfolio.Manager.Sync.Branches.{Ends}
use krakked.Portfolio.Manager.Sync.Ends.{sync_unlocked-Ends}
use krakked.Portfolio.Manager.Sync.{
  Turn, sync_unlocked, sync, begin_full_sync_run, remembered, run_full, last_or_noop_sync_result,
}

module _ {F D W : Type 0} ⦃f : Float F⦄ ⦃g : Float D⦄ (d : Decimals F D) (c : Cents F D)
    (books : Books F W) (k : Links F D W) where
  any_portfolio-Frame : Frame d books (λ p. Unit {0})
  any_portfolio-Frame = record {
    balances = λ p b h. tt;
    ingested = λ ts p w h. tt;
    viewed = λ p w h. tt;
    compared = λ live p w h. tt;
  }

  -- After a sync, whatever the exchange, the store and market data answer or raise, either it has failed,
  -- with a reason and the instant of the last verified sync as before; or it has no reason, its instant
  -- is one of the clock, the balances are those that were compared with an answer of the balance
  -- endpoint, and the portfolio's drift flag and status, which the cached view shows too, are those of
  -- that comparison.
  pub sync_unlocked-verifies :
      (s : Service F W)
      → Ends books k (λ p. Unit {0}) s.last_sync_at ((sync_unlocked d c books k s).1)
  sync_unlocked-verifies s =
      sync_unlocked-Ends d c books k (λ p. Unit {0}) any_portfolio-Frame s.last_sync_at s (tt, refl)

module _ {F D W : Type 0} ⦃f : Float F⦄ ⦃g : Float D⦄ (law : IsNegating F) (d : Decimals F D)
    (c : Cents F D) (books : Books F W) (k : Links F D W) where
  Agrees-Frame : Frame d books Agrees
  unfolding reconcile
  Agrees-Frame = record {
    balances = λ p b a. record {
      by_history = a.by_history;
      by_position = a.by_position;
      by_fees = a.by_fees;
    };
    ingested = ingest_trades-Agrees law d books;
    viewed = equity_view-Agrees books none;
    compared = λ live p w a. record {
      by_history = a.by_history;
      by_position = a.by_position;
      by_fees = a.by_fees;
    };
  }

  of_Ends : (at : Option ℕ) (s : Service F W) → Ends books k Agrees at s → Agrees s.portfolio
  of_Ends at s (inl h) = h.3.0
  of_Ends at s (inr h) = h.6

  run_full-Agrees :
      (s : Service F W) → Agrees s.portfolio → Agrees ((run_full d c books k s).1.portfolio)
  unfolding run_full remembered begin_full_sync_run
  run_full-Agrees s a =
      let s' = begin_full_sync_run d c books k s in
      by_result (sync_unlocked d c books k s') (
        of_Ends s.last_sync_at ((sync_unlocked d c books k s').1)
          (sync_unlocked-Ends d c books k Agrees Agrees-Frame s.last_sync_at s' (a, refl)))
    where
      by_result :
          (r : Option SyncResult × Service F W)
          → Agrees (r.1.portfolio)
          → Agrees ((remembered d c books k (s.sync_generation + 1) r).1.portfolio)
      by_result (none, s') h = h
      by_result (some r, s') h = h

  -- A sync keeps the books of the portfolio in agreement, whichever way it gets the lock, and whatever
  -- the exchange, the store and market data answer or raise; for an arithmetic in which subtraction adds
  -- the negated amount.
  pub sync-Agrees :
      (turn : Turn) (s : Service F W)
      → Agrees s.portfolio
      → Agrees ((sync d c books k turn s).1.portfolio)
  unfolding sync mark_full_sync_deadline_exceeded marked ask set_failed
  sync-Agrees Turn.free s a = run_full-Agrees s a
  sync-Agrees (Turn.waited kind generation) s a =
      if-both (λ m. Agrees ((m s).1.portfolio)) (is_full_sync kind)
        (gets (last_or_noop_sync_result d c books k generation)) (run_full d c books k) a
        (run_full-Agrees s a)
  sync-Agrees Turn.timed_out s a =
      let (now, w) = k.now s.outside in
      let s' : Service F W = record s { outside = w } in
      if-both (λ t. Agrees (Service.portfolio t)) (is_late k now s')
        (set_failed SyncReason.stuck s') s' a a
