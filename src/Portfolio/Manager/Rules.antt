-- ===== src/Portfolio/Manager/Rules.antt =====
-- Rules for the methods of `PortfolioService` in src/krakked/portfolio/manager.py: what holds after a method
-- that returns, and after one that raises.
use krakked.Prelude.{ℕ, false, Option, none, some, List, ◌≡◌}
use krakked.Prelude.Dict.{Dict}
use krakked.Prelude.Float.{Float}
use krakked.Execution.Router.{Decimals}
use krakked.Portfolio.Ledger.Model.{AssetBalance, Trade, Books, Portfolio}
use krakked.Portfolio.Ledger.Trades.Ingest.{ingest_trades}
use krakked.Portfolio.Ledger.Equity.{equity_view}
use krakked.Portfolio.Ledger.Reconcile.{reconcile}
use krakked.Portfolio.Manager.Model.{Service, SyncReason, M, call, ask, next, caught, ◌>>=◌}

-- what a sync does to a portfolio keeps `Q`
pub record Frame {F D W : Type 0} ⦃f : Float F⦄ ⦃g : Float D⦄ (d : Decimals F D) (books : Books F W)
    (Q : Portfolio F → Type 0) : Type 0 where
  pub balances : (p : Portfolio F) (b : Dict (AssetBalance F)) → Q p → Q (record p { balances = b })
  pub ingested :
      (trades : List (Trade F)) (p : Portfolio F) (w : W)
      → Q p
      → Q ((ingest_trades d books trades p w).0)
  pub viewed : (p : Portfolio F) (w : W) → Q p → Q ((equity_view books none p w).0)
  pub compared : (live : Dict F) (p : Portfolio F) (w : W) → Q p → Q ((reconcile books live p w).0)

-- the portfolio has `Q`, and the last sync is still the one of an instant
abbrev pub Held : {F W : Type 0} → (Portfolio F → Type 0) → Option ℕ → Service F W → Type 0
Held Q at s = Q s.portfolio × (s.last_sync_at ≡ at)

-- the sync has failed, for a reason
abbrev pub IsFailed : {F W : Type 0} → (Portfolio F → Type 0) → Option ℕ → Service F W → Type 0
IsFailed Q at s =
    (s.last_sync_ok ≡ false)
    × (reason : SyncReason) × (s.last_sync_reason ≡ some reason)
    × Held Q at s

module _ {F W A : Type 0} where
  -- `R` of a result and its state; `E` of the state after an exception
  unfoldable pub Post :
      (Service F W → Type 0) → (A → Service F W → Type 0) → Option A × Service F W → Type 0
  Post E R (none, s) = E s
  Post E R (some a, s) = R a s

  pub Post-some :
      (E : Service F W → Type 0) (R : A → Service F W → Type 0) (a : A) (s : Service F W)
      → R a s
      → Post E R (some a, s)
  unfolding Post
  Post-some E R a s h = h

  pub Post-map :
      {E E' : Service F W → Type 0} {R R' : A → Service F W → Type 0}
      → ((s : Service F W) → E s → E' s)
      → ((a : A) (s : Service F W) → R a s → R' a s)
      → (r : Option A × Service F W) → Post E R r
      → Post E' R' r
  unfolding Post
  Post-map e t (none, s) h = e s h
  Post-map e t (some a, s) h = t a s h

  -- the method `m` keeps `E`
  abbrev pub Keeps : (Service F W → Type 0) → M F W A → Type 0
  Keeps E m = (s : Service F W) → E s → Post E (λ a s'. E s') (m s)

module _ {F W A B : Type 0} where
  pub Post-next :
      (E : Service F W → Type 0) (R : A → Service F W → Type 0) (T : B → Service F W → Type 0)
      (r : Option A × Service F W) (m : A → M F W B)
      → Post E R r
      → ((a : A) (s : Service F W) → R a s → Post E T (m a s))
      → Post E T (next r m)
  unfolding Post
  Post-next E R T (none, s) m h t = h
  Post-next E R T (some a, s) m h t = t a s h

  pub Post-caught :
      (E : Service F W → Type 0) (R : A → Service F W → Type 0) (T : B → Service F W → Type 0)
      (r : Option A × Service F W) (n : M F W B) (m : A → M F W B)
      → Post E R r
      → ((s : Service F W) → E s → Post E T (n s))
      → ((a : A) (s : Service F W) → R a s → Post E T (m a s))
      → Post E T (caught r n m)
  unfolding Post
  Post-caught E R T (none, s) n m h e t = e s h
  Post-caught E R T (some a, s) n m h e t = t a s h

  -- a method that keeps `E`, and then another
  pub Post-then :
      (E : Service F W → Type 0) (T : B → Service F W → Type 0) (m : M F W A) (n : A → M F W B)
      → Keeps E m
      → ((a : A) (s : Service F W) → E s → Post E T (n a s))
      → (s : Service F W) → E s
      → Post E T ((m >>= n) s)
  Post-then E T m n h t s e = Post-next E (λ a s'. E s') T (m s) n (h s e) t

module _ {F W A : Type 0} (Q : Portfolio F → Type 0) (at : Option ℕ) where
  pub call-Keeps : (g : W → Option A × W) → Keeps (Held Q at) (call g)
  unfolding call Post
  call-Keeps g s h = by_answer (g s.outside)
    where
      by_answer :
          (r : Option A × W)
          → Post (Held Q at) (λ a s'. Held Q at s') ((r.0, record s { outside = r.1 }))
      by_answer (none, w) = h
      by_answer (some a, w) = h

  pub ask-Keeps : (g : W → A × W) → Keeps (Held Q at) (ask g)
  unfolding ask Post
  ask-Keeps g s h = h
