-- ===== src/Portfolio/Manager/Trades/Pages.antt =====
-- The pages of TradesHistory in src/krakked/portfolio/manager.py: they come to an end, and nothing that was
-- known is taken.
use krakked.Prelude.{
  ℕ, zero, suc, ◌+◌, ◌≤◌, String, Bool, true, false, Option, none, some, List, [], ◌∷◌, ◌++◌, ◌≡◌,
  refl, ltb, arith, if-elim, if-both, All, All-append, ap, ◌∙◌,
}
use krakked.Prelude.Text.{member}
use krakked.Prelude.Float.{Float, lt}
use krakked.Portfolio.Ledger.Model.{Trade}
use krakked.Portfolio.Ledger.Trades.Ingest.{sorted_by_time, placed}
use krakked.Portfolio.Manager.Model.{Links, TradesPage, OrderReference}
use krakked.Portfolio.Manager.Trades.{
  Paged, enriched, order_of, batch_of, next_cursor, turned, on_trades, on_page, fetch_pages,
  page_limit,
}

-- what the pages come to, `P`, from what the trades so far have, `I`
record Turning {F D W : Type 0} ⦃f : Float F⦄ (k : Links F D W) (known : List String)
    (I : List (Trade F) → Type 0) (P : Paged F → Type 0) : Type 0 where
  raised : P Paged.raised
  fetched : (ts : List (Trade F)) → I ts → P (Paged.fetched ts)
  more :
      (ts page : List (Trade F)) (w : W)
      → I ts
      → I (ts ++ sorted_by_time ((batch_of k known page w).0))

module _ {F D W : Type 0} ⦃f : Float F⦄ (k : Links F D W) (known : List String)
    (I : List (Trade F) → Type 0) (P : Paged F → Type 0) (rules : Turning k known I P) where
  turned-P :
      (all : List (Trade F)) (go : F → W → Paged F × W) (next : Option F) (at_limit : Bool) (w : W)
      → I all
      → ((next : F) (w : W) → at_limit ≡ false → P ((go next w).0))
      → P ((turned k all go next at_limit w).0)
  unfolding turned
  turned-P all go none at_limit w h rest = rules.fetched all h
  turned-P all go (some next) true w h rest = rules.fetched all h
  turned-P all go (some next) false w h rest = rest next w refl

  on_page-P :
      (cursor : Option F) (at_limit : Bool) (trades : List (Trade F))
      (go : List (Trade F) → F → W → Paged F × W) (answer : Option (TradesPage F)) (w : W)
      → I trades
      → ((all : List (Trade F)) (next : F) (w : W)
          → at_limit ≡ false
          → I all
          → P ((go all next w).0))
      → P ((on_page k known cursor at_limit trades go answer w).0)
  unfolding on_page on_trades
  on_page-P cursor at_limit trades go none w h rest = rules.raised
  on_page-P cursor at_limit trades go (some page) w h rest = by_trades page.trades
    where
      by_trades :
          (ts : List (Trade F)) → P ((on_trades k known cursor at_limit trades go page.last ts w).0)
      by_trades [] = rules.fetched trades h
      by_trades (t ∷ ts) =
          let (batch, w') = batch_of k known (t ∷ ts) w in
          let all = trades ++ sorted_by_time batch in
          let h' = rules.more trades (t ∷ ts) w h in
          turned-P all (go all) (next_cursor page.last cursor (sorted_by_time batch)) at_limit w' h'
            (λ next w' e. rest all next w' e h')

  fetch_pages-P :
      (fuel counter : ℕ) (trades : List (Trade F)) (start cursor : Option F) (w : W)
      → counter ≤ 200
      → 201 ≤ fuel + counter
      → I trades
      → P ((fetch_pages k known fuel counter trades start cursor w).0)
  unfolding fetch_pages
  fetch_pages-P zero counter trades start cursor w h e i = absurd (omega arith)
  fetch_pages-P (suc fuel) counter trades start cursor w h e i =
      let (answer, w') = k.get_trades_history start w in
      on_page-P cursor (ltb 200 (suc counter)) trades
        (λ all next. fetch_pages k known fuel (suc counter) all (some next) (some next)) answer w' i
        (λ all next w' below i'.
          fetch_pages-P fuel (suc counter) all (some next) (some next) w' (ground arith)
            (omega arith) i')

-- the trade's id is not among those that are known
abbrev IsNew : {F : Type 0} → List String → Trade F → Type 0
IsNew known t = member t.id known ≡ false

-- the pages come to an exception, or to trades that are new
abbrev pub Taken : {F : Type 0} → List String → Paged F → Type 0
Taken known Paged.raised = Unit
Taken known (Paged.fetched ts) = All (IsNew known) ts
Taken known Paged.out_of_fuel = ⊥

module _ {F : Type 0} ⦃f : Float F⦄ (P : Trade F → Type 0) where
  placed-All : (t : Trade F) (us : List (Trade F)) → P t → All P us → All P (placed t us)
  unfolding placed
  placed-All t [] h e = (h, tt)
  placed-All t (u ∷ us) h e =
      if-both (All P) (lt u.time t.time) (u ∷ placed t us) (t ∷ u ∷ us) (e.0, placed-All t us h e.1)
        (h, e)

  sorted_by_time-All : (ts : List (Trade F)) → All P ts → All P (sorted_by_time ts)
  unfolding sorted_by_time
  sorted_by_time-All [] h = h
  sorted_by_time-All (t ∷ ts) h = placed-All t (sorted_by_time ts) h.0 (sorted_by_time-All ts h.1)

module _ {F D W : Type 0} ⦃f : Float F⦄ (k : Links F D W) (known : List String) where
  enriched-id :
      (order : Option (Option OrderReference)) (t : Trade F) → Trade.id (enriched order t) ≡ t.id
  unfolding enriched
  enriched-id none t = refl
  enriched-id (some none) t = refl
  enriched-id (some (some order)) t = refl

  batch_of-IsNew : (ts : List (Trade F)) (w : W) → All (IsNew known) ((batch_of k known ts w).0)
  unfolding batch_of
  batch_of-IsNew [] w = tt
  batch_of-IsNew (t ∷ ts) w =
      let (order, w1) = order_of k t w in
      let (us, w2) = batch_of k known ts w1 in
      if-elim (λ (r : List (Trade F) × W). All (IsNew known) (r.0)) (member t.id known)
        (batch_of k known ts w) (enriched order t ∷ us, w2) (λ h. batch_of-IsNew ts w)
        (λ h. (ap (λ id. member id known) (enriched-id order t) ∙ h, batch_of-IsNew ts w1))

  rules : Turning k known (All (IsNew known)) (Taken known)
  rules = record {
    raised = tt;
    fetched = λ ts h. h;
    more = λ ts page w h.
        All-append (IsNew known) ts _ h
          (sorted_by_time-All (IsNew known) _ (batch_of-IsNew page w));
  }

  -- The pages of the trade history come to an end within 201 requests, whatever the exchange answers: with
  -- an exception, or with trades none of which has an id that was known at the start.
  pub fetch_pages-Taken :
      (start cursor : Option F) (w : W)
      → Taken known ((fetch_pages k known page_limit 0 [] start cursor w).0)
  fetch_pages-Taken start cursor w =
      fetch_pages-P k known (All (IsNew known)) (Taken known) rules page_limit 0 [] start cursor w
        (omega arith) (omega arith) tt
