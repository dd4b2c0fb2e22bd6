-- ===== src/Portfolio/Manager/Trades.antt =====
-- `_sync_trades_history` of src/krakked/portfolio/manager.py. A key that a raw trade lacks is `none`.
pub mod Kept
pub mod Pages
use krakked.Prelude.{
  ℕ, zero, suc, String, Bool, true, false, not, ◌&&◌, Option, none, some, List, [], ◌∷◌, ◌++◌, map,
  if◌then◌else◌, ltb, length, keep,
}
use krakked.Prelude.Text.{member, is_filled}
use krakked.Prelude.Float.{Float, zero_float, float_eq}
use krakked.Execution.Router.{Decimals}
use krakked.Portfolio.Ledger.Model.{Trade, Books}
use krakked.Portfolio.Ledger.Trades.Ingest.{sorted_by_time, ingest_trades}
use krakked.Portfolio.Manager.Model.{
  Service, Links, SyncReason, TradesPage, OrderReference, M, pure, call, modify, set_failed, ◌>>=◌,
  try_call,
}

pub record TradeSyncResult : Type 0 where
  pub count : ℕ
  pub trade_ids : List String
  pub failed : Bool

-- the outcome of the pages: the trades that are new, an exception, or no answer within the fuel
pub data Paged (F : Type 0) : Type 0 where
  fetched : List (Trade F) → Paged F
  raised : Paged F
  out_of_fuel : Paged F

abbrev filled_ids : Option String → List String
filled_ids none = []
filled_ids (some id) = if is_filled id then id ∷ [] else []

abbrev order_ids : Option String → List String
order_ids none = []
order_ids (some id) = id ∷ []

-- `d.setdefault(key, value)`
set_default : Option String → Option String → Option String
set_default none value = value
set_default (some old) value = some old

module _ {F : Type 0} ⦃f : Float F⦄ where
  unfoldable pub enriched : Option (Option OrderReference) → Trade F → Trade F
  unfolding set_default
  enriched none t = t
  enriched (some none) t = t
  enriched (some (some order)) t = record t {
    strategy_tag = set_default t.strategy_tag (some order.strategy_id);
    userref = set_default t.userref order.userref;
  }

  last_time : List (Trade F) → Option F
  last_time [] = none
  last_time (t ∷ []) = some t.time
  last_time (t ∷ u ∷ us) = last_time (u ∷ us)

  same_cursor : F → Option F → Bool
  same_cursor last none = false
  same_cursor last (some cursor) = float_eq last cursor

  after_batch : Option F → Option F
  after_batch none = none
  after_batch (some time) = some (f.add time (f.lit 1 6))

  -- where the next page starts, if there is one to ask for: at the `last` of the answer, or behind the
  -- last trade of the batch
  unfoldable pub next_cursor : Option F → Option F → List (Trade F) → Option F
  unfolding same_cursor after_batch last_time
  next_cursor (some last) cursor batch = if same_cursor last cursor then none else some last
  next_cursor none cursor batch = after_batch (last_time batch)

  known_ids : List (Trade F) → List String
  known_ids [] = []
  known_ids (t ∷ ts) = order_ids t.order_id ++ filled_ids (some t.id) ++ known_ids ts

  -- `if since_ts:`
  start_of : Option F → Option F
  start_of none = none
  start_of (some since) = if float_eq since zero_float then none else some since

module _ {F D W : Type 0} ⦃f : Float F⦄ (k : Links F D W) where
  -- the order of a trade, in the store
  order_of : Trade F → W → Option (Option OrderReference) × W
  order_of t w = elim (filled_ids t.order_id) [
    | [] ↦ (some none, w)
    | id ∷ _ ↦ k.get_order_by_reference id w
  ]

  -- the trades of a page that are not known, with the strategy of their orders
  unfoldable pub batch_of : List String → List (Trade F) → W → List (Trade F) × W
  unfolding order_of enriched
  batch_of known [] w = ([], w)
  batch_of known (t ∷ ts) w =
      let rest = batch_of known ts in
      if member t.id known
      then rest w
      else (let (order, w1) = order_of t w in let (us, w2) = rest w1 in (enriched order t ∷ us, w2))

  -- on to the next page, unless there is none or the limit is reached
  turned : List (Trade F) → (F → W → Paged F × W) → Option F → Bool → W → Paged F × W
  turned all go none at_limit w = (Paged.fetched all, w)
  turned all go (some cursor) true w = (Paged.fetched all, w)
  turned all go (some cursor) false w = go cursor w

  on_trades :
      List String
      → Option F
      → Bool
      → List (Trade F)
      → (List (Trade F) → F → W → Paged F × W)
      → Option F
      → List (Trade F)
      → W
      → Paged F × W
  unfolding batch_of next_cursor sorted_by_time turned
  on_trades known cursor at_limit trades go last [] w = (Paged.fetched trades, w)
  on_trades known cursor at_limit trades go last (t ∷ ts) w =
      let (batch, w') = batch_of known (t ∷ ts) w in
      let all = trades ++ sorted_by_time batch in
      turned all (go all) (next_cursor last cursor (sorted_by_time batch)) at_limit w'

  on_page :
      List String
      → Option F
      → Bool
      → List (Trade F)
      → (List (Trade F) → F → W → Paged F × W)
      → Option (TradesPage F)
      → W
      → Paged F × W
  unfolding on_trades
  on_page known cursor at_limit trades go none w = (Paged.raised, w)
  on_page known cursor at_limit trades go (some page) w =
      on_trades known cursor at_limit trades go page.last page.trades w

  -- the loop over the pages, on fuel: the pages so far, the trades so far, the start and the cursor
  unfoldable pub fetch_pages :
      List String → ℕ → ℕ → List (Trade F) → Option F → Option F → W → Paged F × W
  unfolding on_page
  fetch_pages known zero counter trades start cursor w = (Paged.out_of_fuel, w)
  fetch_pages known (suc fuel) counter trades start cursor w =
      let (answer, w') = k.get_trades_history start w in
      on_page known cursor (ltb 200 (suc counter)) trades
        (λ all next. fetch_pages known fuel (suc counter) all (some next) (some next)) answer w'

abbrev pub page_limit : ℕ
page_limit = 201

module _ {F D W : Type 0} ⦃f : Float F⦄ ⦃g : Float D⦄ (d : Decimals F D) (books : Books F W)
    (k : Links F D W) where
  -- the ids of the trades at the boundary
  boundary_ids : Option F → M F W (List String)
  unfolding known_ids
  boundary_ids none = pure []
  boundary_ids (some since) = do
    trades ← call (k.trades_between since (f.add since (f.lit 1 6)))
    pure (known_ids trades)

  pages : List String → Option F → Option F → M F W (Paged F)
  unfolding fetch_pages
  pages known start since s =
      let (paged, w) = fetch_pages k known page_limit 0 [] start since s.outside in
      (some paged, record s { outside = w })

  -- `ingest_trades(trades, persist=False)`, and whether it raised nothing
  unfoldable pub ingest : List (Trade F) → M F W Bool
  unfolding ingest_trades
  ingest trades s =
      let (portfolio, ok, w) = ingest_trades d books trades s.portfolio s.outside in
      (some ok, record s { portfolio = portfolio; outside = w })

  trades_failed : M F W TradeSyncResult
  unfolding set_failed
  trades_failed = do
    _ ← modify (set_failed SyncReason.trades_unavailable)
    pure (record { count = 0; trade_ids = []; failed = true })

  stored : List (Trade F) → Bool → M F W TradeSyncResult
  unfolding trades_failed
  stored trades false = trades_failed
  stored trades true = do
    _ ← call (k.save_trades trades)
    pure (record {
      count = length trades;
      trade_ids = keep is_filled (map (λ t. t.id) trades);
      failed = false;
    })

  taken : Paged F → M F W TradeSyncResult
  unfolding trades_failed stored ingest
  taken Paged.raised = trades_failed
  taken Paged.out_of_fuel = trades_failed
  taken (Paged.fetched []) = pure (record { count = 0; trade_ids = []; failed = false })
  taken (Paged.fetched (t ∷ ts)) = do ok ← ingest (t ∷ ts); stored (t ∷ ts) ok

  -- `_sync_trades_history`; `_normalize_trade_payload` copies a trade with the values that it has
  unfoldable pub sync_trades_history : Option F → M F W TradeSyncResult
  unfolding boundary_ids pages taken start_of
  sync_trades_history since = do
    known ← boundary_ids (start_of since)
    paged ← pages known (start_of since) since
    taken paged
