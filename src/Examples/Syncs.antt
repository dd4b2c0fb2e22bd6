-- ===== src/Examples/Syncs.antt =====
-- A sync of a portfolio on integers of 10^-9, with an exchange that answers in two pages, and the theorems
-- of the portfolio service on it.
use krakked.Prelude.{
  ℕ, String, true, false, Option, none, some, List, [], ◌∷◌, ◌≡◌, refl, map, arith, ◌+◌, ◌*◌, ltb,
  if◌then◌else◌,
}
use krakked.Prelude.Dict.{get, put}
use krakked.Prelude.Float.{Nano, nano_float}
use krakked.Examples.Service.{nano_decimals}
use krakked.Examples.Balances.{cents}
use krakked.Examples.Ledgers.{usd, books, trade, Nano-IsNegating}
use krakked.Portfolio.Ledger.Model.{opened}
use krakked.Portfolio.Ledger.Trades.Agreement.{Agrees, of_position}
use krakked.Portfolio.Ledger.Trades.Ingested.{opened-Agrees}
use krakked.Portfolio.Ledger.Trades.{process_trade}
use krakked.Portfolio.Ledger.Values.{
  round_vol, round_price, convert_to_base_currency, is_asset_included,
}
use krakked.Prelude.Text.{lower_eq}
use krakked.Portfolio.SyncStatus.Health.{live_ok_iff, max_live_sync_age_bounds}
use krakked.Portfolio.SyncStatus.{Setting, read_portfolio_sync_status}
use krakked.Prelude.Int.{pos}
use krakked.Portfolio.Manager.Model.{Service, Links, ask, call, TradesPage, LedgerInfo}
use krakked.Portfolio.Manager.Trades.{Paged, fetch_pages, page_limit}
use krakked.Portfolio.Manager.Trades.Pages.{Taken, fetch_pages-Taken}
use krakked.Portfolio.Manager.Sync.{Turn, sync_unlocked, sync}
use krakked.Portfolio.Manager.Sync.Branches.{IsVerified, Ends}
use krakked.Portfolio.Manager.Sync.Allowed.{account_truth_state, sync_unlocked-allows}
use krakked.Portfolio.Manager.Sync.Verified.{sync_unlocked-verifies, sync-Agrees}

-- the first page, and one that starts at its last trade
page : Option Nano → TradesPage Nano
page none = record {
  trades = trade "a" "XBTUSD" 10 "buy" (usd 400) ∷ trade "b" "XBTUSD" 20 "buy" (usd 500) ∷ [];
  last = some (usd 20);
}
page (some start) = record {
  trades = trade "b" "XBTUSD" 20 "buy" (usd 500) ∷ [];
  last = some (usd 20);
}

deposit : LedgerInfo Nano Nano
deposit = record {
  time = usd 5;
  kind = "deposit";
  subtype = "";
  asset = "USD";
  amount = usd 100;
  fee = usd 0;
  balance = none;
  refid = none;
}

-- an exchange with a deposit of 100, and a store that has nothing
abbrev links : Links Nano Nano ℕ
links = record {
  sync_interval_seconds = Setting.int (pos 60);
  now = λ w. (w * 1_000_000, w + 1);
  get_trades_history = λ start w. (some (page start), w);
  get_ledgers = λ start w. (some (("L1", deposit) ∷ []), w);
  get_balance = λ w. (some (("USD", usd 100) ∷ []), w);
  latest_trade_time = λ w. (some none, w);
  trades_between = λ since until w. (some [], w);
  all_trades = λ w. (some [], w);
  save_trades = λ ts w. (some true, w);
  get_order_by_reference = λ id w. (some none, w);
  get_latest_balance_snapshot = λ w. (some none, w);
  ledger_entries_after = λ id w. (some [], w);
  ledger_ids_since = λ time w. (some [], w);
  latest_ledger_time = λ w. (some none, w);
  save_ledger_entry = λ e w. (some true, w);
  save_cash_flows = λ flows w. (some true, w);
  get_unmatched_trade_ledger_ref_times = λ ids w. (some [], w);
  latest_snapshot_time = λ w. (some none, w);
  send_alert = λ missing escalated w. (true, w);
}

abbrev service : Service Nano ℕ
service = record {
  portfolio = opened books;
  bootstrapped = false;
  last_sync_ok = false;
  last_sync_reason = none;
  last_sync_at = none;
  last_balance_reconcile_at = none;
  sync_in_progress = false;
  sync_started_at = none;
  sync_run_kind = none;
  sync_generation = 0;
  last_sync_result = record { new_trades = 0; new_cash_flows = 0 };
  last_sync_result_generation = 0;
  trade_history_lag_alerted_refs = [];
  cached_equity = none;
  cached_asset_exposure = [];
  cached_drift_status = none;
  cached_last_snapshot_ts = none;
  outside = 0;
}

sync_unlocked-verifies_example :
    Ends books links
      (λ p. Unit {0})
      none
      ((sync_unlocked nano_decimals cents books links service).1)
sync_unlocked-verifies_example = sync_unlocked-verifies nano_decimals cents books links service

-- the service after a sync, verified within the first ten seconds
abbrev synced : Service Nano ℕ
synced = (sync_unlocked nano_decimals cents books links service).1

synced_lem : (synced.last_sync_at ≡ some 7_000_000) × (synced.last_sync_ok ≡ true)
unfolding sync_unlocked ask call page process_trade get put round_vol round_price
    convert_to_base_currency is_asset_included deposit
synced_lem = (refl, refl)

ok_lem :
    (read_portfolio_sync_status
      (account_truth_state links (λ reason. "failed") synced)
      (some "live")
      9_000_000).ok
    ≡ true
unfolding account_truth_state lower_eq
ok_lem =
    let truth = account_truth_state links (λ reason. "failed") synced in
    (live_ok_iff truth (some "live") 9_000_000 refl).1
      (7_000_000, synced_lem.0, synced_lem.1, omega (arith, max_live_sync_age_bounds truth))

sync_unlocked-allows_example : IsVerified books links (λ p. Unit {0}) synced
sync_unlocked-allows_example =
    sync_unlocked-allows nano_decimals cents books links (λ reason. "failed") service 9_000_000
      ok_lem

sync-Agrees_example : Agrees ((sync nano_decimals cents books links Turn.free service).1.portfolio)
sync-Agrees_example =
    sync-Agrees Nano-IsNegating nano_decimals cents books links Turn.free service
      (opened-Agrees Nano-IsNegating nano_decimals books)

fetch_pages-Taken_example :
    Taken ("a" ∷ []) ((fetch_pages links ("a" ∷ []) page_limit 0 [] none none 0).0)
fetch_pages-Taken_example = fetch_pages-Taken links ("a" ∷ []) none none 0

abbrev ids : Paged Nano → List String
ids (Paged.fetched ts) = map (λ t. t.id) ts
ids _ = []

-- the trade at the boundary of two pages is taken twice
boundary_twice : ids ((fetch_pages links [] page_limit 0 [] none none 0).0) ≡ "a" ∷ "b" ∷ "b" ∷ []
unfolding fetch_pages page
boundary_twice = refl

-- so a sync verifies the account with a position of three purchases, after two
verified :
    let s = (sync nano_decimals cents books links Turn.free service).1 in
    (s.last_sync_ok ≡ true)
    × (of_position (λ p. p.base_size) "XBTUSD" s.portfolio.positions ≡ nano_float.lit 3 2)
unfolding sync ask call page process_trade get put round_vol round_price convert_to_base_currency
    is_asset_included deposit
verified = (refl, refl)

-- a store that has one trade, and that fails once when the views are refreshed
abbrev failing : Links Nano Nano ℕ
failing = record links {
  get_trades_history = λ start w. (some (record { trades = []; last = none }), w);
  all_trades = λ w. (some (trade "a" "XBTUSD" 10 "buy" (usd 400) ∷ []), w);
  latest_snapshot_time = λ w. (if ltb w 3 then none else some none, w);
}

-- the first start raises and the second starts on what it left: a position of two purchases, after one
started_twice :
    let first = (sync nano_decimals cents books failing Turn.free service).1 in
    let s = (sync nano_decimals cents books failing Turn.free first).1 in
    (first.last_sync_ok ≡ false)
    × (s.last_sync_ok ≡ true)
    × (of_position (λ p. p.base_size) "XBTUSD" s.portfolio.positions ≡ nano_float.lit 2 2)
unfolding sync ask call process_trade get put round_vol round_price convert_to_base_currency
    is_asset_included deposit
started_twice = (refl, refl, refl)
