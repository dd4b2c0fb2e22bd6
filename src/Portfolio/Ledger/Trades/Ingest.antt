-- ===== src/Portfolio/Ledger/Trades/Ingest.antt =====
-- `ingest_trades`, `ingest_cashflows` and `apply_cash_flows` of src/krakked/portfolio/portfolio.py. What
-- they save in the store is left out.
use krakked.Prelude.{ℕ, String, Bool, true, false, Option, none, some, List, [], ◌∷◌, if◌then◌else◌}
use krakked.Prelude.Text.{member, is_filled, concat}
use krakked.Prelude.Dict.{Dict, put}
use krakked.Prelude.Amounts.{get_or}
use krakked.Prelude.Float.{Float, lt, zero_float}
use krakked.Execution.Router.{Decimals}
use krakked.Portfolio.Ledger.Model.{AssetBalance, Trade, CashFlowRecord, Books, Portfolio}
use krakked.Portfolio.Ledger.Trades.{Processed, process_trade}

-- a raw ledger entry, its numbers read
pub record RawLedgerEntry (F : Type 0) : Type 0 where
  pub kind : String
  pub asset : String
  pub time : ℕ
  pub amount : F
  pub refid : Option String

abbrev cash_kinds : List String
cash_kinds = "deposit" ∷ "withdrawal" ∷ "adjustment" ∷ "staking" ∷ []

module _ {F : Type 0} ⦃f : Float F⦄ where
  -- a trade's place among trades in order of time: before those of its time
  unfoldable pub placed : Trade F → List (Trade F) → List (Trade F)
  placed t [] = t ∷ []
  placed t (u ∷ us) = let rest = placed t us in if lt u.time t.time then u ∷ rest else t ∷ u ∷ us

  -- `sorted(trades, key=time)`, which is stable
  unfoldable pub sorted_by_time : List (Trade F) → List (Trade F)
  unfolding placed
  sorted_by_time [] = []
  sorted_by_time (t ∷ ts) = placed t (sorted_by_time ts)

module _ {F D W : Type 0} ⦃f : Float F⦄ ⦃g : Float D⦄ (d : Decimals F D) (books : Books F W) where
  -- the trades in order, up to an exception; the flag tells whether there was none
  unfoldable pub process_trades : List (Trade F) → Portfolio F → W → Portfolio F × Bool × W
  process_trades [] s w = (s, true, w)
  process_trades (t ∷ ts) s w =
      let (answer, w') = process_trade d books t s w in
      elim answer [
        | Processed.processed s' ↦ process_trades ts s' w'
        | Processed.skipped ↦ process_trades ts s w'
        | Processed.failed ↦ (s, false, w')
      ]

  -- `ingest_trades`
  unfoldable pub ingest_trades : List (Trade F) → Portfolio F → W → Portfolio F × Bool × W
  unfolding process_trades sorted_by_time
  ingest_trades trades s w = process_trades (sorted_by_time trades) s w

module _ {F : Type 0} ⦃f : Float F⦄ where
  abbrev pub no_balance : String → AssetBalance F
  no_balance asset = record {
    asset = asset;
    free = zero_float;
    reserved = zero_float;
    total = zero_float;
  }

  -- `apply_cash_flow`
  unfoldable pub apply_cash_flow : CashFlowRecord F → Portfolio F → Portfolio F
  apply_cash_flow r s =
      let balance = get_or r.asset s.balances (no_balance r.asset) in
      record s {
        balances =
            put r.asset
              (record balance {
                total = f.add balance.total r.amount;
                free = f.add balance.free r.amount;
              })
              s.balances;
      }

  unfoldable pub apply_cash_flows : List (CashFlowRecord F) → Portfolio F → Portfolio F
  unfolding apply_cash_flow
  apply_cash_flows [] s = s
  apply_cash_flows (r ∷ rs) s = apply_cash_flows rs (apply_cash_flow r s)

module _ {F W : Type 0} ⦃f : Float F⦄ (books : Books F W) where
  -- the record of a ledger entry of a kind that moves cash
  flow_of : String → RawLedgerEntry F → CashFlowRecord F
  flow_of id e = record {
    id = id;
    time = e.time;
    asset = books.normalize_asset e.asset;
    amount = e.amount;
    kind = e.kind;
    note = elim e.refid [
      | none ↦ none
      | some r ↦ (if is_filled r then some (concat ("Ref: " ∷ r ∷ [])) else none)
    ];
  }

  flows : Dict (RawLedgerEntry F) → List (CashFlowRecord F)
  unfolding flow_of
  flows [] = []
  flows ((id, e) ∷ rest) =
      let others = flows rest in if member e.kind cash_kinds then flow_of id e ∷ others else others

  -- `ingest_cashflows`: the portfolio, and the records
  unfoldable pub ingest_cashflows :
      Dict (RawLedgerEntry F) → Portfolio F → Portfolio F × List (CashFlowRecord F)
  unfolding flows apply_cash_flows
  ingest_cashflows entries s = let records = flows entries in (apply_cash_flows records s, records)
