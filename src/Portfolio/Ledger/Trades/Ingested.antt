-- ===== src/Portfolio/Ledger/Trades/Ingested.antt =====
-- The ingestion of trades keeps the books of src/krakked/portfolio/portfolio.py in agreement.
use krakked.Prelude.{Bool, false, Option, none, some, List, [], ◌∷◌, refl}
use krakked.Prelude.Dict.{get, put}
use krakked.Prelude.Amounts.{get_or}
use krakked.Prelude.Float.{Float, zero_float}
use krakked.Execution.Router.{Decimals}
use krakked.Portfolio.Ledger.Model.{Trade, TradedPair, PairLookup, Books, Portfolio, opened}
use krakked.Portfolio.Ledger.Values.{convert_to_base_currency}
use krakked.Portfolio.Ledger.Trades.{Processed, effect, post, looked_up, process_trade}
use krakked.Portfolio.Ledger.Trades.Ingest.{process_trades, ingest_trades, sorted_by_time}
use krakked.Portfolio.Ledger.Trades.Agreement.{
  IsNegating, Agrees, realized_in_history, fallen, effect-IsFair, apply_effect-Agrees,
}

module _ {F D W : Type 0} ⦃f : Float F⦄ ⦃g : Float D⦄ (law : IsNegating F) (d : Decimals F D)
    (books : Books F W) where
  -- the portfolio that a trade leads to agrees, if it leads to one
  AgreesAfter : Processed F → Type 0
  AgreesAfter (Processed.processed s) = Agrees s
  AgreesAfter _ = Unit

  post-Agrees :
      (names : TradedPair) (t : Trade F) (s : Portfolio F) (w : W)
      → Agrees s
      → Agrees ((post d books names t s w).0)
  unfolding post fallen
  post-Agrees names t s w a =
      let (fee, w1) = convert_to_base_currency books t.fee names.quote w in
      let position = fallen law d books names t s in
      let realized = get_or names.canonical s.realized_pnl_base_by_pair zero_float in
      let (e, w2) = effect d books names t fee.value_base position realized w1 in
      apply_effect-Agrees law d books names t fee.value_base s e
        (effect-IsFair law d books names t fee.value_base position realized w1) a

  looked_up-Agrees :
      (t : Trade F) (answer : PairLookup F) (s : Portfolio F) (w : W)
      → Agrees s
      → AgreesAfter ((looked_up d books t answer s w).0)
  unfolding looked_up AgreesAfter
  looked_up-Agrees t (PairLookup.found meta base quote) s w a =
      post-Agrees _ t (record s { trade_pair_cache = put t.pair _ s.trade_pair_cache }) w
        (record { by_history = a.by_history; by_position = a.by_position; by_fees = a.by_fees })
  looked_up-Agrees t PairLookup.unknown s w a = tt
  looked_up-Agrees t PairLookup.failed s w a = tt

  process_trade-Agrees :
      (t : Trade F) (s : Portfolio F) (w : W)
      → Agrees s
      → AgreesAfter ((process_trade d books t s w).0)
  unfolding process_trade AgreesAfter
  process_trade-Agrees t s w a =
      by_cache (get t.pair s.trade_pair_cache) (λ names. post-Agrees names t s w a)
        (let (answer, w') = books.get_pair_metadata t.pair w in looked_up-Agrees t answer s w' a)
    where
      by_cache :
          (o : Option TradedPair)
          → ((names : TradedPair) → Agrees ((post d books names t s w).0))
          → (let (answer, w') = books.get_pair_metadata t.pair w in
              AgreesAfter ((looked_up d books t answer s w').0))
          → (let result : Processed F × W = elim o [
            | some names ↦ (let (s', w') = post d books names t s w in (Processed.processed s', w'))
            | none ↦
                (let (answer, w') = books.get_pair_metadata t.pair w in
                  looked_up d books t answer s w')
          ] in
              AgreesAfter (result.0))
      by_cache none h k = k
      by_cache (some names) h k = h names

  process_trades-Agrees :
      (ts : List (Trade F)) (s : Portfolio F) (w : W)
      → Agrees s
      → Agrees ((process_trades d books ts s w).0)
  unfolding process_trades AgreesAfter
  process_trades-Agrees [] s w a = a
  process_trades-Agrees (t ∷ ts) s w a =
      let (answer, w') = process_trade d books t s w in
      by_answer answer w' (λ s' w' h. process_trades-Agrees ts s' w' h)
        (process_trade-Agrees t s w a)
    where
      by_answer :
          (answer : Processed F) (w' : W)
          → ((s' : Portfolio F) (w' : W) → Agrees s' → Agrees ((process_trades d books ts s' w').0))
          → AgreesAfter answer
          → (let result : Portfolio F × Bool × W = elim answer [
            | Processed.processed s' ↦ process_trades d books ts s' w'
            | Processed.skipped ↦ process_trades d books ts s w'
            | Processed.failed ↦ (s, false, w')
          ] in
              Agrees (result.0))
      by_answer (Processed.processed s') w' rest h = rest s' w' h
      by_answer Processed.skipped w' rest h = rest s w' a
      by_answer Processed.failed w' rest h = a

  -- The ingestion of trades, whatever they are and whatever market data answers, keeps a portfolio's
  -- books in agreement: per pair, the realised total is the sum of its records and what its position has
  -- realised, and its fees are those of its position. This holds too where a trade is passed over or an
  -- exception ends the ingestion, for an arithmetic in which subtraction adds the negated amount.
  pub ingest_trades-Agrees :
      (trades : List (Trade F)) (s : Portfolio F) (w : W)
      → Agrees s
      → Agrees ((ingest_trades d books trades s w).0)
  unfolding ingest_trades
  ingest_trades-Agrees trades s w a = process_trades-Agrees (sorted_by_time trades) s w a

  -- a new portfolio
  pub opened-Agrees : Agrees (opened books)
  unfolding get realized_in_history
  opened-Agrees = record {
    by_history = λ pair. refl;
    by_position = λ pair. refl;
    by_fees = λ pair. refl;
  }
