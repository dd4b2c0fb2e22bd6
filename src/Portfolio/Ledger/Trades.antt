-- ===== src/Portfolio/Ledger/Trades.antt =====
-- Trades and cash flows of src/krakked/portfolio/portfolio.py. A trade whose pair is not found is
-- skipped; another exception of the lookup ends the ingestion.
pub mod Agreement
pub mod Ingest
pub mod Ingested
use krakked.Prelude.{
  String, Bool, true, false, not, ◌&&◌, ◌||◌, Option, none, some, List, [], ◌∷◌, ◌++◌,
  if◌then◌else◌, leb, ltb,
}
use krakked.Prelude.Text.{str_eq, member, is_filled}
use krakked.Prelude.Dict.{Dict, get, put}
use krakked.Prelude.Amounts.{add_to, get_or}
use krakked.Prelude.Float.{Float, lt, zero_float, float_eq, max_float}
use krakked.Execution.Router.{Decimals}
use krakked.Execution.Oms.State.{PairMetadata}
use krakked.Portfolio.Ledger.Model.{
  AssetBalance, SpotPosition, Trade, RealizedPnLRecord, CashFlowRecord, TradedPair, PairLookup,
  Books, Portfolio,
}
use krakked.Portfolio.Ledger.Values.{
  round_vol, round_price, convert_to_base_currency, strategy_of_trade, filled,
}

-- where a trade leads: to a portfolio, to the `PairNotFoundError` of a trade that is passed over, or to
-- another exception; both leave the portfolio as it was
pub data Processed (F : Type 0) : Type 0 where
  processed : Portfolio F → Processed F
  skipped : Processed F
  failed : Processed F

-- what a trade changes: the size, the price, what it realises, and its record
pub record Effect (F : Type 0) : Type 0 where
  pub size : F
  pub entry_price : F
  pub realized : F
  pub realized_by_pair : F
  pub entry : RealizedPnLRecord F

module _ {F : Type 0} ⦃f : Float F⦄ where
  abbrev pub minus : F → F
  minus x = f.sub zero_float x

module _ {F W : Type 0} ⦃f : Float F⦄ (books : Books F W) where
  -- the position of a pair before its first trade
  unfoldable pub new_position : TradedPair → Trade F → SpotPosition F
  new_position names t = record {
    pair = names.canonical;
    base_asset = names.base;
    quote_asset = names.quote;
    base_size = zero_float;
    avg_entry_price = zero_float;
    realized_pnl_base = zero_float;
    fees_paid_base = zero_float;
    unrealized_pnl_base = zero_float;
    current_value_base = zero_float;
    strategy_tag = strategy_of_trade books t;
    raw_userref = t.userref;
    comment = filled t.comment;
  }

  -- the record of what a trade realises
  unfoldable pub pnl_record :
      TradedPair → Trade F → (base_delta quote_delta pnl : F) → RealizedPnLRecord F
  pnl_record names t base_delta quote_delta pnl = record {
    trade_id = t.id;
    order_id = t.order_id;
    pair = names.canonical;
    time = books.int_of t.time;
    side = t.kind;
    base_delta = base_delta;
    quote_delta = quote_delta;
    fee_asset = names.quote;
    fee_amount = t.fee;
    pnl_quote = pnl;
    strategy_tag = strategy_of_trade books t;
    raw_userref = t.userref;
    comment = filled t.comment;
  }

module _ {F D W : Type 0} ⦃f : Float F⦄ ⦃g : Float D⦄ (d : Decimals F D) (books : Books F W) where
  buy_price : String → F → F → W → F × W
  buy_price pair cost quantity w =
      if float_eq quantity zero_float
      then (zero_float, w)
      else round_price d books pair (f.div cost quantity) w

  -- a buy, on the position and the realised amount of the pair so far
  unfoldable pub buy : TradedPair → Trade F → F → SpotPosition F → F → W → Effect F × W
  unfolding buy_price pnl_record
  buy names t fee p realized w =
      let (quantity, w1) = round_vol d books names.canonical (f.add p.base_size t.vol) w in
      let (price, w2) =
        buy_price names.canonical (f.add (f.mul p.base_size p.avg_entry_price) t.cost) quantity
          w1 in
      (
        record {
          size = quantity;
          entry_price = price;
          realized = f.sub p.realized_pnl_base fee;
          realized_by_pair = f.sub realized fee;
          entry = pnl_record books names t t.vol (minus t.cost) (minus fee);
        },
        w2,
      )

  -- a sale
  unfoldable pub sell : TradedPair → Trade F → F → SpotPosition F → F → W → Effect F × W
  unfolding pnl_record
  sell names t fee p realized w =
      let (gross, w1) =
        convert_to_base_currency books (f.mul (f.sub t.price p.avg_entry_price) t.vol) names.quote
          w in
      let pnl = f.sub gross.value_base fee in
      let (size, w2) =
        round_vol d books names.canonical (max_float zero_float (f.sub p.base_size t.vol)) w1 in
      (
        record {
          size = size;
          entry_price = p.avg_entry_price;
          realized = f.add p.realized_pnl_base pnl;
          realized_by_pair = f.add realized pnl;
          entry = pnl_record books names t (minus t.vol) t.cost pnl;
        },
        w2,
      )

  unfoldable pub effect : TradedPair → Trade F → F → SpotPosition F → F → W → Effect F × W
  unfolding buy sell
  effect names t fee p realized w =
      if str_eq t.kind "buy" then buy names t fee p realized w else sell names t fee p realized w

  -- the portfolio after a trade's effect
  unfoldable pub apply_effect :
      TradedPair → Trade F → F → SpotPosition F → Effect F → Portfolio F → Portfolio F
  apply_effect names t fee position e s = record s {
    positions =
        put names.canonical
          (record position {
            base_size = e.size;
            avg_entry_price = e.entry_price;
            realized_pnl_base = e.realized;
            fees_paid_base = f.add position.fees_paid_base fee;
            strategy_tag = strategy_of_trade books t;
            raw_userref = t.userref;
            comment = filled t.comment;
          })
          s.positions;
    realized_pnl_history = s.realized_pnl_history ++ (e.entry ∷ []);
    realized_pnl_base_by_pair = put names.canonical e.realized_by_pair s.realized_pnl_base_by_pair;
    fees_paid_base_by_pair = add_to names.canonical fee s.fees_paid_base_by_pair;
  }

  -- a trade of a known pair
  unfoldable pub post : TradedPair → Trade F → Portfolio F → W → Portfolio F × W
  unfolding new_position effect apply_effect
  post names t s w =
      let position = get_or names.canonical s.positions (new_position books names t) in
      let (fee, w1) = convert_to_base_currency books t.fee names.quote w in
      let realized = get_or names.canonical s.realized_pnl_base_by_pair zero_float in
      let (e, w2) = effect names t fee.value_base position realized w1 in
      (apply_effect names t fee.value_base position e s, w2)

  -- the names of a pair that the lookup answers
  abbrev pub traded_pair : PairMetadata F → String → String → TradedPair
  traded_pair meta base quote = record {
    canonical = meta.canonical;
    base = books.normalize_asset base;
    quote = books.normalize_asset quote;
  }

  unfoldable pub looked_up : Trade F → PairLookup F → Portfolio F → W → Processed F × W
  unfolding post
  looked_up t (PairLookup.found meta base quote) s w =
      let names = traded_pair meta base quote in
      let (s', w') =
        post names t (record s { trade_pair_cache = put t.pair names s.trade_pair_cache }) w in
      (Processed.processed s', w')
  looked_up t PairLookup.unknown s w = (Processed.skipped, w)
  looked_up t PairLookup.failed s w = (Processed.failed, w)

  -- `_process_trade`
  unfoldable pub process_trade : Trade F → Portfolio F → W → Processed F × W
  unfolding post looked_up
  process_trade t s w = elim (get t.pair s.trade_pair_cache) [
    | some names ↦ (let (s', w') = post names t s w in (Processed.processed s', w'))
    | none ↦ (let (answer, w') = books.get_pair_metadata t.pair w in looked_up t answer s w')
  ]
