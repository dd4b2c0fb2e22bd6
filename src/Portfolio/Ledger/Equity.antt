-- ===== src/Portfolio/Ledger/Equity.antt =====
-- The equity, the snapshots and the sums of src/krakked/portfolio/portfolio.py. The store is left out.
pub mod Snapshots
pub mod Valued
pub mod Realized
use krakked.Prelude.{
  ℕ, String, Bool, true, false, not, ◌&&◌, ◌||◌, Option, none, some, List, [], ◌∷◌, ◌++◌,
  if◌then◌else◌, ◌-◌, ltb,
}
use krakked.Prelude.Text.{str_eq, member}
use krakked.Prelude.Dict.{Dict, values}
use krakked.Prelude.Amounts.{add_to, sum_values}
use krakked.Prelude.Float.{Float, zero_float, float_eq}
use krakked.Portfolio.Ledger.Model.{AssetBalance, SpotPosition, RealizedPnLRecord, Books, Portfolio}
use krakked.Portfolio.Ledger.Values.{
  ConversionResult, is_unvalued, is_asset_included, is_manual_tag, convert_to_base_currency,
}

pub record EquityView (F : Type 0) : Type 0 where
  pub equity_base : F
  pub cash_base : F
  pub realized_pnl_base_total : F
  pub unrealized_pnl_base_total : F
  pub drift_flag : Bool
  pub unvalued_assets : List String

abbrev tag_text : Option String → String
tag_text none = ""
tag_text (some tag) = tag

module _ {F : Type 0} ⦃f : Float F⦄ where
  unfoldable pub realized_onto : Bool → List (RealizedPnLRecord F) → Dict F → Dict F
  realized_onto include_manual [] sums = sums
  realized_onto include_manual (r ∷ rs) sums = realized_onto include_manual rs (
      if include_manual || not (is_manual_tag r.strategy_tag)
      then add_to r.pair r.pnl_quote sums
      else sums)

  -- `_filtered_realized_pnl`
  unfoldable pub filtered_realized_pnl : Bool → Portfolio F → Dict F
  unfolding realized_onto
  filtered_realized_pnl include_manual s = realized_onto include_manual s.realized_pnl_history []

  strategies_onto : Bool → List (RealizedPnLRecord F) → Dict F → Dict F
  strategies_onto include_manual [] sums = sums
  strategies_onto include_manual (r ∷ rs) sums = strategies_onto include_manual rs (
      if is_manual_tag r.strategy_tag
      then (if include_manual then add_to "manual" r.pnl_quote sums else sums)
      else add_to (tag_text r.strategy_tag) r.pnl_quote sums)

  -- `_realized_pnl_by_strategy`
  unfoldable pub realized_pnl_by_strategy : Bool → Portfolio F → Dict F
  unfolding strategies_onto
  realized_pnl_by_strategy include_manual s =
      strategies_onto include_manual s.realized_pnl_history []

  -- `get_fee_summary`
  unfoldable pub get_fee_summary : Portfolio F → Dict F × F
  unfolding sum_values
  get_fee_summary s = (s.fees_paid_base_by_pair, sum_values s.fees_paid_base_by_pair)

module _ {F W : Type 0} ⦃f : Float F⦄ (books : Books F W) where
  -- the timeframes that are not in a list, each once
  fresh : List String → List String → List String
  fresh seen [] = []
  fresh seen (t ∷ ts) = let rest = fresh (t ∷ seen) ts in if member t seen then rest else t ∷ rest

  first_close : String → List String → W → Option F × W
  first_close pair [] w = (none, w)
  first_close pair (t ∷ ts) w =
      let (close, w') = books.get_last_close pair t w in
      elim close [ some price ↦ (some price, w') | none ↦ first_close pair ts w' ]

  or_default : List String → List String
  or_default [] = "1m" ∷ "5m" ∷ "15m" ∷ []
  or_default (t ∷ ts) = t ∷ ts

  -- `_get_fallback_price`
  unfoldable pub get_fallback_price : String → W → Option F × W
  unfolding fresh first_close or_default
  get_fallback_price pair w = first_close pair (fresh [] (or_default books.timeframes)) w

  -- `_get_position_price`: the price, and whether it is a fallback
  unfoldable pub get_position_price : String → W → Option F × Bool × W
  unfolding get_fallback_price
  get_position_price pair w =
      let (live, w1) = books.get_latest_price pair w in
      elim live [
        | some price ↦ (some price, false, w1)
        | none ↦ (let (price, w2) = get_fallback_price pair w1 in (price, true, w2))
      ]

  unfoldable pub should_include_manual : Option Bool → Bool
  should_include_manual none = books.config.track_manual_trades
  should_include_manual (some b) = b

  -- the balances: the equity, the cash, and the assets without a value
  unfoldable pub value_balances : Dict (AssetBalance F) → F → F → W → F × F × List String × W
  value_balances [] equity cash w = (equity, cash, [], w)
  value_balances ((asset, balance) ∷ rest) equity cash w =
      let (value, w') = convert_to_base_currency books balance.total asset w in
      let (e, c, unvalued, w'') =
        value_balances rest (f.add equity value.value_base)
          (if str_eq asset books.config.base_currency then f.add cash value.value_base else cash)
          w' in
      (e, c, if is_unvalued value then asset ∷ unvalued else unvalued, w'')

  -- a position at a price, or at its cost
  valued_at : Option F → SpotPosition F → SpotPosition F
  valued_at price p =
      let current : F = elim price [ none ↦ p.avg_entry_price | some x ↦ x ] in
      record p {
        current_value_base = f.mul p.base_size current;
        unrealized_pnl_base =
            f.sub (f.mul p.base_size current) (f.mul p.base_size p.avg_entry_price);
      }

  -- the positions with their values, the unrealised sum, and whether a price is not live
  unfoldable pub value_positions :
      Bool → Dict (SpotPosition F) → F → Bool → W → Dict (SpotPosition F) × F × Bool × W
  unfolding valued_at get_position_price
  value_positions include_manual [] unrealized drift w = ([], unrealized, drift, w)
  value_positions include_manual ((k, p) ∷ rest) unrealized drift w =
      let (p', unrealized', drift', w') : SpotPosition F × F × Bool × W =
        if not include_manual && is_manual_tag p.strategy_tag
        then (p, unrealized, drift, w)
        else (let (price, fallback, w1) = get_position_price p.pair w in
            let valued = valued_at price p in
            (valued, f.add unrealized valued.unrealized_pnl_base, drift || fallback, w1)) in
      let (ps, total, drifted, w'') = value_positions include_manual rest unrealized' drift' w' in
      ((k, p') ∷ ps, total, drifted, w'')

  -- `equity_view`
  unfoldable pub equity_view : Option Bool → Portfolio F → W → Portfolio F × EquityView F × W
  unfolding should_include_manual value_balances value_positions filtered_realized_pnl sum_values
  equity_view choice s w =
      let include_manual = should_include_manual choice in
      let (equity, cash, unvalued, w1) = value_balances s.balances zero_float zero_float w in
      let (ps, unrealized, price_drift, w2) =
        value_positions include_manual s.positions zero_float false w1 in
      (
        record s { positions = ps },
        record {
          equity_base = equity;
          cash_base = cash;
          realized_pnl_base_total = sum_values (filtered_realized_pnl include_manual s);
          unrealized_pnl_base_total = unrealized;
          drift_flag = s.drift_flag || price_drift;
          unvalued_assets = unvalued;
        },
        w2,
      )
