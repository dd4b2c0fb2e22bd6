-- ===== src/Portfolio/Ledger/Values.antt =====
-- Rounding, conversion to the base currency, and the tags of a trade, of
-- src/krakked/portfolio/portfolio.py.
use krakked.Prelude.{
  String, Bool, true, false, not, ◌&&◌, ◌||◌, Option, none, some, List, [], ◌∷◌, if◌then◌else◌,
  ◌==◌,
}
use krakked.Prelude.Text.{str_eq, is_filled, member}
use krakked.Prelude.Dict.{get}
use krakked.Prelude.Amounts.{has}
use krakked.Prelude.Float.{Float, lt, zero_float, float_eq}
use krakked.Execution.Router.{Decimals}
use krakked.Portfolio.Ledger.Model.{Books, PairLookup, Trade}
use Prim.Native.Char.{code}

-- the valuation of an amount, and how it came to be
pub record ConversionResult (F : Type 0) : Type 0 where
  pub value_base : F
  pub source_pair : Option String
  pub status : String

abbrev pub is_unvalued : {F : Type 0} → ConversionResult F → Bool
is_unvalued c = str_eq c.status "unvalued"

module _ {F D W : Type 0} ⦃f : Float F⦄ ⦃g : Float D⦄ (d : Decimals F D) (books : Books F W) where
  -- a value through a decimal, where nothing raises
  abbrev decimal_or : (D → Option D) → F → F → F
  decimal_or q x fallback = elim (d.decimal x) [
    | none ↦ fallback
    | some y ↦ elim (q y) [ none ↦ fallback | some z ↦ d.to_float z ]
  ]

  abbrev snapped : F → F
  snapped vol = if lt vol (f.lit 1 9) then zero_float else vol

  vol_rounded : PairLookup F → F → F
  vol_rounded (PairLookup.found meta base quote) vol =
      decimal_or (d.quantize_floor meta.volume_decimals) vol (snapped vol)
  vol_rounded _ vol = snapped vol

  price_rounded : PairLookup F → F → F
  price_rounded (PairLookup.found meta base quote) price =
      decimal_or (d.quantize_half_up meta.price_decimals) price price
  price_rounded _ price = price

  -- `_round_vol`
  unfoldable pub round_vol : String → F → W → F × W
  unfolding vol_rounded
  round_vol pair vol w =
      let (answer, w') = books.get_pair_metadata pair w in (vol_rounded answer vol, w')

  -- `_round_price`
  unfoldable pub round_price : String → F → W → F × W
  unfolding price_rounded
  round_price pair price w =
      let (answer, w') = books.get_pair_metadata pair w in (price_rounded answer price, w')

abbrev or_tag : Option String → Option String → Option String
or_tag (some s) t = some s
or_tag none t = t

-- a text that is there and not empty
abbrev pub filled : Option String → Option String
filled none = none
filled (some s) = if is_filled s then some s else none

module _ {F W : Type 0} ⦃f : Float F⦄ (books : Books F W) where
  abbrev is_nil : List String → Bool
  is_nil [] = true
  is_nil (x ∷ xs) = false

  unfoldable pub is_asset_included : String → Bool
  is_asset_included asset =
      not
        (not (is_nil books.config.include_assets) && not (member asset books.config.include_assets))
      && not (member asset books.config.exclude_assets)

  -- the pair that an asset is valued by
  valuation_pair : String → Option String
  valuation_pair asset = elim (get asset books.config.valuation_pairs) [
    | none ↦ books.get_valuation_pair asset
    | some pair ↦ (if is_filled pair then some pair else books.get_valuation_pair asset)
  ]

  priced_by : F → Option String → W → ConversionResult F × W
  priced_by amount none w =
      (record { value_base = zero_float; source_pair = none; status = "unvalued" }, w)
  priced_by amount (some pair) w =
      if is_filled pair
      then (let (price, w') = books.get_latest_price pair w in
          (
            elim price [
              | none ↦ record {
                value_base = zero_float;
                source_pair = some pair;
                status = "unvalued";
              }
              | some p ↦ record {
                value_base = f.mul amount p;
                source_pair = some pair;
                status = "valued";
              }
            ],
            w',
          ))
      else (record { value_base = zero_float; source_pair = none; status = "unvalued" }, w)

  -- `_convert_to_base_currency`
  unfoldable pub convert_to_base_currency : F → String → W → ConversionResult F × W
  unfolding valuation_pair priced_by
  convert_to_base_currency amount asset w =
      if float_eq amount zero_float || not (is_filled asset)
      then (record { value_base = zero_float; source_pair = none; status = "valued" }, w)
      else if not (is_asset_included asset)
      then (record { value_base = zero_float; source_pair = none; status = "excluded" }, w)
      else if str_eq asset books.config.base_currency
      then (record { value_base = amount; source_pair = none; status = "valued" }, w)
      else priced_by amount (valuation_pair asset) w

  -- the text before the first colon, if there is one
  prefix : String → Option String
  prefix String.[] = none
  prefix (String.◌∷◌ c s) =
      let rest = prefix s in
      if code c == 58
      then some String.[]
      else elim rest [ none ↦ none | some p ↦ some (String.◌∷◌ c p) ]

  known_strategy : String → Option String
  known_strategy key = elim (get key books.userref_to_strategy) [
    | some strategy ↦ some strategy
    | none ↦ (if has key books.strategy_tags then some key else none)
  ]

  -- `_strategy_from_userref`
  unfoldable pub strategy_from_userref : String → Option String
  unfolding known_strategy prefix
  strategy_from_userref userref = elim (known_strategy userref) [
    | some strategy ↦ some strategy
    | none ↦ elim (prefix userref) [ none ↦ none | some p ↦ known_strategy p ]
  ]

  -- the strategy of a trade, of `_extract_trade_tags`
  unfoldable pub strategy_of_trade : Trade F → Option String
  strategy_of_trade t = or_tag (filled t.strategy_tag) (
      or_tag (elim t.userref [ none ↦ none | some u ↦ strategy_from_userref u ])
        (elim (filled t.comment) [ none ↦ none | some c ↦ get c books.strategy_tags ]))

abbrev pub is_manual_tag : Option String → Bool
is_manual_tag none = true
is_manual_tag (some tag) = not (is_filled tag) || str_eq tag "manual"
