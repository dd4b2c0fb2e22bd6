-- ===== src/Portfolio/Ledger/Equity/Realized.antt =====
-- What `_filtered_realized_pnl` of src/krakked/portfolio/portfolio.py sums up, manual trades included, is
-- what the positions have realised.
use krakked.Prelude.{
  String, Bool, true, false, List, [], ◌∷◌, if◌then◌else◌, ◌≡◌, refl, sym, ap, ◌∙◌,
}
use text.Mathlib.TextEquality.{eq_iff}
use krakked.Prelude.Text.{str_eq}
use krakked.Prelude.Dict.{Dict, get}
use krakked.Prelude.Amounts.{get_or, add_to}
use krakked.Prelude.Float.{Float, zero_float}
use krakked.Portfolio.Ledger.Model.{RealizedPnLRecord, Portfolio}
use krakked.Portfolio.Ledger.Equity.{realized_onto, filtered_realized_pnl}
use krakked.Portfolio.Ledger.Trades.Agreement.{
  Agrees, realized_from, realized_in_history, of_position, get_or-put,
}

module _ {F : Type 0} ⦃f : Float F⦄ where
  get_or-add_to :
      (k j : String) (x : F) (d : Dict F)
      → get_or j (add_to k x d) zero_float
        ≡ (if str_eq k j then f.add (get_or j d zero_float) x else get_or j d zero_float)
  get_or-add_to k j x d = get_or-put k j _ zero_float d ∙ by_key (str_eq k j) ((eq_iff k j).0)
    where
      by_key :
          (b : Bool)
          → (b ≡ true → k ≡ j)
          → (if b then f.add (get_or k d zero_float) x else get_or j d zero_float)
            ≡ (if b then f.add (get_or j d zero_float) x else get_or j d zero_float)
      by_key true e = ap (λ i. f.add (get_or i d zero_float) x) (e refl)
      by_key false e = refl

  realized_onto-get_or :
      (pair : String) (rs : List (RealizedPnLRecord F)) (d : Dict F)
      → get_or pair (realized_onto true rs d) zero_float
        ≡ realized_from pair (get_or pair d zero_float) rs
  unfolding realized_onto realized_from
  realized_onto-get_or pair [] d = refl
  realized_onto-get_or pair (r ∷ rs) d =
      realized_onto-get_or pair rs (add_to r.pair r.pnl_quote d)
      ∙ ap (λ x. realized_from pair x rs) (get_or-add_to r.pair pair r.pnl_quote d)

  -- In a portfolio whose books agree, the realised result of a pair that is summed from the records,
  -- manual trades included, is the one of the pair's position.
  pub filtered_realized_pnl-Agrees :
      (s : Portfolio F) (pair : String)
      → Agrees s
      → get_or pair (filtered_realized_pnl true s) zero_float
        ≡ of_position (λ p. p.realized_pnl_base) pair s.positions
  unfolding filtered_realized_pnl realized_in_history get
  filtered_realized_pnl-Agrees s pair a =
      realized_onto-get_or pair s.realized_pnl_history []
      ∙ sym (a.by_history pair)
      ∙ sym (a.by_position pair)
