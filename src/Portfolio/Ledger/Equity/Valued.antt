-- ===== src/Portfolio/Ledger/Equity/Valued.antt =====
-- The equity of src/krakked/portfolio/portfolio.py values the positions, and keeps the books in agreement.
use krakked.Prelude.{
  String, Bool, true, false, not, ◌&&◌, ◌||◌, Option, none, some, [], ◌∷◌, if◌then◌else◌, ◌≡◌, refl,
  ◌∙◌,
}
use krakked.Prelude.Text.{str_eq}
use krakked.Prelude.Dict.{Dict, get}
use krakked.Prelude.Float.{Float, zero_float}
use krakked.Portfolio.Ledger.Model.{SpotPosition, Books, Portfolio}
use krakked.Portfolio.Ledger.Values.{is_manual_tag}
use krakked.Portfolio.Ledger.Trades.Agreement.{Agrees, of_position}
use krakked.Portfolio.Ledger.Equity.{
  valued_at, get_position_price, value_positions, value_balances, should_include_manual,
  equity_view,
}

module _ {F W : Type 0} ⦃f : Float F⦄ (books : Books F W) (part : SpotPosition F → F)
    (kept : (price : Option F) (p : SpotPosition F) → part (valued_at books price p) ≡ part p) where
  -- an amount at the head of two lists of positions
  of_position-head :
      (pair key : String) (p q : SpotPosition F) (ps qs : Dict (SpotPosition F))
      → part p ≡ part q
      → of_position part pair ps ≡ of_position part pair qs
      → of_position part pair ((key, p) ∷ ps) ≡ of_position part pair ((key, q) ∷ qs)
  unfolding get
  of_position-head pair key p q ps qs h t = by_test (str_eq key pair)
    where
      by_test :
          (b : Bool)
          → ◌≡◌ {A = F}
              (elim (if b then some p else get pair ps) [ none ↦ zero_float | some r ↦ part r ])
              (elim (if b then some q else get pair qs) [ none ↦ zero_float | some r ↦ part r ])
      by_test true = h
      by_test false = t

  value_positions-of_position :
      (include_manual : Bool) (pair : String) (ps : Dict (SpotPosition F)) (sum : F) (drift : Bool)
      (w : W)
      → of_position part pair ((value_positions books include_manual ps sum drift w).0)
        ≡ of_position part pair ps
  unfolding value_positions
  value_positions-of_position include_manual pair [] sum drift w = refl
  value_positions-of_position include_manual pair ((key, p) ∷ rest) sum drift w =
      let (price, fallback, w1) = get_position_price books p.pair w in
      let valued = valued_at books price p in
      by_test (not include_manual && is_manual_tag p.strategy_tag) valued
        (f.add sum valued.unrealized_pnl_base) (drift || fallback) w1 (kept price p)
        (λ sum' drift' w'. value_positions-of_position include_manual pair rest sum' drift' w')
    where
      by_test :
          (b : Bool) (valued : SpotPosition F) (sum1 : F) (drift1 : Bool) (w1 : W)
          → part valued ≡ part p
          → ((sum' : F) (drift' : Bool) (w' : W)
              → of_position part pair ((value_positions books include_manual rest sum' drift' w').0)
                ≡ of_position part pair rest)
          → (let (p', sum', drift', w') : SpotPosition F × F × Bool × W =
                if b then (p, sum, drift, w) else (valued, sum1, drift1, w1) in
              of_position part pair
                ((key, p') ∷ (value_positions books include_manual rest sum' drift' w').0))
            ≡ of_position part pair ((key, p) ∷ rest)
      by_test true valued sum1 drift1 w1 h ih =
          of_position-head pair key p p _ rest refl (ih sum drift w)
      by_test false valued sum1 drift1 w1 h ih =
          of_position-head pair key valued p _ rest h (ih sum1 drift1 w1)

module _ {F W : Type 0} ⦃f : Float F⦄ (books : Books F W) where
  pub equity_view-Agrees :
      (choice : Option Bool) (s : Portfolio F) (w : W)
      → Agrees s
      → Agrees ((equity_view books choice s w).0)
  unfolding equity_view valued_at
  equity_view-Agrees choice s w a =
      let include_manual = should_include_manual books choice in
      let (equity, cash, unvalued, w1) = value_balances books s.balances zero_float zero_float w in
      record {
        by_history = a.by_history;
        by_position = λ pair.
            value_positions-of_position books (λ p. p.realized_pnl_base) (λ price p. refl)
              include_manual pair s.positions zero_float false w1
            ∙ a.by_position pair;
        by_fees = λ pair.
            value_positions-of_position books (λ p. p.fees_paid_base) (λ price p. refl)
              include_manual pair s.positions zero_float false w1
            ∙ a.by_fees pair;
      }
