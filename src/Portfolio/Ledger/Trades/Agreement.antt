-- ===== src/Portfolio/Ledger/Trades/Agreement.antt =====
-- The books agree: what a pair has realised, in its position and in the totals, is the sum of its
-- records, and its fees are those of its position.
use text.Mathlib.TextEquality.{eq_iff}
use krakked.Prelude.{
  String, Bool, true, false, Option, none, some, List, [], ◌∷◌, ◌++◌, if◌then◌else◌, ◌≡◌, refl, sym,
  ap, ◌∙◌, subst, if-both,
}
use krakked.Prelude.Text.{str_eq}
use krakked.Prelude.Dict.{Dict, get, put, get-put}
use krakked.Prelude.Amounts.{get_or}
use krakked.Prelude.Float.{Float, zero_float}
use krakked.Execution.Router.{Decimals}
use krakked.Portfolio.Ledger.Model.{
  SpotPosition, Trade, RealizedPnLRecord, TradedPair, Books, Portfolio,
}
use krakked.Portfolio.Ledger.Trades.{
  Effect, new_position, pnl_record, buy, sell, effect, apply_effect,
}

-- subtraction is the addition of the negated amount
pub record IsNegating (F : Type 0) ⦃f : Float F⦄ : Type 0 where
  pub sub_as_add : (x y : F) → f.sub x y ≡ f.add x (f.sub zero_float y)

module _ {F : Type 0} ⦃f : Float F⦄ where
  unfoldable pub realized_from : String → F → List (RealizedPnLRecord F) → F
  realized_from pair total [] = total
  realized_from pair total (r ∷ rs) =
      realized_from pair (if str_eq r.pair pair then f.add total r.pnl_quote else total) rs

  -- the sum of a pair's records
  unfoldable pub realized_in_history : String → List (RealizedPnLRecord F) → F
  unfolding realized_from
  realized_in_history pair rs = realized_from pair zero_float rs

  -- an amount of a pair's position, which is zero without one
  abbrev pub of_position : (SpotPosition F → F) → String → Dict (SpotPosition F) → F
  of_position part pair d = elim (get pair d) [ none ↦ zero_float | some p ↦ part p ]

  pub record Agrees (s : Portfolio F) : Type 0 where
    pub by_history :
        (pair : String)
        → get_or pair s.realized_pnl_base_by_pair zero_float
          ≡ realized_in_history pair s.realized_pnl_history
    pub by_position :
        (pair : String)
        → of_position (λ p. p.realized_pnl_base) pair s.positions
          ≡ get_or pair s.realized_pnl_base_by_pair zero_float
    pub by_fees :
        (pair : String)
        → of_position (λ p. p.fees_paid_base) pair s.positions
          ≡ get_or pair s.fees_paid_base_by_pair zero_float

module _ {F : Type 0} ⦃f : Float F⦄ where
  realized_from-append :
      (pair : String) (total : F) (rs : List (RealizedPnLRecord F)) (r : RealizedPnLRecord F)
      → realized_from pair total (rs ++ (r ∷ [])) ≡ (
          if str_eq r.pair pair
          then f.add (realized_from pair total rs) r.pnl_quote
          else realized_from pair total rs)
  unfolding realized_from
  realized_from-append pair total [] r = refl
  realized_from-append pair total (u ∷ rs) r =
      realized_from-append pair (if str_eq u.pair pair then f.add total u.pnl_quote else total) rs r

  of_position-put :
      (part : SpotPosition F → F) (k j : String) (p : SpotPosition F) (d : Dict (SpotPosition F))
      → of_position part j (put k p d) ≡ (if str_eq k j then part p else of_position part j d)
  of_position-put part k j p d =
      ap (λ (o : Option (SpotPosition F)). elim o [ none ↦ zero_float | some q ↦ part q ])
        (get-put k j p d)
      ∙ by_test (str_eq k j)
    where
      by_test :
          (b : Bool)
          → (elim (if b then some p else get j d) [ none ↦ zero_float | some q ↦ part q ])
            ≡ (if b then part p else of_position part j d)
      by_test true = refl
      by_test false = refl

  pub get_or-put :
      (k j : String) (v x : F) (d : Dict F)
      → get_or j (put k v d) x ≡ (if str_eq k j then v else get_or j d x)
  get_or-put k j v x d =
      ap (λ (o : Option F). elim o [ none ↦ x | some u ↦ u ]) (get-put k j v d)
      ∙ by_test (str_eq k j)
    where
      by_test :
          (b : Bool)
          → (elim (if b then some v else get j d) [ none ↦ x | some u ↦ u ])
            ≡ (if b then v else get_or j d x)
      by_test true = refl
      by_test false = refl

  -- the equations of two dictionaries hold after a write of equal amounts
  if-ap :
      (b : Bool) (x y u v : F)
      → (b ≡ true → x ≡ y)
      → u ≡ v
      → (if b then x else u) ≡ (if b then y else v)
  if-ap true x y u v e g = e refl
  if-ap false x y u v e g = g

-- an effect that a trade may have: its record is of the pair, and the position and the totals realise
-- what the record says
pub record IsFair {F : Type 0} ⦃f : Float F⦄ (names : TradedPair) (p : SpotPosition F)
    (realized : F) (e : Effect F) : Type 0 where
  pub of_pair : e.entry.pair ≡ names.canonical
  pub to_position : e.realized ≡ f.add p.realized_pnl_base e.entry.pnl_quote
  pub to_totals : e.realized_by_pair ≡ f.add realized e.entry.pnl_quote

module _ {F D W : Type 0} ⦃f : Float F⦄ ⦃g : Float D⦄ (law : IsNegating F) (d : Decimals F D)
    (books : Books F W) where
  pub effect-IsFair :
      (names : TradedPair) (t : Trade F) (fee : F) (p : SpotPosition F) (realized : F) (w : W)
      → IsFair names p realized ((effect d books names t fee p realized w).0)
  unfolding effect buy sell pnl_record
  effect-IsFair names t fee p realized w =
      if-both (λ (x : Effect F × W). IsFair names p realized (x.0)) (str_eq t.kind "buy")
        (buy d books names t fee p realized w) (sell d books names t fee p realized w)
        (record {
          of_pair = refl;
          to_position = law.sub_as_add p.realized_pnl_base fee;
          to_totals = law.sub_as_add realized fee;
        })
        (record { of_pair = refl; to_position = refl; to_totals = refl })

  -- the position a trade falls on, which may be new
  unfoldable pub fallen : TradedPair → Trade F → Portfolio F → SpotPosition F
  fallen names t s = get_or names.canonical s.positions (new_position books names t)

  fallen-of_position :
      (part : SpotPosition F → F) (names : TradedPair) (t : Trade F) (s : Portfolio F)
      → part (new_position books names t) ≡ zero_float
      → part (fallen names t s) ≡ of_position part names.canonical s.positions
  unfolding fallen
  fallen-of_position part names t s h = by_lookup (get names.canonical s.positions)
    where
      by_lookup :
          (o : Option (SpotPosition F))
          → part (elim o [ none ↦ new_position books names t | some p ↦ p ])
            ≡ (elim o [ none ↦ zero_float | some p ↦ part p ])
      by_lookup none = h
      by_lookup (some p) = refl

  pub apply_effect-Agrees :
      (names : TradedPair) (t : Trade F) (fee : F) (s : Portfolio F) (e : Effect F)
      → IsFair names
          (fallen names t s)
          (get_or names.canonical s.realized_pnl_base_by_pair zero_float)
          e
      → Agrees s
      → Agrees (apply_effect d books names t fee (fallen names t s) e s)
  unfolding apply_effect realized_in_history new_position
  apply_effect-Agrees names t fee s e h a =
      let c = names.canonical in
      record {
        by_history = λ pair.
            get_or-put c pair e.realized_by_pair zero_float s.realized_pnl_base_by_pair
            ∙ if-ap (str_eq c pair) _ _ _ _
                (λ same.
                  h.to_totals
                  ∙ ap (λ x. f.add x e.entry.pnl_quote)
                      (subst
                        (λ j.
                          get_or c s.realized_pnl_base_by_pair zero_float
                          ≡ realized_in_history j s.realized_pnl_history)
                        ((eq_iff c pair).0 same) (a.by_history c)))
                (a.by_history pair)
            ∙ ap
                (λ q.
                  if str_eq q pair
                  then f.add (realized_in_history pair s.realized_pnl_history) e.entry.pnl_quote
                  else realized_in_history pair s.realized_pnl_history)
                (sym h.of_pair)
            ∙ sym (realized_from-append pair zero_float s.realized_pnl_history e.entry);
        by_position = λ pair.
            of_position-put (λ p. p.realized_pnl_base) c pair _ s.positions
            ∙ if-ap (str_eq c pair) _ _ _ _
                (λ same.
                  h.to_position
                  ∙ ap (λ x. f.add x e.entry.pnl_quote)
                      (fallen-of_position (λ p. p.realized_pnl_base) names t s refl
                        ∙ a.by_position c)
                  ∙ sym h.to_totals)
                (a.by_position pair)
            ∙ sym (get_or-put c pair e.realized_by_pair zero_float s.realized_pnl_base_by_pair);
        by_fees = λ pair.
            of_position-put (λ p. p.fees_paid_base) c pair _ s.positions
            ∙ if-ap (str_eq c pair) _ _ _ _
                (λ same.
                  ap (λ x. f.add x fee)
                    (fallen-of_position (λ p. p.fees_paid_base) names t s refl ∙ a.by_fees c))
                (a.by_fees pair)
            ∙ sym (get_or-put c pair _ zero_float s.fees_paid_base_by_pair);
      }
