-- ===== src/Strategy/Performance/Counted.antt =====
-- Each record of the window in src/krakked/strategy/performance.py counts for one strategy.
use krakked.Prelude.{
  ℕ, suc, String, Bool, true, false, Option, none, some, List, [], ◌∷◌, ◌++◌, if◌then◌else◌, length,
  length-append, leb, keep, ◌+◌, ◌-◌, ◌≡◌, refl, ap, ◌∙◌, arith, Bool-cases, inl, inr,
}
use krakked.Prelude.Text.{str_eq}
use krakked.Prelude.Dict.{Dict, get, put}
use krakked.Prelude.Amounts.{get_or, map_each}
use krakked.Prelude.Float.{Float}
use krakked.Portfolio.Ledger.Model.{RealizedPnLRecord, Portfolio}
use krakked.Strategy.Performance.{
  record_under, in_window, records_by_strategy, in_order, records_in_order, performance_of,
  compute_strategy_performance,
}

module _ {V : Type 0} where
  -- the sum of a number over the entries of a dict
  abbrev pub count_entries : (V → ℕ) → Dict V → ℕ
  count_entries n [] = 0
  count_entries n ((k, v) ∷ d) = n v + count_entries n d

module _ {F : Type 0} where
  in_order-length :
      (r : RealizedPnLRecord F) (rs : List (RealizedPnLRecord F))
      → length (in_order r rs) ≡ suc (length rs)
  unfolding in_order
  in_order-length r [] = refl
  in_order-length r (u ∷ us) = elim (Bool-cases (leb r.time u.time)) [
    | inl e ↦ rw e refl
    | inr e ↦ rw e (ap suc (in_order-length r us))
  ]

  records_in_order-length :
      (rs : List (RealizedPnLRecord F)) → length (records_in_order rs) ≡ length rs
  unfolding records_in_order
  records_in_order-length [] = refl
  records_in_order-length (r ∷ rs) =
      in_order-length r (records_in_order rs) ∙ ap suc (records_in_order-length rs)

  put-count :
      (id : String) (v : List (RealizedPnLRecord F)) (d : Dict (List (RealizedPnLRecord F)))
      → count_entries length (put id v d) + length (get_or id d [])
        ≡ count_entries length d + length v
  unfolding get put
  put-count id v [] = omega arith
  put-count id v ((k, rs) ∷ d) = by_key (str_eq k id) (put-count id v d)
    where
      by_key :
          (b : Bool)
          → count_entries length (put id v d) + length (get_or id d [])
            ≡ count_entries length d + length v
          → (let found : Option (List (RealizedPnLRecord F)) = if b then some rs else get id d in
              count_entries length (if b then (k, v) ∷ d else (k, rs) ∷ put id v d)
                + length
                    (elim found as (λ o. List (RealizedPnLRecord F)) [ none ↦ [] | some u ↦ u ])
              ≡ length rs + count_entries length d + length v)
      by_key true h = omega arith
      by_key false h = omega (arith, h)

  record_under-count :
      (id : String) (r : RealizedPnLRecord F) (d : Dict (List (RealizedPnLRecord F)))
      → count_entries length (record_under id r d) ≡ suc (count_entries length d)
  unfolding record_under
  record_under-count id r d =
      let old = get_or id d [] in
      omega (arith, put-count id (old ++ (r ∷ [])) d, length-append old (r ∷ []))

  records_by_strategy-count :
      (rs : List (RealizedPnLRecord F)) (d : Dict (List (RealizedPnLRecord F)))
      → count_entries length (records_by_strategy rs d) ≡ length rs + count_entries length d
  unfolding records_by_strategy
  records_by_strategy-count [] d = omega arith
  records_by_strategy-count (r ∷ rs) d =
      records_by_strategy-count rs _ ∙ omega (arith, record_under-count _ r d)

module _ {F : Type 0} ⦃f : Float F⦄ where
  map_each-count :
      (from until : ℕ) (d : Dict (List (RealizedPnLRecord F)))
      → count_entries (λ p. p.trade_count) (map_each (performance_of from until) d)
        ≡ count_entries length d
  unfolding map_each performance_of
  map_each-count from until [] = refl
  map_each-count from until ((k, rs) ∷ d) =
      omega (arith, records_in_order-length rs, map_each-count from until d)

  -- The trades of all strategies are together the records of the window: each of them counts for just one
  -- strategy.
  pub compute_strategy_performance-count :
      (now window : ℕ) (s : Portfolio F)
      → count_entries (λ p. p.trade_count) (compute_strategy_performance now window s)
        ≡ length (keep (in_window (now - window) now) s.realized_pnl_history)
  unfolding compute_strategy_performance
  compute_strategy_performance-count now window s =
      map_each-count (now - window) now _
      ∙ records_by_strategy-count (keep (in_window (now - window) now) s.realized_pnl_history) []
      ∙ omega arith
