-- ===== src/Strategy/Risk/Pair/Kinds.antt =====
-- The kinds of action of `_process_pair_intents` of src/krakked/strategy/risk.py, by the amounts that
-- they go from and to.
use krakked.Prelude.{◌≡◌, refl, String, Bool, true, false, [], ◌∷◌, if◌then◌else◌}
use krakked.Prelude.Text.{str_eq, member}
use krakked.Prelude.Float.{Float, lt, zero_float, float_eq}
use krakked.Strategy.Risk.Pair.{ten, classify}

module _ {F : Type 0} ⦃f : Float F⦄ where
  -- the kind of an action agrees with the amounts that it goes from and to
  pub record Classified (kind : String) (current_usd target_usd : F) : Type 0 where
    pub opens :
        member kind ("open" ∷ "increase" ∷ []) ≡ true → lt (f.add current_usd ten) target_usd ≡ true
    pub reduces : str_eq kind "reduce" ≡ true → lt target_usd (f.sub current_usd ten) ≡ true
    pub closes : str_eq kind "close" ≡ true → target_usd ≡ zero_float
    pub known : member kind ("open" ∷ "increase" ∷ "reduce" ∷ "close" ∷ "none" ∷ []) ≡ true

  pub none-Classified : (x y : F) → Classified "none" x y
  none-Classified x y = record {
    opens = λ e. cc e;
    reduces = λ e. cc e;
    closes = λ e. cc e;
    known = refl;
  }

  -- the kind and the target by the tests of `classify`
  abbrev by_tests : F → Bool → Bool → Bool → Bool → String × F
  by_tests y above nothing below little =
      if above
      then (if nothing then "open" else "increase", y)
      else if below
      then (if little then ("close", zero_float) else ("reduce", y))
      else ("none", y)

  by_tests-Classified :
      (x y : F) (above nothing below little : Bool)
      → lt (f.add x ten) y ≡ above
      → lt y (f.sub x ten) ≡ below
      → Classified
          (by_tests y above nothing below little).0
          x
          (by_tests y above nothing below little).1
  by_tests-Classified x y true true below little a b = record {
    opens = λ k. a;
    reduces = λ k. cc k;
    closes = λ k. cc k;
    known = refl;
  }
  by_tests-Classified x y true false below little a b = record {
    opens = λ k. a;
    reduces = λ k. cc k;
    closes = λ k. cc k;
    known = refl;
  }
  by_tests-Classified x y false nothing true true a b = record {
    opens = λ k. cc k;
    reduces = λ k. cc k;
    closes = λ k. refl;
    known = refl;
  }
  by_tests-Classified x y false nothing true false a b = record {
    opens = λ k. cc k;
    reduces = λ k. b;
    closes = λ k. cc k;
    known = refl;
  }
  by_tests-Classified x y false nothing false little a b = none-Classified x y

  pub classify-Classified : (x y : F) → Classified (classify x y).0 x (classify x y).1
  unfolding classify
  classify-Classified x y = by_tests-Classified x y _ (float_eq x zero_float) _ (lt y ten) refl refl
