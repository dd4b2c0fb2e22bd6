-- ===== src/Execution/Correlation/Adoption.antt =====
-- When `classify_client_order_id_matches` allows an order to be adopted, and when it takes it for
-- absent.
use text.Mathlib.TextPositions.{eq_refl}
use krakked.Prelude.{String, ◌≡◌, refl, ◌↔◌, Option, none, some, [], ◌∷◌, arith, eq_iff, ◌≢◌}
use krakked.Prelude.Dict.{Dict}
use krakked.Execution.Models.{Json}
use krakked.Execution.Correlation.{
  CorrelationState, CorrelationResult, payload_client_order_id, classify_client_order_id_matches,
  classify_single, classify_raw, raw_of,
}

module _ {F : Type 0} where
  -- What the endpoint returned is one candidate, and it echoes the expected id.
  pub record IsAdoptable (raw : Dict (Json F)) (expected : String) (r : CorrelationResult F)
      : Type 0 where
    pub kraken_id : String
    pub candidate : Json F
    pub single : raw ≡ (kraken_id, candidate) ∷ []
    pub echoes : payload_client_order_id candidate ≡ some expected
    pub adopts : r.kraken_order_id ≡ some kraken_id
    pub keeps : r.payload ≡ some candidate

  single_exact :
      (expected kraken_id : String) (payload : Json F) (echo : Option String)
      → let r = classify_single expected kraken_id payload echo in
        r.state ≡ CorrelationState.exact
        → (echo ≡ some expected) × (r.kraken_order_id ≡ some kraken_id) × (r.payload ≡ some payload)
  unfolding classify_single
  single_exact expected kraken_id payload none h = cc
  single_exact expected kraken_id payload (some echoed) h = ground (arith, eq_iff echoed expected)

  IsAdoptable-of_exact :
      (raw : Dict (Json F)) (expected : String)
      → (classify_raw expected raw).state ≡ CorrelationState.exact
      → IsAdoptable raw expected (classify_raw expected raw)
  unfolding classify_raw
  IsAdoptable-of_exact [] expected h = absurd (cc)
  IsAdoptable-of_exact ((kraken_id, payload) ∷ []) expected h =
      let (echo, id, kept) = single_exact expected kraken_id payload _ h in
      record {
        kraken_id = kraken_id;
        candidate = payload;
        single = refl;
        echoes = echo;
        adopts = id;
        keeps = kept;
      }
  IsAdoptable-of_exact (first ∷ second ∷ rest) expected h = absurd (cc)

  exact_of_single :
      (expected kraken_id : String) (payload : Json F)
      → (classify_single expected kraken_id payload (some expected)).state ≡ CorrelationState.exact
  unfolding classify_single
  exact_of_single expected kraken_id payload = simp eq_refl

  exact_of_adoptable :
      (raw : Dict (Json F)) (expected : String)
      → IsAdoptable raw expected (classify_raw expected raw)
      → (classify_raw expected raw).state ≡ CorrelationState.exact
  unfolding classify_raw
  exact_of_adoptable [] expected a = absurd (cc a.single)
  exact_of_adoptable ((kraken_id, payload) ∷ []) expected a =
      let same : payload ≡ a.candidate = cc a.single in
      rw same (rw a.echoes (exact_of_single expected kraken_id a.candidate))
  exact_of_adoptable (first ∷ second ∷ rest) expected a = absurd (cc a.single)

  -- A lookup is classified as exact, which alone allows adoption, exactly when the endpoint returned
  -- one candidate and its payload echoes the expected client order id; the result then carries that
  -- candidate's Kraken id and payload.
  pub classify_exact_iff :
      (matches : Option (Dict (Json F))) (expected : String)
      → let r = classify_client_order_id_matches matches expected in
        (r.state ≡ CorrelationState.exact) ↔ IsAdoptable (raw_of matches) expected r
  unfolding classify_client_order_id_matches
  classify_exact_iff matches expected =
      (IsAdoptable-of_exact (raw_of matches) expected, exact_of_adoptable (raw_of matches) expected)

  single_not_absent :
      (expected kraken_id : String) (payload : Json F) (echo : Option String)
      → (classify_single expected kraken_id payload echo).state ≢ CorrelationState.absent
  unfolding classify_single
  single_not_absent expected kraken_id payload none = λ h. cc
  single_not_absent expected kraken_id payload (some echoed) = λ h. ground arith

  absent_iff :
      (raw : Dict (Json F)) (expected : String)
      → ((classify_raw expected raw).state ≡ CorrelationState.absent) ↔ (raw ≡ [])
  unfolding classify_raw
  absent_iff [] expected = (λ _. refl, λ _. refl)
  absent_iff ((kraken_id, payload) ∷ []) expected =
      (λ h. absurd (single_not_absent expected kraken_id payload _ h), λ e. absurd (cc e))
  absent_iff (first ∷ second ∷ rest) expected = (λ h. absurd (cc h), λ e. absurd (cc e))

  -- A lookup is classified as absent, which allows clearing an order, exactly when the endpoint
  -- returned no candidate at all.
  pub classify_absent_iff :
      (matches : Option (Dict (Json F))) (expected : String)
      → ((classify_client_order_id_matches matches expected).state ≡ CorrelationState.absent)
        ↔ (raw_of matches ≡ [])
  unfolding classify_client_order_id_matches
  classify_absent_iff matches expected = absent_iff (raw_of matches) expected
