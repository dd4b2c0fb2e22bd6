-- ===== src/Execution/Config/Safety.antt =====
-- The safety summary against the guards that decide.
use krakked.Prelude.{
  String, ◌≡◌, refl, ◌↔◌, ◌≢◌, true, false, List, [], ◌∷◌, arith, Bool-cases, inl, inr,
}
use krakked.Prelude.Text.{strip, is_filled}
use krakked.Execution.Config.{
  ExecutionConfig, is_live, is_empty, stripped, filled_entries, get_live_trading_block_reason,
  live_submit_enabled, approved_live_strategy_ids, check_safety,
}

filled_stripped : (l : List String) → is_empty (filled_entries l) ≡ is_empty (stripped l)
unfolding filled_entries
filled_stripped [] = refl
filled_stripped (s ∷ rest) = elim (Bool-cases (is_filled (strip s))) [
  | inl e ↦ rw e refl
  | inr e ↦ rw e (filled_stripped rest)
]

module _ {F : Type 0} where
  -- Live orders can be submitted exactly when the mode is live, validation-only is off, live trading
  -- is allowed and the paper tests are done.
  pub live_submit_enabled_iff :
      (c : ExecutionConfig F)
      → (live_submit_enabled c ≡ true) ↔ (
          (is_live c ≡ true)
          × (c.validate_only ≡ false)
          × (c.allow_live_trading ≡ true)
          × (c.paper_tests_completed ≡ true))
  unfolding live_submit_enabled get_live_trading_block_reason
  live_submit_enabled_iff c = ground arith

  -- The logged summary reports live submission as not blocked although the adapter and the order
  -- service refuse every live order, exactly when all the other guards are open, some strategy is
  -- approved and the paper tests are not done.
  pub summary_misses_paper_tests :
      (c : ExecutionConfig F)
      → ((check_safety c).live_order_submission_blocked ≡ false) × (live_submit_enabled c ≡ false)
        ↔ ((is_live c ≡ true)
            × (c.validate_only ≡ false)
            × (c.allow_live_trading ≡ true)
            × (approved_live_strategy_ids c ≢ [])
            × (c.paper_tests_completed ≡ false))
  unfolding check_safety live_submit_enabled get_live_trading_block_reason
      approved_live_strategy_ids
  summary_misses_paper_tests c = ground (arith, filled_stripped c.live_strategy_allowlist)
