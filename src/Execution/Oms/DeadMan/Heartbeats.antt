-- ===== src/Execution/Oms/DeadMan/Heartbeats.antt =====
-- When the dead-man switch is renewed.
use krakked.Prelude.{
  sym, subst, ◌∷◌, ℕ, ◌*◌, ◌≤◌, ◌≡◌, refl, max, Bool, true, false, not, ◌&&◌, Option, none, some,
  arith, if◌then◌else◌, Bool-cases, inl, inr,
}
use krakked.Execution.Config.{ExecutionConfig, live_submit_enabled, get_live_trading_block_reason}
use krakked.Execution.Oms.State.{Oms, Calls, World, emit, call, heartbeat, pure}
use krakked.Execution.Oms.DeadMan.{
  recommended_dead_man_refresh_interval, is_early, noted, beat, when_due, with_client, at_interval,
  refresh_dead_man_switch,
}

module _ {F : Type 0} where
  -- The refresh interval is at least a second, and from a timeout of two seconds on it is at most half
  -- of the timeout, so that a heartbeat may be late by as much again.
  pub refresh_interval_bounds :
      (c : ExecutionConfig F) (interval : ℕ)
      → recommended_dead_man_refresh_interval c ≡ some interval
      → (1_000_000 ≤ interval)
        × (2 * interval ≤ max 2_000_000 (c.dead_man_switch_seconds * 1_000_000))
  unfolding recommended_dead_man_refresh_interval
  refresh_interval_bounds c interval h = ground (arith, h)

  interval-live :
      (c : ExecutionConfig F) (interval : ℕ)
      → recommended_dead_man_refresh_interval c ≡ some interval
      → c.paper_tests_completed ≡ true
      → live_submit_enabled c ≡ true
  unfolding recommended_dead_man_refresh_interval live_submit_enabled get_live_trading_block_reason
  interval-live c interval h tests = ground (arith, h, tests)

module _ {F W : Type 0} (c : Calls F W) where
  -- a refresh that is not made, or fails, leaves the time of the last one; one that succeeds notes it,
  -- has sent one heartbeat, and is made only where live orders can be submitted
  abbrev pub Renews : ℕ → Oms F W → Bool × Oms F W → Type 0
  Renews now s (false, t) = t.last_dead_man_refresh_at ≡ s.last_dead_man_refresh_at
  Renews now s (true, t) =
      (live_submit_enabled c.config ≡ true)
      × (t.last_dead_man_refresh_at ≡ some now)
      × (t.world.trace ≡ heartbeat c.config.dead_man_switch_seconds ∷ s.world.trace)

  noted-Renews :
      (now : ℕ) (done : Bool) (s t : Oms F W)
      → live_submit_enabled c.config ≡ true
      → t.last_dead_man_refresh_at ≡ s.last_dead_man_refresh_at
      → t.world.trace ≡ heartbeat c.config.dead_man_switch_seconds ∷ s.world.trace
      → Renews now s (noted c now done t)
  unfolding noted
  noted-Renews now false s t live last sent = last
  noted-Renews now true s t live last sent = (live, refl, sent)

  when_due-Renews :
      (now : ℕ) (client : ℕ → World F W → Bool × W) (early : Bool) (s : Oms F W)
      → live_submit_enabled c.config ≡ true
      → Renews now s (when_due c now client early s)
  unfolding when_due beat emit call
  when_due-Renews now client true s live = refl
  when_due-Renews now client false s live =
      let seconds = c.config.dead_man_switch_seconds in
      let (done, t) = call (client seconds) (emit (heartbeat seconds) s).1 in
      noted-Renews now done s t live refl refl

  with_client-Renews :
      (force : Bool) (now interval : ℕ) (client : Option (ℕ → World F W → Bool × W)) (s : Oms F W)
      → live_submit_enabled c.config ≡ true
      → Renews now s (with_client c force now interval client s)
  unfolding with_client
  with_client-Renews force now interval none s live = refl
  with_client-Renews force now interval (some client) s live =
      when_due-Renews now client (not force && is_early now interval s.last_dead_man_refresh_at) s
        live

  at_interval-Renews :
      (force : Bool) (now : ℕ) (interval : Option ℕ) (s : Oms F W)
      → recommended_dead_man_refresh_interval c.config ≡ interval
      → Renews now s (at_interval c force now interval s)
  unfolding at_interval
  at_interval-Renews force now none s e = refl
  at_interval-Renews force now (some interval) s e =
      elim (Bool-cases c.config.paper_tests_completed) [
        | inl tests ↦
            let live = interval-live c.config interval e tests in
            subst
              (λ b. Renews now s (
                (if not b
                    then pure false
                    else with_client c force now interval c.cancel_all_orders_after)
                  s))
              (sym tests) (with_client-Renews force now interval c.cancel_all_orders_after s live)
        | inr tests ↦
            subst
              (λ b. Renews now s (
                (if not b
                    then pure false
                    else with_client c force now interval c.cancel_all_orders_after)
                  s))
              (sym tests) refl
      ]

  -- A refresh of the dead-man switch that reports success has sent one heartbeat and noted its time,
  -- and is made only where live orders can be submitted; otherwise the time that is noted stays.
  pub refresh_dead_man_switch-Renews :
      (force : Bool) (now : ℕ) (s : Oms F W) → Renews now s (refresh_dead_man_switch c force now s)
  unfolding refresh_dead_man_switch
  refresh_dead_man_switch-Renews force now s =
      at_interval-Renews force now (recommended_dead_man_refresh_interval c.config) s refl
