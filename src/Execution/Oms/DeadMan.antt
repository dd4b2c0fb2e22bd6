-- ===== src/Execution/Oms/DeadMan.antt =====
-- The dead-man switch of `ExecutionService`: the exchange cancels all orders unless a heartbeat renews
-- its timeout. Instants and intervals are in microseconds; half a timeout is exact in them.
pub mod Heartbeats
use krakked.Prelude.{
  ℕ, ◌-◌, ◌*◌, max, Bool, true, false, not, ◌&&◌, ◌||◌, Option, none, some, ltb, if◌then◌else◌,
}
use krakked.Execution.Config.{ExecutionConfig, is_live}
use krakked.Execution.Oms.State.{
  M, Calls, World, heartbeat, pure, call, gets, emit, modify, on_option, ◌>>=◌, ◌>>◌,
}

module _ {F : Type 0} where
  unfoldable pub recommended_dead_man_refresh_interval : ExecutionConfig F → Option ℕ
  recommended_dead_man_refresh_interval c =
      if not (ltb 0 c.dead_man_switch_seconds)
      then none
      else if not (is_live c) || c.validate_only
      then none
      else if not c.allow_live_trading
      then none
      else some (max 1_000_000 (c.dead_man_switch_seconds * 500_000))

-- the time since the last heartbeat is below the interval; a clock that went back is not beyond it
abbrev is_early : ℕ → ℕ → Option ℕ → Bool
is_early now interval none = false
is_early now interval (some last) = ltb (now - last) interval

module _ {F W : Type 0} (c : Calls F W) where
  noted : ℕ → Bool → M F W Bool
  noted now false = pure false
  noted now true = do modify (λ s. record s { last_dead_man_refresh_at = some now }); pure true

  -- `false` of the client is an exception that is caught
  beat : ℕ → (ℕ → World F W → Bool × W) → M F W Bool
  unfolding noted
  beat now client = do
    emit (heartbeat c.config.dead_man_switch_seconds)
    done ← call (client c.config.dead_man_switch_seconds)
    noted now done

  when_due : ℕ → (ℕ → World F W → Bool × W) → Bool → M F W Bool
  unfolding beat
  when_due now client early = if early then pure false else beat now client

  with_client : Bool → ℕ → ℕ → Option (ℕ → World F W → Bool × W) → M F W Bool
  unfolding when_due
  with_client force now interval none = pure false
  with_client force now interval (some client) = do
    early ← gets (λ s. not force && is_early now interval s.last_dead_man_refresh_at)
    when_due now client early

  at_interval : Bool → ℕ → Option ℕ → M F W Bool
  unfolding with_client
  at_interval force now none = pure false
  at_interval force now (some interval) =
      if not c.config.paper_tests_completed
      then pure false
      else with_client force now interval c.cancel_all_orders_after

  -- `refresh_dead_man_switch`, at the instant `now`
  unfoldable pub refresh_dead_man_switch : Bool → ℕ → M F W Bool
  unfolding at_interval
  refresh_dead_man_switch force now =
      at_interval force now (recommended_dead_man_refresh_interval c.config)
