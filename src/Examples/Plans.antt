-- ===== src/Examples/Plans.antt =====
-- Runs of `execute_plan`: the theorems at a concrete service and plan.
use krakked.Prelude.{arith, ◌≡◌, ◌≤◌, refl, true, false, some, [], length}
use krakked.Prelude.Float.{nano_float, Nano-IsOrdered, Nano-IsDifference}
use krakked.Execution.Config.{live_submit_enabled, get_live_trading_block_reason}
use krakked.Execution.Oms.Plan.{execute_plan, is_stale}
use krakked.Execution.Oms.Plan.Submissions.{Adds, submitted_orders}
use krakked.Execution.Oms.Plan.Limits.{execute_plan-submits_within_limit}
use krakked.Execution.Oms.Plan.Boundary.{IsApproved, IsReduction}
use krakked.Execution.Oms.Plan.WriteAhead.{IsWrittenAhead, execute_plan-IsWrittenAhead}
use krakked.Execution.Oms.Plan.Routed.{routed-submits-IsApproved, routed-unsynced}
use krakked.Examples.Service.{
  nano_decimals, sources, config, calls_with, service, synced_account, drifted_account, start, plan,
}

pub config_is_live : live_submit_enabled config ≡ true
unfolding live_submit_enabled get_live_trading_block_reason
config_is_live = refl

plan_is_old : is_stale (service synced_account false) plan 100_000_000 ≡ true
unfolding is_stale
plan_is_old = refl

start_is_written : IsWrittenAhead start.world.trace
unfolding IsWrittenAhead
start_is_written = tt

execute_plan-submits_within_limit_example :
    length (submitted_orders (execute_plan (service synced_account false) plan 2000 start).1) ≤ 2
execute_plan-submits_within_limit_example =
    execute_plan-submits_within_limit (service synced_account false) plan 2000 start (omega arith)

execute_plan-IsWrittenAhead_example :
    IsWrittenAhead (execute_plan (service synced_account false) plan 2000 start).1.world.trace
execute_plan-IsWrittenAhead_example =
    execute_plan-IsWrittenAhead (service synced_account false) plan 2000 start config_is_live refl
      start_is_written

routed-submits-IsApproved_example :
    Adds
      (IsApproved (service synced_account false))
      []
      (submitted_orders (execute_plan (service synced_account false) plan 2000 start).1)
routed-submits-IsApproved_example =
    routed-submits-IsApproved Nano-IsOrdered Nano-IsDifference nano_decimals sources
      (calls_with synced_account false) plan 2000 start config_is_live

routed-unsynced_example :
    Adds IsReduction []
      (submitted_orders (execute_plan (service drifted_account false) plan 2000 start).1)
routed-unsynced_example =
    routed-unsynced Nano-IsOrdered Nano-IsDifference nano_decimals sources
      (calls_with drifted_account false) plan 2000 start (λ w. (some drifted_account, w.outside))
      config_is_live refl (λ w. refl)
