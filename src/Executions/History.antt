-- ===== src/Executions/History.antt =====
-- Sequences of the calls of apps/api/apps/executions/services.py, by any callers in any order.
use Prim.Native.Nat.{ℕ}
use Prim.Native.String.{String}
use mathlib.Core.Path.{◌≡◌}
use mathlib.Core.Bool.{true}
use mathlib.Core.Option.{Option, some}
use runbook_platform.Prelude.Tables.{find_row}
use runbook_platform.Audit.{AuditActor}
use runbook_platform.Store.{World}
use runbook_platform.Changes.Completion.{ChangeGuards}
use runbook_platform.Executions.Model.{
  Execution, execution_row, ExecutionStatus, ExecutionStep, step_row,
}
use runbook_platform.Executions.Steps.{StepUpdate, step_is_finished, update_execution_step}
use runbook_platform.Executions.Completion.{
  is_outcome, complete_execution, heartbeat_execution, cancel_execution,
}
use runbook_platform.Executions.Watchdog.{
  recover_stuck_executions, fail_execution_for_approval_timeout,
}
use runbook_platform.Executions.Finality.{
  SameOutcome, KeepsFinal, KeepsFinal-refl, update_execution_step-KeepsFinal,
}
use runbook_platform.Executions.Outcomes.{KeepsFinal-trans, cancel_execution-KeepsFinal}
use runbook_platform.Executions.Endings.{
  complete_execution-KeepsFinal, heartbeat_execution-KeepsFinal,
}
use runbook_platform.Executions.Recovery.{
  recover_stuck_executions-KeepsFinal, fail_execution_for_approval_timeout-KeepsFinal,
}

-- A call of a runner, a user or the watchdog on the executions, with its arguments.
pub data Call : Type 0 where
  step : ℕ → StepUpdate → Call
  complete : ℕ → String → String → ExecutionStatus → ℕ → Call
  heartbeat : Execution → String → String → ℕ → Call
  cancel : ℕ → Option AuditActor → ℕ → Call
  recover : ℕ → ℕ → Call
  approval_timeout : ℕ → ℕ → ℕ → ℕ → Call

module _ (guards : ChangeGuards) where
  -- The world after a call, whether it returns or raises.
  unfoldable pub after_call : Call → World → World
  after_call (step execution_id u) w = (update_execution_step execution_id u w).1
  after_call (complete execution_id runner_id claim_token outcome now) w =
      (complete_execution guards execution_id runner_id claim_token outcome now w).1
  after_call (heartbeat seen runner_id claim_token now) w =
      (heartbeat_execution guards seen runner_id claim_token now w).1
  after_call (cancel execution_id actor now) w = (cancel_execution execution_id actor now w).1
  after_call (recover threshold now) w = (recover_stuck_executions guards threshold now w).1
  after_call (approval_timeout execution_id step_id approval_id now) w =
      (fail_execution_for_approval_timeout guards execution_id step_id approval_id now w).1

  -- The worlds that calls lead to.
  pub data Reached (w : World) : World → Type 0 where
    start : Reached w w
    call : {v : World} → Reached w v → (c : Call) → Reached w (after_call c v)

  call-KeepsFinal : (c : Call) (w : World) → KeepsFinal (after_call c w) w
  unfolding after_call
  call-KeepsFinal (step execution_id u) w = update_execution_step-KeepsFinal u w execution_id
  call-KeepsFinal (complete execution_id runner_id claim_token outcome now) w =
      complete_execution-KeepsFinal guards runner_id claim_token outcome now execution_id w
  call-KeepsFinal (heartbeat seen runner_id claim_token now) w =
      heartbeat_execution-KeepsFinal guards seen runner_id claim_token now w
  call-KeepsFinal (cancel execution_id actor now) w =
      cancel_execution-KeepsFinal execution_id actor now w
  call-KeepsFinal (recover threshold now) w =
      recover_stuck_executions-KeepsFinal guards now threshold w
  call-KeepsFinal (approval_timeout execution_id step_id approval_id now) w =
      fail_execution_for_approval_timeout-KeepsFinal guards now execution_id step_id approval_id w

  Reached-KeepsFinal : {w v : World} → Reached w v → KeepsFinal v w
  Reached-KeepsFinal {w} start = KeepsFinal-refl w
  Reached-KeepsFinal (call {v} r c) = KeepsFinal-trans (call-KeepsFinal c v) (Reached-KeepsFinal r)

  -- Once an execution has succeeded, failed or been cancelled, no sequence of step updates,
  -- completions, heartbeats, cancellations and watchdog sweeps, by any callers and with any results,
  -- changes its status or the instants at which it started and finished.
  pub outcome_final :
      (w v : World) (k : ℕ) (e : Execution)
      → Reached w v
      → find_row k w.executions ≡ some e
      → is_outcome e.status ≡ true
      → (f : Execution) × (find_row k v.executions ≡ some f) × SameOutcome f e
  outcome_final w v k e r found done = (Reached-KeepsFinal r).executions k e found done

  -- Once a step has succeeded or failed, no sequence of step updates, completions, heartbeats,
  -- cancellations and watchdog sweeps changes its row at all.
  pub step_final :
      (w v : World) (k : ℕ) (s : ExecutionStep)
      → Reached w v
      → find_row k w.steps ≡ some s
      → step_is_finished s.status ≡ true
      → find_row k v.steps ≡ some s
  step_final w v k s r found done = (Reached-KeepsFinal r).steps k s found done
