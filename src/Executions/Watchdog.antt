-- ===== src/Executions/Watchdog.antt =====
-- The watchdog of apps/api/apps/executions/services.py: `recover_stuck_executions` and
-- `fail_execution_for_approval_timeout`.
use Prim.Native.Nat.{ℕ, ◌-◌}
use Prim.Native.String.{String}
use mathlib.Core.Bool.{Bool, true, false, ◌&&◌, not}
use mathlib.Core.Option.{Option, none, some}
use mathlib.Core.List.{List, [], ◌∷◌, ◌++◌}
use runbook_platform.Prelude.Tests.{◌==◌, nat_eq, if◌then◌else◌}
use runbook_platform.Prelude.Tables.{find_row, select, count_rows, update_row, update_where}
use runbook_platform.Prelude.Text.{id_text}
use runbook_platform.Prelude.Effects.{ok, err, not_found}
use runbook_platform.Audit.{Value, system_actor, text, number}
use runbook_platform.Store.{World, Service, emit, on_commit}
use runbook_platform.Executions.Model.{
  Execution, execution_row, ExecutionStatus, status_value, StepStatus, waiting_for_approval,
  ExecutionStep, step_row, step_status_value,
}
use runbook_platform.Executions.Events.{
  execution_event, step_event, transition_entries, step_status_changed, execution_status_changed,
  stream_closed, notify_execution,
}
use runbook_platform.Executions.Steps.{step_is_running, step_of}
use runbook_platform.Executions.Completion.{is_underway, write_finished, close_lease}
use runbook_platform.Runners.Model.{LeaseStatus}
use runbook_platform.Runners.Liveness.{is_before}
use runbook_platform.Changes.Completion.{ChangeGuards, handle_bound_execution_completed}

-- The filter of the sweep.
unfoldable pub is_stuck : ℕ → Execution → Bool
is_stuck stale_before e = is_underway e.status && is_before e.last_heartbeat_at stale_before

unfoldable pub runs_in : ℕ → ExecutionStep → Bool
runs_in execution_id s = s.execution_id == execution_id && step_is_running s.status

unfoldable pub write_step_failed : ℕ → String → ExecutionStep → ExecutionStep
write_step_failed now message s = record s {
  status = StepStatus.failed;
  finished_at = some now;
  error_message = message;
}

abbrev heartbeat_message : String
heartbeat_message = "Step marked failed by watchdog: heartbeat timeout"

-- The transaction for one stuck execution.
unfoldable pub fail_stuck : Execution → ℕ → ℕ → World → World
fail_stuck e threshold now w =
    emit
      (execution_event e (system_actor "Django system") "execution.failed" (
        ("reason", text "watchdog_heartbeat_timeout")
        ∷ ("stuck_threshold_seconds", number threshold)
        ∷ ("running_steps_failed", number (count_rows (runs_in e.id) w.steps))
        ∷ transition_entries (status_value e.status) "failed"))
      (record w {
        executions = update_row e.id (write_finished ExecutionStatus.failed now) w.executions;
        steps = update_where (runs_in e.id) (write_step_failed now heartbeat_message) w.steps;
      })

module _ (guards : ChangeGuards) where
  -- A failure of the change's hook is logged, and what it wrote was rolled back.
  unfoldable pub run_hook : Execution → ℕ → World → World
  run_hook e now w = (handle_bound_execution_completed guards e now w).1

  -- One candidate under its lock: skipped if its row is gone or no longer stuck.
  unfoldable pub recover_one : ℕ → ℕ → ℕ → Option Execution → World → List ℕ × World
  recover_one threshold stale_before now none w = ([], w)
  recover_one threshold stale_before now (some e) w =
      if is_stuck stale_before e
      then (
        e.id ∷ [],
        run_hook (write_finished ExecutionStatus.failed now e) now (
            close_lease e.id LeaseStatus.expired "heartbeat_timeout" now
              (fail_stuck e threshold now w)),
      )
      else ([], w)

  unfoldable pub recover_each : ℕ → ℕ → ℕ → List Execution → World → List ℕ × World
  recover_each threshold stale_before now [] w = ([], w)
  recover_each threshold stale_before now (c ∷ rest) w =
      let (recovered, w') = recover_one threshold stale_before now (find_row c.id w.executions) w in
      let (others, w'') = recover_each threshold stale_before now rest w' in
      (recovered ++ others, w'')

  -- `recover_stuck_executions(stuck_threshold_seconds=)`: the ids recovered, in order.
  unfoldable pub recover_stuck_executions : ℕ → ℕ → World → List ℕ × World
  recover_stuck_executions threshold now w =
      let stale_before = now - threshold in
      recover_each threshold stale_before now (select (is_stuck stale_before) w.executions) w

abbrev pub step_is_waiting : StepStatus → Bool
step_is_waiting waiting_for_approval = true
step_is_waiting _ = false

abbrev pub approval_message : String
approval_message = "Step marked failed by watchdog: approval timeout"

abbrev timeout_entries : ℕ → Execution → ExecutionStep → List (String × Value)
timeout_entries approval_id e s =
    ("approval_request_id", text (id_text approval_id))
    ∷ ("execution_id", text (id_text e.id))
    ∷ ("step_id", text (id_text s.id))
    ∷ ("reason", text "watchdog_approval_timeout")
    ∷ ("recovery_source", text "watchdog")
    ∷ []

-- The writes of the transaction, with its three audit events.
unfoldable pub save_approval_timeout : ℕ → Execution → ExecutionStep → ℕ → World → World
save_approval_timeout approval_id e s now w =
    let common = timeout_entries approval_id e s in
    let moved = common ++ transition_entries (status_value e.status) "failed" in
    let actor = system_actor "Django system" in
    emit (execution_event e actor "execution.approval_timeout" moved) (
      emit (execution_event e actor "execution.failed" moved) (
        emit
          (step_event e s actor "execution_step.failed"
            (common ++ transition_entries (step_status_value s.status) "failed"))
          (record w {
            steps = update_row s.id (write_step_failed now approval_message) w.steps;
            executions = update_row e.id (write_finished ExecutionStatus.failed now) w.executions;
          })))

unfoldable pub announce_approval_timeout : Execution → ExecutionStep → World → World
announce_approval_timeout e s w = on_commit (notify_execution "execution.failed" e) (
    on_commit (notify_execution "execution_step.failed" e) (
      on_commit (stream_closed e)
        (on_commit (execution_status_changed e) (on_commit (step_status_changed e s) w))))

module _ (guards : ChangeGuards) where
  unfoldable pub fail_waiting : ℕ → ℕ → Option Execution → Option ExecutionStep → Service Bool
  unfolding announce_approval_timeout
  fail_waiting approval_id now none s w = (err not_found, w)
  fail_waiting approval_id now (some e) none w = (err not_found, w)
  fail_waiting approval_id now (some e) (some s) w =
      if not (is_underway e.status)
      then (ok false, w)
      else if not (step_is_waiting s.status)
      then (ok false, w)
      else (
        ok true,
        run_hook guards (write_finished ExecutionStatus.failed now e) now (
            announce_approval_timeout (write_finished ExecutionStatus.failed now e)
              (write_step_failed now approval_message s)
              (save_approval_timeout approval_id e s now w)),
      )

  -- `fail_execution_for_approval_timeout(execution=, step=, approval_request=, now=)`: true if this
  -- call failed the execution.
  unfoldable pub fail_execution_for_approval_timeout : ℕ → ℕ → ℕ → ℕ → Service Bool
  unfolding fail_waiting
  fail_execution_for_approval_timeout execution_id step_id approval_id now w =
      fail_waiting approval_id now (find_row execution_id w.executions)
        (step_of execution_id step_id w) w
