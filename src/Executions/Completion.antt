-- ===== src/Executions/Completion.antt =====
-- `complete_execution`, `heartbeat_execution` and `cancel_execution` of
-- apps/api/apps/executions/services.py.
use Prim.Native.Nat.{ℕ}
use Prim.Native.String.{String}
use mathlib.Core.Bool.{Bool, true, false, ◌&&◌, not}
use mathlib.Core.Option.{Option, none, some}
use mathlib.Core.List.{[], ◌∷◌}
use runbook_platform.Prelude.Tests.{◌==◌, nat_eq, string_eq, is_some, if◌then◌else◌}
use runbook_platform.Prelude.Tables.{find_row, update_row, update_where}
use runbook_platform.Prelude.Effects.{
  Result, ok, err, Error, invalid_state_transition, not_found, atomic, ◌>>=◌, ◌>>◌, raise_if,
  require,
}
use runbook_platform.Audit.{AuditActor, actor_from_runner, system_actor, actor_or, text}
use runbook_platform.Store.{World, Service, Message, emit, on_commit}
use runbook_platform.Executions.Model.{
  Execution, execution_row, ExecutionStatus, queued, claimed, running, succeeded, failed, cancelled,
  status_value,
}
use runbook_platform.Executions.Events.{
  execution_event, transition_entries, execution_status_changed, stream_closed, notify_execution,
}
use runbook_platform.Executions.Steps.{check_ownership}
use runbook_platform.Runners.Model.{LeaseStatus}
use runbook_platform.Runners.Scheduling.{lease_is_active}
use runbook_platform.Changes.Dispatch.{or_now, binding_of}
use runbook_platform.Changes.Completion.{
  ChangeGuards, assert_execution_change_binding_ready, enforce_emergency_expiry_for_execution,
  handle_bound_execution_completed,
}

abbrev pub is_underway : ExecutionStatus → Bool
is_underway claimed = true
is_underway running = true
is_underway _ = false

abbrev pub is_outcome : ExecutionStatus → Bool
is_outcome succeeded = true
is_outcome failed = true
is_outcome cancelled = true
is_outcome _ = false

-- The audit event and the notification of a completion.
abbrev pub completion_event_type : ExecutionStatus → String
completion_event_type succeeded = "execution.completed"
completion_event_type cancelled = "execution.cancelled"
completion_event_type _ = "execution.failed"

-- The columns that the end of an execution writes.
unfoldable pub write_finished : ExecutionStatus → ℕ → Execution → Execution
write_finished outcome now e = record e {
  status = outcome;
  finished_at = some now;
  started_at = or_now e.started_at now;
}

-- The checks of `complete_execution` before the change's guard, in order.
unfoldable pub check_completion : Execution → String → String → ExecutionStatus → Option Error
check_completion e runner_id claim_token outcome = elim (check_ownership e runner_id claim_token) [
  | some error ↦ some error
  | none ↦
      if not (is_underway e.status)
      then some (invalid_state_transition "invalid_state_transition")
      else if not (is_outcome outcome)
      then some (invalid_state_transition "invalid_state_transition")
      else none
]

-- The writes inside the transaction.
unfoldable pub save_completion : Execution → String → ExecutionStatus → ℕ → World → World
save_completion e runner_id outcome now w =
    emit
      (execution_event e (actor_from_runner runner_id) (completion_event_type outcome)
        (transition_entries (status_value e.status) (status_value outcome)))
      (record w { executions = update_row e.id (write_finished outcome now) w.executions })

-- The active lease of the execution is closed.
unfoldable pub close_lease : ℕ → LeaseStatus → String → ℕ → World → World
close_lease execution_id status reason now w = record w {
  leases =
      update_where (λ l. (l.execution_id == execution_id) && lease_is_active l.status)
        (λ l. record l { status = status; released_at = some now; release_reason = reason })
        w.leases;
}

-- The messages after the transaction.
unfoldable pub announce_end : String → Execution → World → World
announce_end event_type e w =
    on_commit (notify_execution event_type e)
      (on_commit (stream_closed e) (on_commit (execution_status_changed e) w))

-- A failure of the change's hook is logged for an execution that carries out no change, and raised
-- again for one that does.
unfoldable pub after_hook : Execution → Result (Unit {0}) → Service Execution
after_hook e (ok _) w = (ok e, w)
after_hook e (err error) w = if is_some (binding_of e.id w) then (err error, w) else (ok e, w)

unfoldable pub locked : ℕ → Service Execution
locked execution_id w = require not_found (find_row execution_id w.executions) w

module _ (guards : ChangeGuards) where
  -- The transaction of `complete_execution`: the row as it is written.
  unfoldable pub finish_locked : ℕ → String → String → ExecutionStatus → ℕ → Service Execution
  unfolding locked
  finish_locked execution_id runner_id claim_token outcome now = do
    e ← locked execution_id
    raise_if (check_completion e runner_id claim_token outcome)
    assert_execution_change_binding_ready guards e runner_id claim_token now
    λ (w : World). (ok (write_finished outcome now e), save_completion e runner_id outcome now w)

  -- What follows the transaction: messages, the lease, and the change's lifecycle.
  unfoldable pub settle_completion : ExecutionStatus → ℕ → Execution → Service Execution
  settle_completion outcome now e w =
      let (r, w') = handle_bound_execution_completed guards e now (
        close_lease e.id LeaseStatus.released (status_value outcome) now
          (announce_end (completion_event_type outcome) e w)) in
      after_hook e r w'

  unfoldable pub complete_execution : ℕ → String → String → ExecutionStatus → ℕ → Service Execution
  complete_execution execution_id runner_id claim_token outcome now = do
    e ← atomic (finish_locked execution_id runner_id claim_token outcome now)
    settle_completion outcome now e

  -- `heartbeat_execution`: `seen` is the caller's object; only the instant is saved.
  unfoldable pub heartbeat_execution : Execution → String → String → ℕ → Service Execution
  heartbeat_execution seen runner_id claim_token now w =
      if not (is_underway seen.status)
      then (err (invalid_state_transition "invalid_state_transition"), w)
      else (do
        raise_if (check_ownership seen runner_id claim_token)
        enforce_emergency_expiry_for_execution guards seen now
        λ (v : World). (
          ok (record seen { last_heartbeat_at = some now }),
          record v {
            executions =
                update_row seen.id (λ e. record e { last_heartbeat_at = some now }) v.executions;
          },
        ))
          w

-- `audit_actor.actor_label or str(audit_actor.actor_id or "system")`
unfoldable pub requester : AuditActor → String
requester actor =
    if not (actor.actor_label == "")
    then actor.actor_label
    else if not (actor.actor_id == "")
    then actor.actor_id
    else "system"

unfoldable pub write_cancel_request : AuditActor → ℕ → Execution → Execution
write_cancel_request actor now e = record e {
  cancel_requested_at = some now;
  cancel_requested_by = requester actor;
}

abbrev write_cancelled : Execution → Execution
write_cancelled e = record e { status = cancelled }

cancel_queued : Execution → AuditActor → World → World
cancel_queued e actor w = announce_end "execution.cancelled" (write_cancelled e) (
    emit
      (execution_event e actor "execution.cancelled"
        (transition_entries (status_value e.status) (status_value cancelled)))
      (record w { executions = update_row e.id write_cancelled w.executions }))

request_cancel : Execution → AuditActor → ℕ → World → World
request_cancel e actor now w =
    on_commit (Message.stream e.id "execution.cancel_requested" (status_value e.status)) (
      emit
        (execution_event e actor "execution.cancel_requested" (
          ("previous_status", text (status_value e.status))
          ∷ ("cancel_requested_by", text (requester actor))
          ∷ []))
        (record w { executions = update_row e.id (write_cancel_request actor now) w.executions }))

unfoldable pub cancel_by_status : ExecutionStatus → Execution → AuditActor → ℕ → Service Execution
unfolding cancel_queued request_cancel
cancel_by_status queued e actor now w = (ok (write_cancelled e), cancel_queued e actor w)
cancel_by_status claimed e actor now w =
    (ok (write_cancel_request actor now e), request_cancel e actor now w)
cancel_by_status running e actor now w =
    (ok (write_cancel_request actor now e), request_cancel e actor now w)
cancel_by_status _ e actor now w = (err (invalid_state_transition "invalid_state_transition"), w)

unfoldable pub cancel_execution : ℕ → Option AuditActor → ℕ → Service Execution
unfolding locked
cancel_execution execution_id actor now = do
  e ← locked execution_id
  cancel_by_status e.status e (actor_or actor (system_actor "Django system")) now
