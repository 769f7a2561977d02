-- ===== src/Changes/Dispatch.antt =====
-- The expiry of a change's dispatch, and the guard on the runner that carries a change out, in
-- apps/api/apps/changes/services.py.
use Prim.Native.Nat.{ℕ}
use Prim.Native.String.{String}
use mathlib.Core.Bool.{Bool, true, false, ◌||◌, not}
use mathlib.Core.Option.{Option, none, some}
use mathlib.Core.List.{[], ◌∷◌}
use runbook_platform.Prelude.Tests.{ltb, ◌==◌, nat_eq, string_eq, is_some, if◌then◌else◌}
use runbook_platform.Prelude.Tables.{find_row, find_where, update_row}
use runbook_platform.Prelude.Text.{id_text}
use runbook_platform.Prelude.Effects.{ok, err, not_found, ◌>>=◌, pure}
use runbook_platform.Audit.{AuditActor, AuditEvent, actor_or, system_actor, text}
use runbook_platform.Store.{World, Service, emit}
use runbook_platform.Executions.Model.{
  Execution, ExecutionStatus, queued, claimed, cancelled, status_value, execution_row,
}
use runbook_platform.Changes.Model.{
  ChangeStatus, dispatchable, running, expired, ChangeRecord, change_row, ChangeExecutionBinding,
}
use runbook_platform.Changes.Transitions.{transition_change}

abbrev pub is_dispatchable : ChangeStatus → Bool
is_dispatchable dispatchable = true
is_dispatchable _ = false

abbrev pub is_running : ChangeStatus → Bool
is_running running = true
is_running _ = false

unfoldable pub expire_dispatchable_change :
    ChangeRecord → ℕ → Option AuditActor → String → Service (Unit {0})
expire_dispatchable_change change now actor terminal_reason w =
    if is_dispatchable change.status
    then (transition_change change expired (some (actor_or actor (system_actor "Change service")))
            now terminal_reason []
          >>= λ _. pure tt)
        w
    else (ok tt, w)

unfoldable pub binding_of : ℕ → World → Option ChangeExecutionBinding
binding_of execution_id w = find_where (λ b. b.execution_id == execution_id) w.bindings

-- `started_at` is filled only if it is empty.
abbrev pub or_now : Option ℕ → ℕ → Option ℕ
or_now none now = some now
or_now (some t) now = some t

unfoldable pub write_dispatch_cancelled : ℕ → Execution → Execution
write_dispatch_cancelled now e = record e {
  status = cancelled;
  finished_at = some now;
  started_at = or_now e.started_at now;
}

abbrev pub is_unstarted : ExecutionStatus → Bool
is_unstarted queued = true
is_unstarted claimed = true
is_unstarted _ = false

dispatch_cancelled_event : Execution → ChangeRecord → AuditEvent
dispatch_cancelled_event execution change = record {
  organization_id = execution.organization_id;
  actor = system_actor "Change service";
  event_type = "execution.cancelled";
  object_type = "execution";
  object_id = execution.id;
  metadata =
      ("previous_status", text (status_value execution.status))
      ∷ ("new_status", text "cancelled")
      ∷ ("reason", text "change_dispatch_token_expired")
      ∷ ("change_record_id", text (id_text change.id))
      ∷ [];
}

-- The execution of an expired dispatch is cancelled if it is queued or claimed.
unfoldable pub cancel_undispatched : Execution → ChangeRecord → ℕ → World → World
unfolding dispatch_cancelled_event
cancel_undispatched execution change now w =
    if is_unstarted execution.status
    then emit (dispatch_cancelled_event execution change) (record w {
      executions = update_row execution.id (write_dispatch_cancelled now) w.executions;
    })
    else w

-- The binding was never confirmed, and its token has expired.
unfoldable pub is_dispatch_expired : ChangeExecutionBinding → ℕ → Bool
is_dispatch_expired b now = not (is_some b.bound_at || ltb now b.dispatch_token_expires_at)

unfoldable pub expire_bound_dispatch :
    Execution → ChangeExecutionBinding → Option ChangeRecord → ℕ → Service Bool
expire_bound_dispatch execution binding none now w = (err not_found, w)
expire_bound_dispatch execution binding (some change) now w =
    if is_dispatch_expired binding now
    then (expire_dispatchable_change change now (some (system_actor "Change service"))
            "dispatch_token_expired"
          >>= λ _ (v : World). (ok true, cancel_undispatched execution change now v))
        w
    else (ok false, w)

-- `expire_unbound_dispatch_for_execution(execution=, now=)`: true if the claim must skip it.
unfoldable pub expire_unbound_dispatch_for_execution : Execution → ℕ → Service Bool
unfolding expire_bound_dispatch
expire_unbound_dispatch_for_execution execution now w = elim (binding_of execution.id w) [
  | none ↦ (ok false, w)
  | some b ↦ expire_bound_dispatch execution b (find_row b.change_record_id w.changes) now w
]
