-- ===== src/Executions/Events.antt =====
-- The audit events, stream events and notifications of apps/api/apps/executions/services.py. An
-- event keeps the entries of its metadata that name the transition and its cause.
use Prim.Native.String.{String}
use mathlib.Core.Option.{Option, none, some}
use mathlib.Core.List.{List, [], ◌∷◌}
use runbook_platform.Prelude.Text.{id_text}
use runbook_platform.Audit.{AuditActor, AuditEvent, Value, actor_from_runner, text, number}
use runbook_platform.Store.{World, emit, Message, stream, notify}
use runbook_platform.Executions.Model.{
  Execution, status_value, ExecutionStep, StepStatus, waiting_for_approval, running, succeeded,
  failed, step_status_value,
}

abbrev pub execution_event : Execution → AuditActor → String → List (String × Value) → AuditEvent
execution_event execution actor event_type metadata = record {
  organization_id = execution.organization_id;
  actor = actor;
  event_type = event_type;
  object_type = "execution";
  object_id = execution.id;
  metadata = metadata;
}

abbrev pub transition_entries : String → String → List (String × Value)
transition_entries previous new = ("previous_status", text previous) ∷ ("new_status", text new) ∷ []

abbrev pub step_event :
    Execution → ExecutionStep → AuditActor → String → List (String × Value) → AuditEvent
step_event execution step actor event_type metadata = record {
  organization_id = execution.organization_id;
  actor = actor;
  event_type = event_type;
  object_type = "execution_step";
  object_id = step.id;
  metadata = metadata;
}

-- `event_type_by_status`
abbrev pub step_event_type : StepStatus → Option String
step_event_type waiting_for_approval = some "execution_step.waiting_for_approval"
step_event_type running = some "execution_step.started"
step_event_type succeeded = some "execution_step.succeeded"
step_event_type failed = some "execution_step.failed"
step_event_type _ = none

abbrev emit_step :
    Execution → ExecutionStep → String → StepStatus → StepStatus → Option String → World → World
emit_step execution step runner_id previous new none w = w
emit_step execution step runner_id previous new (some event_type) w =
    emit
      (step_event execution step (actor_from_runner runner_id) event_type (
        ("execution_id", text (id_text execution.id))
        ∷ ("step_key", text step.step_key)
        ∷ ("position", number step.position)
        ∷ transition_entries (step_status_value previous) (step_status_value new)))
      w

-- `_emit_step_transition_audit`
unfoldable pub emit_step_transition_audit :
    Execution → ExecutionStep → String → StepStatus → StepStatus → World → World
emit_step_transition_audit execution step runner_id previous new =
    emit_step execution step runner_id previous new (step_event_type new)

-- `_emit_step_status_changed_event`
abbrev pub step_status_changed : Execution → ExecutionStep → Message
step_status_changed execution step =
    stream execution.id "step.status_changed" (step_status_value step.status)

abbrev pub execution_status_changed : Execution → Message
execution_status_changed execution =
    stream execution.id "execution.status_changed" (status_value execution.status)

abbrev pub stream_closed : Execution → Message
stream_closed execution = stream execution.id "stream.closed" (status_value execution.status)

abbrev pub notify_execution : String → Execution → Message
notify_execution event_type execution = notify event_type execution.organization_id
