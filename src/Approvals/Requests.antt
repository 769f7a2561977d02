-- ===== src/Approvals/Requests.antt =====
-- `request_step_approval` of apps/api/apps/approvals/services.py.
use Prim.Native.Nat.{ℕ, ◌+◌}
use Prim.Native.String.{String}
use mathlib.Core.Bool.{Bool, true, false, ◌&&◌, not}
use mathlib.Core.Option.{Option, none, some}
use mathlib.Core.List.{[], ◌∷◌, ◌++◌}
use runbook_platform.Prelude.Tests.{◌==◌, nat_eq, string_eq, is_some, if◌then◌else◌}
use runbook_platform.Prelude.Tables.{find_row, find_where, update_row}
use runbook_platform.Prelude.Text.{id_text}
use runbook_platform.Prelude.Json.{Json, get_field}
use runbook_platform.Prelude.Effects.{
  Result, ok, err, Error, invalid_state_transition, not_found, integrity_error, type_error, ◌>>=◌,
  ◌>>◌, pure, raise, atomic, modify, raise_if,
}
use runbook_platform.Audit.{AuditEvent, text, instant, actor_from_runner}
use runbook_platform.Store.{World, Service, Message, emit, on_commit}
use runbook_platform.Executions.Model.{
  Execution, execution_row, StepStatus, waiting_for_approval, ExecutionStep, step_row,
}
use runbook_platform.Executions.Events.{emit_step_transition_audit, step_status_changed}
use runbook_platform.Executions.Steps.{check_ownership}
use runbook_platform.Approvals.Model.{ApprovalStatus, SubjectType, ApprovalRequest, approval_row}

abbrev step_is_waiting : StepStatus → Bool
step_is_waiting StepStatus.waiting_for_approval = true
step_is_waiting _ = false

abbrev pub step_is_pending : StepStatus → Bool
step_is_pending StepStatus.pending = true
step_is_pending _ = false

-- `int(step.step_snapshot.get("approvalTimeoutSeconds"))`; the validated snapshot holds a number or
-- nothing, and a value that is neither a number nor a flag counts as refused by `int`.
unfoldable pub timeout_of : Option Json → Result (Option ℕ)
timeout_of none = ok none
timeout_of (some Json.null) = ok none
timeout_of (some (Json.num n)) = ok (some n)
timeout_of (some (Json.bool b)) = ok (some (if b then 1 else 0))
timeout_of (some _) = err type_error

abbrev deadline : Option ℕ → ℕ → Option ℕ
deadline none now = none
deadline (some seconds) now = some (now + seconds)

abbrev is_step : ℕ → Option ℕ → Bool
is_step k none = false
is_step k (some j) = j == k

-- `ApprovalRequest.objects.get(step=step)`: the step is a unique column.
unfoldable pub request_of : ℕ → World → Option ApprovalRequest
request_of step_id w = find_where (λ (a : ApprovalRequest). is_step step_id a.step_id) w.approvals

-- The arguments of `request_step_approval` beside the rows, and the clock and the fresh key.
pub record ApprovalCall : Type 0 where
  pub runner_id : String
  pub claim_token : String
  pub policy_driven : Bool
  pub now : ℕ
  pub fresh_id : ℕ

unfoldable pub new_request : ApprovalCall → Execution → ExecutionStep → Option ℕ → ApprovalRequest
new_request c e s timeout_seconds = record {
  id = c.fresh_id;
  organization_id = e.organization_id;
  subject_type = SubjectType.execution_step;
  subject_id = some s.id;
  execution_id = some e.id;
  step_id = some s.id;
  status = ApprovalStatus.pending;
  requested_by_runner_id = c.runner_id;
  requested_at = c.now;
  timeout_seconds = timeout_seconds;
  expires_at = deadline timeout_seconds c.now;
  resolved_at = none;
}

abbrev pub write_waiting : ExecutionStep → ExecutionStep
write_waiting s = record s { status = waiting_for_approval }

requested_event : ApprovalCall → Execution → ExecutionStep → ApprovalRequest → AuditEvent
requested_event c e s a = record {
  organization_id = e.organization_id;
  actor = actor_from_runner c.runner_id;
  event_type = "approval.requested";
  object_type = "approval_request";
  object_id = a.id;
  metadata =
      ("execution_id", text (id_text e.id))
      ∷ ("step_id", text (id_text s.id))
      ∷ ("timeout_seconds", instant a.timeout_seconds)
      ∷ ("expires_at", instant a.expires_at)
      ∷ [];
}

-- A request is created once for a step.
unfoldable pub create_request : ApprovalRequest → ℕ → Service (Unit {0})
create_request a step_id w =
    if is_some (request_of step_id w)
    then (err integrity_error, w)
    else (ok tt, record w { approvals = w.approvals ++ a ∷ [] })

unfoldable pub begin_approval :
    ApprovalCall → Execution → ExecutionStep → Result (Option ℕ) → Service (ApprovalRequest × Bool)
unfolding requested_event
begin_approval c e s (err error) = λ w. (err error, w)
begin_approval c e s (ok timeout_seconds) = do
  let a = new_request c e s timeout_seconds
  create_request a s.id
  modify (λ w.
      emit (requested_event c e s a) (
        emit_step_transition_audit e (write_waiting s) c.runner_id s.status waiting_for_approval w))
  pure (a, true)

-- A step that is not in the approval flow yet.
unfoldable pub start_approval :
    ApprovalCall → Execution → ExecutionStep → Service (ApprovalRequest × Bool)
start_approval c e s =
    if not (step_is_pending s.status)
    then raise (invalid_state_transition "invalid_state_transition")
    else if not s.requires_approval && not c.policy_driven
    then raise (invalid_state_transition "approval_not_required_for_step")
    else (do
      modify (λ w. record w { steps = update_row s.id write_waiting w.steps })
      begin_approval c e s (timeout_of (get_field "approvalTimeoutSeconds" s.step_snapshot)))

unfoldable pub reuse_or_start :
    ApprovalCall
    → Execution
    → ExecutionStep
    → Option ApprovalRequest
    → Service (ApprovalRequest × Bool)
reuse_or_start c e s (some existing) = pure (existing, false)
reuse_or_start c e s none = start_approval c e s

abbrev pub reusable : ExecutionStep → World → Option ApprovalRequest
reusable s w = if step_is_waiting s.status then request_of s.id w else none

unfoldable pub check_request : ApprovalCall → Execution → ExecutionStep → Option Error
check_request c e s =
    if not (s.execution_id == e.id)
    then some (invalid_state_transition "step_execution_mismatch")
    else check_ownership e c.runner_id c.claim_token

unfoldable pub announce_request : Execution → ExecutionStep → ApprovalRequest × Bool → World → World
announce_request e s (a, false) w = w
announce_request e s (a, true) w =
    on_commit (Message.notify "approval.requested" e.organization_id)
      (on_commit (step_status_changed e (write_waiting s)) w)

-- The transaction and the messages after it; a reused request sends none.
unfoldable pub request_found :
    ApprovalCall → Option Execution → Option ExecutionStep → Service (ApprovalRequest × Bool)
unfolding announce_request
request_found c (some e) (some s) = do
  r ←
      atomic
        (do raise_if (check_request c e s); λ (w : World). reuse_or_start c e s (reusable s w) w)
  modify (announce_request e s r)
  pure r
request_found c _ _ = λ w. (err not_found, w)

-- `request_step_approval(execution=, step=, ...)`: the request, and whether it was created.
unfoldable pub request_step_approval : ℕ → ℕ → ApprovalCall → Service (ApprovalRequest × Bool)
unfolding request_found
request_step_approval execution_id step_id c w =
    request_found c (find_row execution_id w.executions) (find_row step_id w.steps) w
