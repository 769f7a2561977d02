-- ===== src/Executions/Steps.antt =====
-- Step updates by the runner: `update_execution_step` of apps/api/apps/executions/services.py.
use Prim.Native.Nat.{ℕ}
use Prim.Native.String.{String}
use mathlib.Core.Bool.{Bool, true, false, ◌&&◌, not}
use mathlib.Core.Option.{Option, none, some}
use runbook_platform.Prelude.Tests.{◌==◌, nat_eq, string_eq, if◌then◌else◌}
use runbook_platform.Prelude.Tables.{find_row, update_row}
use runbook_platform.Prelude.Effects.{ok, err, Error, invalid_state_transition, not_found}
use runbook_platform.Store.{World, Service, on_commit}
use runbook_platform.Executions.Model.{
  Execution, execution_row, ExecutionStatus, claimed, StepStatus, pending, waiting_for_approval,
  running, succeeded, failed, ExecutionStep, step_row, SandboxResult, ℤ,
}
use runbook_platform.Executions.Events.{
  emit_step_transition_audit, step_status_changed, execution_status_changed, notify_execution,
  step_event_type,
}
use runbook_platform.Changes.Completion.{token_text}

-- `_validate_runner_ownership`: the check that fails, if one does.
unfoldable pub check_ownership : Execution → String → String → Option Error
check_ownership execution runner_id claim_token =
    if not (execution.claimed_by_runner_id == runner_id)
    then some (invalid_state_transition "runner_ownership_mismatch")
    else if not (token_text execution.claim_token == claim_token)
    then some (invalid_state_transition "claim_token_mismatch")
    else none

-- _VALID_STEP_TRANSITIONS
unfoldable pub valid_step_transition : StepStatus → StepStatus → Bool
valid_step_transition pending failed = true
valid_step_transition waiting_for_approval failed = true
valid_step_transition running succeeded = true
valid_step_transition running failed = true
valid_step_transition _ _ = false

-- _VALID_STEP_START_TRANSITIONS
unfoldable pub valid_step_start : StepStatus → StepStatus → Bool
valid_step_start pending running = true
valid_step_start pending failed = true
valid_step_start waiting_for_approval running = true
valid_step_start waiting_for_approval failed = true
valid_step_start _ _ = false

-- The arguments of `update_execution_step` beside the execution, and the clock.
pub record StepUpdate : Type 0 where
  pub step_id : ℕ
  pub runner_id : String
  pub claim_token : String
  pub new_status : StepStatus
  pub started_at : Option ℕ
  pub finished_at : Option ℕ
  pub exit_code : Option ℤ
  pub error_message : String
  pub sandbox : SandboxResult
  pub allow_running : Bool
  pub now : ℕ

abbrev pub step_is_running : StepStatus → Bool
step_is_running running = true
step_is_running _ = false

abbrev pub step_is_finished : StepStatus → Bool
step_is_finished succeeded = true
step_is_finished failed = true
step_is_finished _ = false

unfoldable pub is_allowed : StepUpdate → StepStatus → Bool
unfolding valid_step_transition valid_step_start
is_allowed u status =
    if u.allow_running
    then valid_step_start status u.new_status
    else valid_step_transition status u.new_status

abbrev or_else {ℓ} : {A : Type ℓ} → Option A → Option A → Option A
or_else none b = b
or_else (some a) b = some a

-- The columns that the update writes.
unfoldable pub write_step : StepUpdate → ExecutionStep → ExecutionStep
write_step u s =
    let moved = record s { status = u.new_status } in
    if step_is_running u.new_status
    then record moved { started_at = or_else u.started_at (some u.now) }
    else if step_is_finished u.new_status
    then record moved {
      finished_at = or_else u.finished_at (some u.now);
      exit_code = or_else u.exit_code s.exit_code;
      error_message = if u.error_message == "" then s.error_message else u.error_message;
      sandbox = u.sandbox;
    }
    else moved

abbrev pub execution_is_claimed : ExecutionStatus → Bool
execution_is_claimed claimed = true
execution_is_claimed _ = false

-- The execution starts with the first step that runs.
unfoldable pub starts_execution : StepUpdate → Execution → Bool
starts_execution u e = execution_is_claimed e.status && step_is_running u.new_status

abbrev keep_or : Option ℕ → Option ℕ → Option ℕ
keep_or none t = t
keep_or (some s) t = some s

unfoldable pub write_started : Option ℕ → Execution → Execution
write_started step_started_at e = record e {
  status = ExecutionStatus.running;
  started_at = keep_or e.started_at step_started_at;
}

abbrev pub started_or_same : StepUpdate → ExecutionStep → Execution → Execution
started_or_same u step e = if starts_execution u e then write_started step.started_at e else e

abbrev notify_step : Option String → Execution → World → World
notify_step none e w = w
notify_step (some event_type) e w = on_commit (notify_execution event_type e) w

abbrev announced : StepStatus → Option String
announced succeeded = none
announced s = step_event_type s

-- The messages after the transaction.
pub announce : StepUpdate → Bool → Execution → ExecutionStep → World → World
announce u started e step w =
    let w₁ = on_commit (step_status_changed e step) w in
    let w₂ =
      if started
      then on_commit (notify_execution "execution.started" e)
          (on_commit (execution_status_changed e) w₁)
      else w₁ in
    notify_step (announced u.new_status) e w₂

-- The writes of the transaction, and the messages.
unfoldable pub apply_step_update : StepUpdate → Execution → ExecutionStep → World → World
unfolding announce
apply_step_update u e s w =
    let s' = write_step u s in
    let e' = started_or_same u s' e in
    announce u (starts_execution u e) e' s' (
      emit_step_transition_audit e' s' u.runner_id s.status u.new_status (record w {
        steps = update_row s.id (write_step u) w.steps;
        executions = update_row e.id (started_or_same u s') w.executions;
      }))

abbrev in_execution : ℕ → Option ExecutionStep → Option ExecutionStep
in_execution execution_id none = none
in_execution execution_id (some s) = if s.execution_id == execution_id then some s else none

-- `objects.get(pk=step_id, execution=execution)`
unfoldable pub step_of : ℕ → ℕ → World → Option ExecutionStep
step_of execution_id step_id w = in_execution execution_id (find_row step_id w.steps)

unfoldable pub update_found_step :
    StepUpdate → Execution → Option ExecutionStep → Service ExecutionStep
update_found_step u e none w = (err (invalid_state_transition "step_not_found"), w)
update_found_step u e (some s) w =
    if is_allowed u s.status
    then (ok (write_step u s), apply_step_update u e s w)
    else (err (invalid_state_transition "invalid_state_transition"), w)

unfoldable pub update_step_of : StepUpdate → Option Execution → Service ExecutionStep
update_step_of u none w = (err not_found, w)
update_step_of u (some e) w = elim (check_ownership e u.runner_id u.claim_token) [
  | some error ↦ (err error, w)
  | none ↦ update_found_step u e (step_of e.id u.step_id w) w
]

-- `update_execution_step(execution=, step_id=, ...)`. Each raise comes before the first write, so
-- the transaction has nothing to roll back.
unfoldable pub update_execution_step : ℕ → StepUpdate → Service ExecutionStep
unfolding update_step_of update_found_step
update_execution_step execution_id u w = update_step_of u (find_row execution_id w.executions) w
