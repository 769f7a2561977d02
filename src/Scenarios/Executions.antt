-- ===== src/Scenarios/Executions.antt =====
-- Executions of apps/api/apps/executions on which the theorems are applied.
use Prim.Native.Nat.{◌-◌}
use mathlib.Core.Path.{◌≡◌, refl}
use mathlib.Core.Bool.{false}
use mathlib.Core.Option
use mathlib.Core.Option.{Option, none, some}
use mathlib.Core.List.{[], ◌∷◌}
use runbook_platform.Prelude.Json.{Json}
use runbook_platform.Prelude.Tables.{find_row, find_where, update_row}
use runbook_platform.Prelude.Effects.{ok, err, Error}
use runbook_platform.Store.{World, empty_world}
use runbook_platform.Changes.Completion.{
  ChangeGuards, assert_execution_change_binding_ready, handle_bound_execution_completed,
}
use runbook_platform.Changes.Frame.{SameExecutions-refl}
use runbook_platform.Changes.Dispatch.{binding_of}
use runbook_platform.Runners.Model.{pool_row, runner_row}
use runbook_platform.Executions.Model.{
  Execution, execution_row, ExecutionStatus, ExecutionMode, ExecutionStep, step_row, StepStatus,
  SandboxResult,
}
use runbook_platform.Executions.Steps.{StepUpdate, check_ownership, update_execution_step}
use runbook_platform.Executions.Completion.{
  write_finished, complete_execution, locked, finish_locked, check_completion, save_completion,
  settle_completion, after_hook, close_lease, announce_end,
}
use runbook_platform.Executions.Finality.{SameOutcome}
use runbook_platform.Executions.History.{Call, Reached, after_call, outcome_final, step_final}
use runbook_platform.Executions.Once.{Answer, update_execution_step-Answer}
use runbook_platform.Executions.Watchdog.{recover_stuck_executions}
use runbook_platform.Executions.Sweep.{failed_if_stuck, recover_stuck_executions-rows}
use runbook_platform.Executions.Completed.{Completed, complete_execution-Completed}
use runbook_platform.Executions.Ended.{Followed, complete_once}
use runbook_platform.Prelude.Keys.{HasKeys}
use runbook_platform.Runners.Scheduling.{schedule_execution_claim}
use runbook_platform.Scenarios.Fleet.{idle_runner}

-- Change services that find nothing to do.
abbrev pub quiet_guards : ChangeGuards
quiet_guards = record {
  enforce_emergency_expiry = λ c now w. (ok tt, w);
  validate_request_integrity = λ c w. (ok tt, w);
  end_active_breakglass_sessions = λ c reason w. (ok tt, w);
  recompute_verification_state = λ c w. (ok tt, w);
  verification_required = λ c. false;
  same_enforce = λ c now w. SameExecutions-refl w;
  same_validate = λ c w. SameExecutions-refl w;
  same_end = λ c reason w. SameExecutions-refl w;
  same_recompute = λ c w. SameExecutions-refl w;
}

abbrev pub running_execution : Execution
running_execution = record {
  id = 1;
  organization_id = 10;
  workflow_id = 5;
  workflow_version = 2;
  workflow_snapshot = Json.null;
  workflow_snapshot_hash_sha256 = "";
  execution_mode = ExecutionMode.live;
  status = ExecutionStatus.running;
  created_at = 100;
  started_at = some 110;
  finished_at = none;
  claimed_by_runner_id = "7";
  claim_token = some "token";
  claimed_at = some 105;
  last_heartbeat_at = some 120;
  runner_pool_key = "default";
  cancel_requested_at = none;
  cancel_requested_by = "";
}

abbrev failed_execution : Execution
failed_execution = record running_execution {
  id = 2;
  status = ExecutionStatus.failed;
  finished_at = some 130;
}

abbrev no_result : SandboxResult
no_result = record {
  failure_kind = "";
  timed_out = false;
  was_cancelled = false;
  sandbox_provider = "";
  sandbox_run_id = "";
  command_sha256 = "";
  result_metadata = Json.null;
}

abbrev pub running_step : ExecutionStep
running_step = record {
  id = 3;
  execution_id = 1;
  position = 1;
  step_key = "restart";
  name = "Restart";
  step_type = "command";
  risk_level = "low";
  command = "systemctl restart app";
  requires_approval = false;
  step_snapshot = Json.null;
  status = StepStatus.running;
  started_at = some 111;
  finished_at = none;
  exit_code = none;
  error_message = "";
  sandbox = no_result;
}

abbrev pub finished_step : ExecutionStep
finished_step = record running_step {
  id = 4;
  execution_id = 2;
  status = StepStatus.failed;
  finished_at = some 129;
}

abbrev busy_world : World
busy_world = record empty_world {
  executions = running_execution ∷ failed_execution ∷ [];
  steps = running_step ∷ finished_step ∷ [];
}

-- The runner finishes its step, then the watchdog finds the execution without a heartbeat.
abbrev step_report : StepUpdate
step_report = record {
  step_id = 3;
  runner_id = "7";
  claim_token = "token";
  new_status = StepStatus.succeeded;
  started_at = none;
  finished_at = none;
  exit_code = none;
  error_message = "";
  sandbox = no_result;
  allow_running = false;
  now = 140;
}

abbrev after_report : World
after_report = after_call quiet_guards (Call.step 1 step_report) busy_world

abbrev after_sweep : World
after_sweep = after_call quiet_guards (Call.recover 60 500) after_report

swept : Reached quiet_guards busy_world after_sweep
swept = Reached.call (Reached.call Reached.start (Call.step 1 step_report)) (Call.recover 60 500)

outcome_final_example :
    (f : Execution) × (find_row 2 after_sweep.executions ≡ some f) × SameOutcome f failed_execution
unfolding find_row
outcome_final_example =
    outcome_final quiet_guards busy_world after_sweep 2 failed_execution swept refl refl

step_final_example : find_row 4 after_sweep.steps ≡ some finished_step
unfolding find_row
step_final_example = step_final quiet_guards busy_world after_sweep 4 finished_step swept refl refl

abbrev completed_execution : Execution
completed_execution = write_finished ExecutionStatus.succeeded 150 running_execution

abbrev completed_world : World
completed_world =
    (complete_execution quiet_guards 1 "7" "token" ExecutionStatus.succeeded 150 busy_world).1

completes :
    (complete_execution quiet_guards 1 "7" "token" ExecutionStatus.succeeded 150 busy_world).0
    ≡ ok completed_execution
unfolding complete_execution finish_locked locked find_row check_completion settle_completion
    check_ownership assert_execution_change_binding_ready binding_of find_where after_hook
    handle_bound_execution_completed close_lease announce_end save_completion
completes = refl

completed_keys : HasKeys completed_world.executions
unfolding complete_execution finish_locked locked find_row check_completion settle_completion
    check_ownership assert_execution_change_binding_ready binding_of find_where after_hook
    handle_bound_execution_completed close_lease announce_end save_completion HasKeys update_row
    write_finished
completed_keys = (refl, (refl, tt))

-- A runner asks for work, and the watchdog sweeps.
abbrev later_world : World
later_world =
    after_call quiet_guards (Call.recover 60 500)
      (schedule_execution_claim idle_runner 5 400 "other" completed_world).1

complete_once_example :
    (error : Error) × (complete_execution quiet_guards 1 "7" "token" ExecutionStatus.failed 600
        later_world
      ≡ (err error, later_world))
complete_once_example =
    complete_once quiet_guards 1 "7" "token" ExecutionStatus.succeeded 150 "7" "token"
      ExecutionStatus.failed 600 busy_world later_world completed_execution completes
      (Followed.call (Followed.claim Followed.start completed_keys idle_runner 5 400 "other")
        (Call.recover 60 500))

complete_execution-Completed_example :
    Completed quiet_guards 1 "7" "token" ExecutionStatus.succeeded 150 completed_execution
      completed_world busy_world
complete_execution-Completed_example =
    complete_execution-Completed quiet_guards 1 "7" "token" ExecutionStatus.succeeded 150 busy_world
      completed_execution completes

update_execution_step-Answer_example :
    Answer 1 step_report busy_world (update_execution_step 1 step_report busy_world)
update_execution_step-Answer_example = update_execution_step-Answer 1 step_report busy_world

recover_stuck_executions-rows_example :
    find_row 1 (recover_stuck_executions quiet_guards 60 500 busy_world).1.executions
    ≡ Option.map (failed_if_stuck (500 - 60) 500) (find_row 1 busy_world.executions)
recover_stuck_executions-rows_example =
    recover_stuck_executions-rows quiet_guards 60 500 1 busy_world
