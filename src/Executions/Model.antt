-- ===== src/Executions/Model.antt =====
-- apps/api/apps/executions/models.py: executions and their steps.
use Prim.Native.Nat.{ℕ}
use Prim.Native.String.{String}
use mathlib.Core.Bool.{Bool}
use mathlib.Core.Option.{Option}
use runbook_platform.Prelude.Tables.{Row}
use runbook_platform.Prelude.Json.{Json}

pub data ExecutionStatus : Type 0 where
  queued claimed running succeeded failed cancelled : ExecutionStatus

abbrev pub status_value : ExecutionStatus → String
status_value queued = "queued"
status_value claimed = "claimed"
status_value running = "running"
status_value succeeded = "succeeded"
status_value failed = "failed"
status_value cancelled = "cancelled"

pub data ExecutionMode : Type 0 where
  live dry_run : ExecutionMode

pub record Execution : Type 0 where
  pub id : ℕ
  pub organization_id : ℕ
  pub workflow_id : ℕ
  pub workflow_version : ℕ
  pub workflow_snapshot : Json
  pub workflow_snapshot_hash_sha256 : String
  pub execution_mode : ExecutionMode
  pub status : ExecutionStatus
  pub created_at : ℕ
  pub started_at : Option ℕ
  pub finished_at : Option ℕ
  pub claimed_by_runner_id : String
  pub claim_token : Option String
  pub claimed_at : Option ℕ
  pub last_heartbeat_at : Option ℕ
  pub runner_pool_key : String
  pub cancel_requested_at : Option ℕ
  pub cancel_requested_by : String

pub data StepStatus : Type 0 where
  pending waiting_for_approval running succeeded failed skipped cancelled : StepStatus

abbrev pub step_status_value : StepStatus → String
step_status_value pending = "pending"
step_status_value waiting_for_approval = "waiting_for_approval"
step_status_value running = "running"
step_status_value succeeded = "succeeded"
step_status_value failed = "failed"
step_status_value skipped = "skipped"
step_status_value cancelled = "cancelled"

-- A process's exit code may be negative: `negsuc n` is -(n + 1).
pub data ℤ : Type 0 where
  pos : ℕ → ℤ
  negsuc : ℕ → ℤ

-- The columns that a runner's report of a finished step fills.
pub record SandboxResult : Type 0 where
  pub failure_kind : String
  pub timed_out : Bool
  pub was_cancelled : Bool
  pub sandbox_provider : String
  pub sandbox_run_id : String
  pub command_sha256 : String
  pub result_metadata : Json

pub record ExecutionStep : Type 0 where
  pub id : ℕ
  pub execution_id : ℕ
  pub position : ℕ
  pub step_key : String
  pub name : String
  pub step_type : String
  pub risk_level : String
  pub command : String
  pub requires_approval : Bool
  pub step_snapshot : Json
  pub status : StepStatus
  pub started_at : Option ℕ
  pub finished_at : Option ℕ
  pub exit_code : Option ℤ
  pub error_message : String
  pub sandbox : SandboxResult

instance abbrev pub execution_row : Row Execution
execution_row = record { row_id = λ e. e.id }

instance abbrev pub step_row : Row ExecutionStep
step_row = record { row_id = λ s. s.id }
