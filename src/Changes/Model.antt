-- ===== src/Changes/Model.antt =====
-- The change record of apps/api/apps/changes/models.py: its status and the fields that the
-- lifecycle and its callers read or write. Instants are numbers of seconds.
use Prim.Native.Nat.{ℕ}
use Prim.Native.String.{String}
use mathlib.Core.Option.{Option}
use runbook_platform.Prelude.Tables.{Row}

pub data ChangeStatus : Type 0 where
  draft pending_approval approved scheduled dispatchable running : ChangeStatus
  verification_pending verification_failed verified closed : ChangeStatus
  rejected canceled expired : ChangeStatus

-- The stored text of a status.
abbrev pub status_value : ChangeStatus → String
status_value draft = "draft"
status_value pending_approval = "pending_approval"
status_value approved = "approved"
status_value scheduled = "scheduled"
status_value dispatchable = "dispatchable"
status_value running = "running"
status_value verification_pending = "verification_pending"
status_value verification_failed = "verification_failed"
status_value verified = "verified"
status_value closed = "closed"
status_value rejected = "rejected"
status_value canceled = "canceled"
status_value expired = "expired"

pub record ChangeRecord : Type 0 where
  pub id : ℕ
  pub organization_id : ℕ
  pub status : ChangeStatus
  pub approval_request_id : Option ℕ
  pub policy_evaluation_id : Option ℕ
  pub scheduled_for : Option ℕ
  pub approved_at : Option ℕ
  pub dispatchable_at : Option ℕ
  pub running_at : Option ℕ
  pub verification_pending_at : Option ℕ
  pub verification_failed_at : Option ℕ
  pub verified_at : Option ℕ
  pub closed_at : Option ℕ
  pub rejected_at : Option ℕ
  pub canceled_at : Option ℕ
  pub expired_at : Option ℕ
  pub terminal_reason : String

instance abbrev pub change_row : Row ChangeRecord
change_row = record { row_id = λ c. c.id }

-- The one binding of a change to the execution that carries it out.
pub record ChangeExecutionBinding : Type 0 where
  pub id : ℕ
  pub change_record_id : ℕ
  pub execution_id : ℕ
  pub dispatch_token_expires_at : ℕ
  pub bound_at : Option ℕ
  pub bound_by_runner_id : String
