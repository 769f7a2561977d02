-- ===== src/Approvals/Model.antt =====
-- apps/api/apps/approvals/models.py: approval requests and their decisions.
use Prim.Native.Nat.{ℕ}
use Prim.Native.String.{String}
use mathlib.Core.Option.{Option}
use runbook_platform.Prelude.Tables.{Row}

pub data ApprovalStatus : Type 0 where
  pending approved rejected timed_out : ApprovalStatus

pub data SubjectType : Type 0 where
  execution_step change_record change_exception : SubjectType

pub record ApprovalRequest : Type 0 where
  pub id : ℕ
  pub organization_id : ℕ
  pub subject_type : SubjectType
  pub subject_id : Option ℕ
  pub execution_id : Option ℕ
  pub step_id : Option ℕ
  pub status : ApprovalStatus
  pub requested_by_runner_id : String
  pub requested_at : ℕ
  pub timeout_seconds : Option ℕ
  pub expires_at : Option ℕ
  pub resolved_at : Option ℕ

pub data Decision : Type 0 where
  approved rejected timed_out : Decision

pub data SourceType : Type 0 where
  human system : SourceType

-- A request has at most one decision: `approval_request` is a OneToOneField.
pub record ApprovalDecision : Type 0 where
  pub id : ℕ
  pub approval_request_id : ℕ
  pub decision : Decision
  pub source_type : SourceType
  pub decided_by_user_id : Option String
  pub decided_by_label : String
  pub decided_by_label_source : String
  pub notes : String
  pub decided_at : ℕ

instance abbrev pub approval_row : Row ApprovalRequest
approval_row = record { row_id = λ a. a.id }

instance abbrev pub decision_row : Row ApprovalDecision
decision_row = record { row_id = λ d. d.approval_request_id }
