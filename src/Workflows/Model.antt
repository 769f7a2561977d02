-- ===== src/Workflows/Model.antt =====
-- apps/api/apps/workflows/models.py.
use Prim.Native.Nat.{ℕ}
use Prim.Native.String.{String}
use mathlib.Core.Bool.{Bool}
use runbook_platform.Prelude.Tables.{Row}

pub data WorkflowStatus : Type 0 where
  draft published superseded archived : WorkflowStatus

pub data ValidationStatus : Type 0 where
  valid invalid pending not_applicable : ValidationStatus

pub record Workflow : Type 0 where
  pub id : ℕ
  pub organization_id : ℕ
  pub runbook_id : ℕ
  pub name : String
  pub version : ℕ
  pub status : WorkflowStatus
  pub definition_schema_version : String
  pub validation_status : ValidationStatus
  pub requires_review : Bool

instance abbrev pub workflow_row : Row Workflow
workflow_row = record { row_id = λ w. w.id }
