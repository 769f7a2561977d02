-- ===== src/Policies/Model.antt =====
-- apps/api/apps/policies/models.py: policies, their rules and the evaluations kept of them.
use Prim.Native.Nat.{ℕ}
use Prim.Native.String.{String}
use mathlib.Core.Bool.{Bool}
use mathlib.Core.Option.{Option}
use runbook_platform.Prelude.Tables.{Row}
use runbook_platform.Prelude.Json.{Fields}

pub record Policy : Type 0 where
  pub id : ℕ
  pub organization_id : ℕ
  pub name : String
  pub description : String
  pub is_active : Bool
  pub created_by_label : String
  pub updated_by_label : String
  pub created_at : ℕ

-- `other` is a text that is none of the choices.
pub data ConditionType : Type 0 where
  risk_level step_type time_window action_type action_version : ConditionType
  execution_mode idempotency_mode mutates_target : ConditionType
  other : String → ConditionType

pub data Outcome : Type 0 where
  approval_required auto_approve block : Outcome
  other : String → Outcome

pub record PolicyRule : Type 0 where
  pub id : ℕ
  pub policy_id : ℕ
  pub name : String
  pub description : String
  pub is_active : Bool
  pub priority : ℕ
  pub condition_type : ConditionType
  pub condition_params : Fields
  pub outcome : Outcome
  pub reason : String

pub data DecisionSource : Type 0 where
  policy_rule workflow_default : DecisionSource

pub record PolicyEvaluation : Type 0 where
  pub id : ℕ
  pub organization_id : ℕ
  pub execution_id : ℕ
  pub step_id : ℕ
  pub policy_id : Option ℕ
  pub rule_id : Option ℕ
  pub matched : Bool
  pub outcome : Outcome
  pub effective_outcome : Outcome
  pub decision_source : DecisionSource
  pub reason : String
  pub error_code : String
  pub evaluated_at : ℕ

instance abbrev pub policy_row : Row Policy
policy_row = record { row_id = λ p. p.id }

instance abbrev pub policy_rule_row : Row PolicyRule
policy_rule_row = record { row_id = λ r. r.id }
