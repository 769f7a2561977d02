-- ===== src/Store.antt =====
-- The database that the services share: a table for each model, the audit trail, and the messages
-- that `transaction.on_commit` hands to the event bus and the integrations.
use Prim.Native.Nat.{ℕ}
use Prim.Native.String.{String}
use mathlib.Core.List.{List, [], ◌∷◌, ◌++◌}
use runbook_platform.Audit.{AuditEvent}
use runbook_platform.Prelude.Effects.{Action}
use runbook_platform.Changes.Model.{ChangeRecord, ChangeExecutionBinding}
use runbook_platform.Runners.Model.{RunnerPool, Runner, RegistrationToken, Route, ExecutionLease}
use runbook_platform.Executions.Model.{Execution, ExecutionStep}
use runbook_platform.Policies.Model.{Policy, PolicyRule, PolicyEvaluation}
use runbook_platform.Workflows.Model.{Workflow}
use runbook_platform.Approvals.Model.{ApprovalRequest, ApprovalDecision}

pub data Message : Type 0 where
  stream : ℕ → String → String → Message
  notify : String → ℕ → Message

pub record World : Type 0 where
  pub changes : List ChangeRecord
  pub bindings : List ChangeExecutionBinding
  pub pools : List RunnerPool
  pub runners : List Runner
  pub registration_tokens : List RegistrationToken
  pub routes : List Route
  pub leases : List ExecutionLease
  pub executions : List Execution
  pub steps : List ExecutionStep
  pub approvals : List ApprovalRequest
  pub decisions : List ApprovalDecision
  pub policies : List Policy
  pub policy_rules : List PolicyRule
  pub policy_evaluations : List PolicyEvaluation
  pub workflows : List Workflow
  pub audit : List AuditEvent
  pub outbox : List Message

-- What a service call does to the database.
abbrev pub Service : Type 0 → Type 0
Service A = Action World A

-- `AuditService.emit(...)` appends one event.
abbrev pub emit : AuditEvent → World → World
emit e w = record w { audit = w.audit ++ e ∷ [] }

-- `_emit_on_commit` and `_safe_notify_integration`.
abbrev pub on_commit : Message → World → World
on_commit m w = record w { outbox = w.outbox ++ m ∷ [] }

abbrev pub empty_world : World
empty_world = record {
  changes = [];
  bindings = [];
  pools = [];
  runners = [];
  registration_tokens = [];
  routes = [];
  leases = [];
  executions = [];
  steps = [];
  approvals = [];
  decisions = [];
  policies = [];
  policy_rules = [];
  policy_evaluations = [];
  workflows = [];
  audit = [];
  outbox = [];
}
