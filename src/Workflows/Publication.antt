-- ===== src/Workflows/Publication.antt =====
-- Review, publication and archiving of workflows in apps/api/apps/workflows/services.py. Each call
-- reads the row again under a lock and raises before it writes.
use Prim.Native.Nat.{ℕ}
use Prim.Native.String.{String}
use mathlib.Core.Bool.{Bool, true, false, ◌&&◌, not}
use mathlib.Core.Option.{Option, none, some}
use mathlib.Core.List.{List, [], ◌∷◌, ◌++◌}
use runbook_platform.Prelude.Tests.{◌==◌, nat_eq, string_eq, if◌then◌else◌}
use runbook_platform.Prelude.Tables.{find_row, update_row, update_where}
use runbook_platform.Prelude.Text.{id_text}
use runbook_platform.Prelude.Effects.{ok, err, invalid_state_transition, domain_conflict, not_found}
use runbook_platform.Audit.{AuditActor, AuditEvent, Value, text, number, system_actor, actor_or}
use runbook_platform.Store.{World, Service, emit}
use runbook_platform.Workflows.Model.{
  WorkflowStatus, draft, published, superseded, archived, ValidationStatus, valid, Workflow,
  workflow_row,
}

abbrev pub is_draft : WorkflowStatus → Bool
is_draft draft = true
is_draft _ = false

abbrev pub is_published : WorkflowStatus → Bool
is_published published = true
is_published _ = false

abbrev pub is_superseded : WorkflowStatus → Bool
is_superseded superseded = true
is_superseded _ = false

abbrev pub is_valid : ValidationStatus → Bool
is_valid valid = true
is_valid _ = false

abbrev workflow_status_text : WorkflowStatus → String
workflow_status_text draft = "draft"
workflow_status_text published = "published"
workflow_status_text superseded = "superseded"
workflow_status_text archived = "archived"

abbrev status_metadata : WorkflowStatus → WorkflowStatus → List (String × Value)
status_metadata previous new =
    ("previous_status", text (workflow_status_text previous))
    ∷ ("new_status", text (workflow_status_text new))
    ∷ []

-- `_emit_workflow_audit`
workflow_event : Option AuditActor → String → List (String × Value) → Workflow → AuditEvent
workflow_event actor event_type metadata f = record {
  organization_id = f.organization_id;
  actor = actor_or actor (system_actor "Workflow service");
  event_type = event_type;
  object_type = "workflow";
  object_id = f.id;
  metadata = ("runbook_id", text (id_text f.runbook_id)) ∷ metadata;
}

unfoldable pub save_workflow :
    Option AuditActor
    → String
    → List (String × Value)
    → ℕ
    → (Workflow → Workflow)
    → Workflow
    → Service Workflow
unfolding workflow_event
save_workflow actor event_type metadata k f row w = (
  ok (f row),
  emit (workflow_event actor event_type metadata (f row))
      (record w { workflows = update_row k f w.workflows }),
)

abbrev pub write_accepted : Workflow → Workflow
write_accepted f = record f { requires_review = false }

abbrev pub write_rejected : Workflow → Workflow
write_rejected f = record f { status = archived; requires_review = false }

abbrev pub write_archived : Workflow → Workflow
write_archived f = record f { status = archived }

abbrev pub write_superseded : Workflow → Workflow
write_superseded f = record f { status = superseded }

abbrev pub write_published : Workflow → Workflow
write_published f = record f { status = published }

-- A published workflow of the same runbook, apart from the row itself.
abbrev pub is_sibling : Workflow → Workflow → Bool
is_sibling row f = (f.runbook_id == row.runbook_id && is_published f.status) && not (f.id == row.id)

abbrev pub supersede_siblings : Workflow → World → World
supersede_siblings row w = record w {
  workflows = update_where (is_sibling row) write_superseded w.workflows;
}

module _ (actor : Option AuditActor) where
  unfoldable pub accept_locked : Option Workflow → Service Workflow
  unfolding save_workflow
  accept_locked none w = (err not_found, w)
  accept_locked (some f) w =
      if not f.requires_review
      then (err (invalid_state_transition "workflow_not_pending_review"), w)
      else if not (is_draft f.status)
      then (err (invalid_state_transition "invalid_state_transition"), w)
      else save_workflow actor "workflow.review_accepted" [] f.id write_accepted f w

  unfoldable pub accept_review : ℕ → Service Workflow
  unfolding accept_locked
  accept_review k w = accept_locked (find_row k w.workflows) w

  unfoldable pub reject_locked : Option Workflow → Service Workflow
  unfolding save_workflow
  reject_locked none w = (err not_found, w)
  reject_locked (some f) w =
      if not f.requires_review
      then (err (invalid_state_transition "workflow_not_pending_review"), w)
      else if not (is_draft f.status)
      then (err (invalid_state_transition "invalid_state_transition"), w)
      else save_workflow actor "workflow.review_rejected"
          (("new_status", text (workflow_status_text archived)) ∷ []) f.id write_rejected f w

  unfoldable pub reject_review : ℕ → Service Workflow
  unfolding reject_locked
  reject_review k w = reject_locked (find_row k w.workflows) w

  unfoldable pub publish_locked : Option Workflow → Service Workflow
  unfolding save_workflow
  publish_locked none w = (err not_found, w)
  publish_locked (some f) w =
      if f.requires_review
      then (err (domain_conflict "workflow_requires_review"), w)
      else if not (is_draft f.status)
      then (err (invalid_state_transition "invalid_state_transition"), w)
      else if f.definition_schema_version == "workflow.schema.v2"
          && not (is_valid f.validation_status)
      then (err (domain_conflict "workflow_invalid_definition"), w)
      else save_workflow actor "workflow.published"
          (status_metadata f.status published ++ ("version", number f.version) ∷ []) f.id
          write_published f (supersede_siblings f w)

  unfoldable pub publish_workflow : ℕ → Service Workflow
  unfolding publish_locked
  publish_workflow k w = publish_locked (find_row k w.workflows) w

  unfoldable pub archive_locked : Option Workflow → Service Workflow
  unfolding save_workflow
  archive_locked none w = (err not_found, w)
  archive_locked (some f) w =
      if not (is_draft f.status) && not (is_superseded f.status)
      then (err (invalid_state_transition "invalid_state_transition"), w)
      else save_workflow actor "workflow.archived" (status_metadata f.status archived) f.id
          write_archived f w

  unfoldable pub archive_workflow : ℕ → Service Workflow
  unfolding archive_locked
  archive_workflow k w = archive_locked (find_row k w.workflows) w
