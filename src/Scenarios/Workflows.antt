-- ===== src/Scenarios/Workflows.antt =====
-- Workflow definitions of apps/api/apps/workflows on which the theorems are applied.
use native.Mathlib.Omega.{arith}
use mathlib.Core.Option.{none}
use mathlib.Core.List.{List}
use runbook_platform.Prelude.Tables.{find_row, update_row, update_where}
use runbook_platform.Store.{World, empty_world}
use runbook_platform.Workflows.Model.{Workflow, WorkflowStatus, ValidationStatus}
use runbook_platform.Workflows.Publication.{
  write_superseded, accept_review, accept_locked, publish_workflow, publish_locked,
  archive_workflow, archive_locked, save_workflow,
}
use runbook_platform.Workflows.Published.{OnePublished}
use runbook_platform.Workflows.Reviews.{WorkflowCall, after_calls, after_calls-OnePublished}
use runbook_platform.Prelude.Codes.{codes_beq, codes}
use runbook_platform.Prelude.Tables.{any_row}
use runbook_platform.Runners.Registration.{contains}
use runbook_platform.Prelude.Json.{lookup_field, to_list, Json, Items, Fields}
use runbook_platform.Prelude.Results.{◌>>◌}
use mathlib.Core.Path.{◌≡◌, refl}
use mathlib.Core.Bool.{true, false}
use mathlib.Core.Option.{some}
use mathlib.Core.List.{[], ◌∷◌}
use runbook_platform.Prelude.Tests.{is_some}
use runbook_platform.Prelude.Effects.{Result, ok, err, invalid_workflow_definition}
use runbook_platform.Workflows.Paths.{is_safe_path, starts_with, walk, parts_of, is_safe_path-walk}
use runbook_platform.Workflows.Checks.{Library}
use runbook_platform.Workflows.Definitions.{validate_workflow_definition}
use runbook_platform.Workflows.Accepted.{
  ValidDefinition, validate_workflow_definition-ValidDefinition,
}

-- A catalogue with one action, and schemas that take everything.
abbrev open_library : Library
open_library = record {
  conforms = λ v. true;
  catalog_actions = λ version. some ("manual_task" ∷ []);
  has_action_schema = λ t version. true;
  accepts_inputs = λ t version v. true;
  matches_secret = λ s. false;
}

abbrev no_v1 : Json → Result (Unit {0})
no_v1 v = err (invalid_workflow_definition "unsupported")

abbrev task : Json
task = Json.obj (
    Fields.field "type" (Json.str "manual_task")
      (Fields.field "version" (Json.str "pilot.v1") Fields.end))

abbrev report_step : Json
report_step = Json.obj (
    Fields.field "id" (Json.str "report") (
      Fields.field "type" (Json.str "manual_task") (
        Fields.field "action" task (
          Fields.field "retry" (Json.obj (Fields.field "maxAttempts" (Json.num 3) Fields.end)) (
            Fields.field "idempotency"
              (Json.obj (Fields.field "mode" (Json.str "natural") Fields.end))
              (Fields.field "artifacts"
                (Json.arr (
                  Items.cons
                    (Json.obj (
                      Fields.field "key" (Json.str "report") (
                        Fields.field "kind" (Json.str "file")
                          (Fields.field "path" (Json.str "out/report.json") Fields.end))))
                    Items.nil))
                Fields.end))))))

abbrev report_workflow : Json
report_workflow =
    Json.obj (Fields.field "steps" (Json.arr (Items.cons report_step Items.nil)) Fields.end)

accepts :
    validate_workflow_definition open_library no_v1 report_workflow "workflow.schema.v2" ≡ ok tt
unfolding validate_workflow_definition ◌>>◌ lookup_field to_list contains any_row codes_beq
accepts = refl

validate_workflow_definition-ValidDefinition_example : ValidDefinition report_workflow
validate_workflow_definition-ValidDefinition_example =
    validate_workflow_definition-ValidDefinition open_library no_v1 report_workflow tt accepts

is_below : is_safe_path (codes "out/./report.json") ≡ true
unfolding is_safe_path any_row codes_beq
is_below = refl

is_safe_path-walk_example :
    (starts_with (codes "/") (codes "out/./report.json") ≡ false)
    × (is_some (walk 0 (parts_of (codes "out/./report.json"))) ≡ true)
is_safe_path-walk_example = is_safe_path-walk (codes "out/./report.json") is_below

abbrev old_workflow : Workflow
old_workflow = record {
  id = 70;
  organization_id = 10;
  runbook_id = 80;
  name = "Restart";
  version = 1;
  status = WorkflowStatus.published;
  definition_schema_version = "workflow.schema.v1";
  validation_status = ValidationStatus.not_applicable;
  requires_review = false;
}

abbrev new_workflow : Workflow
new_workflow = record old_workflow {
  id = 71;
  version = 2;
  status = WorkflowStatus.draft;
  requires_review = true;
}

abbrev workflow_world : World
workflow_world = record empty_world { workflows = old_workflow ∷ new_workflow ∷ [] }

-- The second call is refused, as the workflow is not accepted yet.
abbrev reviewing : List WorkflowCall
reviewing =
    WorkflowCall.archive none 70
    ∷ WorkflowCall.publish none 71
    ∷ WorkflowCall.accept none 71
    ∷ WorkflowCall.publish none 71
    ∷ []

workflow_world-OnePublished : OnePublished workflow_world.workflows
unfolding find_row
workflow_world-OnePublished = record {
  one = λ i j p q fi fj a b same. ground (arith, fi, fj, a, b);
}

after_calls-OnePublished_example : OnePublished (after_calls reviewing workflow_world).workflows
after_calls-OnePublished_example =
    after_calls-OnePublished reviewing workflow_world workflow_world-OnePublished

old-superseded :
    (after_calls reviewing workflow_world).workflows
    ≡ write_superseded old_workflow
      ∷ record new_workflow { status = WorkflowStatus.published; requires_review = false }
      ∷ []
unfolding find_row update_row update_where after_calls accept_review accept_locked publish_workflow
    publish_locked archive_workflow archive_locked save_workflow
old-superseded = refl
