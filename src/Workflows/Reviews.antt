-- ===== src/Workflows/Reviews.antt =====
-- Sequences of calls on workflows: apps/api/apps/workflows/services.py.
use Prim.Native.Nat.{ℕ}
use mathlib.Core.Path.{refl, ap, ◌∙◌}
use mathlib.Core.Logic.{inl, inr}
use native.Mathlib.Omega.{arith}
use mathlib.Core.Bool.{◌&&◌, not}
use mathlib.Core.Option.{Option}
use mathlib.Core.List.{List, [], ◌∷◌}
use runbook_platform.Prelude.Tests.{◌==◌, nat_eq, string_eq, Bool-cases, Option-cases}
use runbook_platform.Prelude.Tables.{find_row, find_row_key}
use runbook_platform.Audit.{AuditActor}
use runbook_platform.Store.{World}
use runbook_platform.Workflows.Model.{workflow_row}
use runbook_platform.Workflows.Publication.{
  is_draft, is_superseded, is_valid, write_accepted, write_rejected, write_archived, accept_review,
  accept_locked, reject_review, reject_locked, publish_workflow, publish_locked, archive_workflow,
  archive_locked, save_workflow,
}
use runbook_platform.Workflows.Published.{OnePublished, OnePublished-write, OnePublished-publish}

-- A call on the workflow with the given id.
pub data WorkflowCall : Type 0 where
  accept reject publish archive : Option AuditActor → ℕ → WorkflowCall

abbrev pub after_call : WorkflowCall → World → World
after_call (accept actor k) w = (accept_review actor k w).1
after_call (reject actor k) w = (reject_review actor k w).1
after_call (publish actor k) w = (publish_workflow actor k w).1
after_call (archive actor k) w = (archive_workflow actor k w).1

unfoldable pub after_calls : List WorkflowCall → World → World
after_calls [] w = w
after_calls (c ∷ cs) w = after_calls cs (after_call c w)

accept_review-OnePublished :
    (actor : Option AuditActor) (k : ℕ) (w : World)
    → OnePublished w.workflows
    → OnePublished (accept_review actor k w).1.workflows
unfolding accept_review accept_locked save_workflow
accept_review-OnePublished actor k w h = elim (Option-cases (find_row k w.workflows)) [
  | inl e ↦ rw e h
  | inr (f, e) ↦ rw e (elim (Bool-cases (not f.requires_review)) [
    | inl a ↦ rw a h
    | inr a ↦ rw a (elim (Bool-cases (not (is_draft f.status))) [
      | inl b ↦ rw b h
      | inr b ↦
          rw b (
            OnePublished-write f.id write_accepted w.workflows (λ _. refl) (λ _. refl) (λ _ p. p) h)
    ])
  ])
]

reject_review-OnePublished :
    (actor : Option AuditActor) (k : ℕ) (w : World)
    → OnePublished w.workflows
    → OnePublished (reject_review actor k w).1.workflows
unfolding reject_review reject_locked save_workflow
reject_review-OnePublished actor k w h = elim (Option-cases (find_row k w.workflows)) [
  | inl e ↦ rw e h
  | inr (f, e) ↦ rw e (elim (Bool-cases (not f.requires_review)) [
    | inl a ↦ rw a h
    | inr a ↦ rw a (elim (Bool-cases (not (is_draft f.status))) [
      | inl b ↦ rw b h
      | inr b ↦ rw b (
          OnePublished-write f.id write_rejected w.workflows (λ _. refl) (λ _. refl)
            (λ _ p. ground (arith, p)) h)
    ])
  ])
]

archive_workflow-OnePublished :
    (actor : Option AuditActor) (k : ℕ) (w : World)
    → OnePublished w.workflows
    → OnePublished (archive_workflow actor k w).1.workflows
unfolding archive_workflow archive_locked save_workflow
archive_workflow-OnePublished actor k w h = elim (Option-cases (find_row k w.workflows)) [
  | inl e ↦ rw e h
  | inr (f, e) ↦ rw e (elim (Bool-cases (not (is_draft f.status) && not (is_superseded f.status))) [
    | inl a ↦ rw a h
    | inr a ↦ rw a (
        OnePublished-write f.id write_archived w.workflows (λ _. refl) (λ _. refl)
          (λ _ p. ground (arith, p)) h)
  ])
]

publish_workflow-OnePublished :
    (actor : Option AuditActor) (k : ℕ) (w : World)
    → OnePublished w.workflows
    → OnePublished (publish_workflow actor k w).1.workflows
unfolding publish_workflow publish_locked save_workflow
publish_workflow-OnePublished actor k w h = elim (Option-cases (find_row k w.workflows)) [
  | inl e ↦ rw e h
  | inr (f, e) ↦ rw e (elim (Bool-cases f.requires_review) [
    | inl a ↦ rw a h
    | inr a ↦ rw a (elim (Bool-cases (not (is_draft f.status))) [
      | inl b ↦ rw b h
      | inr b ↦
          rw b
            (elim (Bool-cases (
              f.definition_schema_version == "workflow.schema.v2"
              && not (is_valid f.validation_status))) [
                | inl c ↦ rw c h
                | inr c ↦ rw c (
                    OnePublished-publish f.id f w.workflows
                      (ap (λ i. find_row i w.workflows) (find_row_key k w.workflows f e) ∙ e) h)
              ])
    ])
  ])
]

after_call-OnePublished :
    (c : WorkflowCall) (w : World)
    → OnePublished w.workflows
    → OnePublished (after_call c w).workflows
after_call-OnePublished (accept actor k) w h = accept_review-OnePublished actor k w h
after_call-OnePublished (reject actor k) w h = reject_review-OnePublished actor k w h
after_call-OnePublished (publish actor k) w h = publish_workflow-OnePublished actor k w h
after_call-OnePublished (archive actor k) w h = archive_workflow-OnePublished actor k w h

-- If no two published workflows belong to one runbook, this is still so after any sequence of
-- calls that accept, reject, publish or archive workflows, one at a time, the refused ones included.
pub after_calls-OnePublished :
    (cs : List WorkflowCall) (w : World)
    → OnePublished w.workflows
    → OnePublished (after_calls cs w).workflows
unfolding after_calls
after_calls-OnePublished [] w h = h
after_calls-OnePublished (c ∷ cs) w h =
    after_calls-OnePublished cs (after_call c w) (after_call-OnePublished c w h)
