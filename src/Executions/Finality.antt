-- ===== src/Executions/Finality.antt =====
-- What the services of apps/api/apps/executions/services.py never undo: the outcome of an execution
-- that has ended, and the row of a step that has finished.
use Prim.Native.Nat.{ℕ}
use mathlib.Core.Path.{◌≡◌, refl, sym, subst}
use mathlib.Core.Bool.{true}
use mathlib.Core.Option.{Option, none, some}
use mathlib.Core.Logic.{inl, inr}
use native.Mathlib.Omega.{arith}
use runbook_platform.Prelude.Tests.{Bool-cases, Option-cases, nat_eq}
use runbook_platform.Prelude.Tables.{find_row, find_row_key, find_row-update_row_same, update_row}
use runbook_platform.Store.{World}
use runbook_platform.Executions.Model.{Execution, execution_row, ExecutionStep, step_row}
use runbook_platform.Executions.Events.{emit_step_transition_audit}
use runbook_platform.Executions.Steps.{
  StepUpdate, step_is_finished, is_allowed, write_step, starts_execution, started_or_same,
  write_started, step_of, apply_step_update, update_found_step, update_step_of,
  update_execution_step, check_ownership,
}
use runbook_platform.Executions.Completion.{is_outcome}

-- The same end, at the same instants.
pub record SameOutcome (f e : Execution) : Type 0 where
  pub status : f.status ≡ e.status
  pub started_at : f.started_at ≡ e.started_at
  pub finished_at : f.finished_at ≡ e.finished_at

-- What had ended before, in `w`, is in `v` as it was.
pub record KeepsFinal (v w : World) : Type 0 where
  pub executions :
      (k : ℕ) (e : Execution)
      → find_row k w.executions ≡ some e
      → is_outcome e.status ≡ true
      → (f : Execution) × (find_row k v.executions ≡ some f) × SameOutcome f e
  pub steps :
      (k : ℕ) (s : ExecutionStep)
      → find_row k w.steps ≡ some s
      → step_is_finished s.status ≡ true
      → find_row k v.steps ≡ some s

pub SameOutcome-refl : (e : Execution) → SameOutcome e e
SameOutcome-refl e = record { status = refl; started_at = refl; finished_at = refl }

pub KeepsFinal-refl : (w : World) → KeepsFinal w w
KeepsFinal-refl w = record {
  executions = λ k e found done. (e, found, SameOutcome-refl e);
  steps = λ k s found done. found;
}

id-write_step : (u : StepUpdate) (s : ExecutionStep) → (write_step u s).id ≡ s.id
unfolding write_step
id-write_step u s = ground arith

-- The writes of a step update.
module _ (u : StepUpdate) (e : Execution) (s : ExecutionStep) (w : World) where
  executions-apply :
      (apply_step_update u e s w).executions
      ≡ update_row e.id (started_or_same u (write_step u s)) w.executions
  unfolding apply_step_update emit_step_transition_audit
  executions-apply = ground arith

  steps-apply : (apply_step_update u e s w).steps ≡ update_row s.id (write_step u) w.steps
  unfolding apply_step_update emit_step_transition_audit
  steps-apply = ground arith

  keeps_started : (x : Execution) → (started_or_same u (write_step u s) x).id ≡ x.id
  unfolding starts_execution write_started
  keeps_started x = ground arith

  ended_not_started :
      (x : Execution) → is_outcome x.status ≡ true → started_or_same u (write_step u s) x ≡ x
  unfolding starts_execution
  ended_not_started x done = ground arith

  allowed_unfinished : is_allowed u s.status ≡ true → step_is_finished s.status ≡ true → ⊥
  unfolding is_allowed
  allowed_unfinished a f = ground arith

  apply-KeepsFinal :
      find_row s.id w.steps ≡ some s
      → is_allowed u s.status ≡ true
      → KeepsFinal (apply_step_update u e s w) w
  apply-KeepsFinal at allowed = record {
    executions = λ k x found done. (
      x,
      rw executions-apply (
          find_row-update_row_same k e.id (started_or_same u (write_step u s)) w.executions x
            keeps_started found (λ _. ended_not_started x done)),
      SameOutcome-refl x,
    );
    steps = λ k t found done. rw steps-apply (
        find_row-update_row_same k s.id (write_step u) w.steps t (id-write_step u) found
          (λ here. absurd (allowed_unfinished allowed (ground arith))));
  }

pub step_of_found :
    (execution_id step_id : ℕ) (s : ExecutionStep) (w : World)
    → step_of execution_id step_id w ≡ some s
    → find_row s.id w.steps ≡ some s
unfolding step_of
step_of_found execution_id step_id s w h =
    let found : find_row step_id w.steps ≡ some s = ground arith in
    subst (λ k. find_row k w.steps ≡ some s) (sym (find_row_key step_id w.steps s found)) found

module _ (u : StepUpdate) (w : World) where
  update_found_step-KeepsFinal :
      (e : Execution) (o : Option ExecutionStep)
      → step_of e.id u.step_id w ≡ o
      → KeepsFinal (update_found_step u e o w).1 w
  unfolding update_found_step
  update_found_step-KeepsFinal e none at = KeepsFinal-refl w
  update_found_step-KeepsFinal e (some s) at = elim (Bool-cases (is_allowed u s.status)) [
    | inl a ↦ rw a (apply-KeepsFinal u e s w (step_of_found e.id u.step_id s w at) a)
    | inr a ↦ rw a (KeepsFinal-refl w)
  ]

  update_step_of-KeepsFinal : (o : Option Execution) → KeepsFinal (update_step_of u o w).1 w
  unfolding update_step_of
  update_step_of-KeepsFinal none = KeepsFinal-refl w
  update_step_of-KeepsFinal (some e) =
      elim (Option-cases (check_ownership e u.runner_id u.claim_token)) [
        | inl owned ↦
            rw (owned, update_step_of)
              (update_found_step-KeepsFinal e (step_of e.id u.step_id w) refl)
        | inr (error, denied) ↦ rw (denied, update_step_of) (KeepsFinal-refl w)
      ]

  pub update_execution_step-KeepsFinal :
      (execution_id : ℕ) → KeepsFinal (update_execution_step execution_id u w).1 w
  unfolding update_execution_step
  update_execution_step-KeepsFinal execution_id =
      update_step_of-KeepsFinal (find_row execution_id w.executions)
