-- ===== src/Executions/Endings.antt =====
-- The end of an execution in apps/api/apps/executions/services.py, and its heartbeat, keep what had
-- ended.
use Prim.Native.Nat.{ℕ}
use Prim.Native.String.{String}
use mathlib.Core.Path.{◌≡◌, refl}
use mathlib.Core.Bool.{true, false}
use mathlib.Core.Option.{Option, none, some}
use mathlib.Core.Logic.{◌⊎◌, inl, inr}
use native.Mathlib.Omega.{arith}
use runbook_platform.Prelude.Tests.{Bool-cases, Option-cases, ◌==◌, nat_eq}
use runbook_platform.Prelude.Tables.{find_row, find_row-update_row, update_row}
use runbook_platform.Prelude.Effects.{continue, Result, ok, err, Error, ◌>>◌, raise_if, atomic}
use runbook_platform.Store.{World}
use runbook_platform.Executions.Model.{
  Execution, execution_row, ExecutionStatus, step_row, status_value,
}
use runbook_platform.Executions.Completion.{
  is_outcome, is_underway, write_finished, save_completion, close_lease, announce_end,
  completion_event_type, check_completion, finish_locked, settle_completion, complete_execution,
  heartbeat_execution, after_hook,
}
use runbook_platform.Executions.Finality.{
  SameOutcome, SameOutcome-refl, KeepsFinal, KeepsFinal-refl,
}
use runbook_platform.Runners.Model.{LeaseStatus}
use runbook_platform.Executions.Steps.{check_ownership}
use runbook_platform.Changes.Frame.{Frames-handle_bound, Frames-assert_ready, Frames-enforce}
use runbook_platform.Changes.Completion.{
  SameExecutions, ChangeGuards, assert_execution_change_binding_ready,
  enforce_emergency_expiry_for_execution, handle_bound_execution_completed,
}
use runbook_platform.Executions.Outcomes.{
  KeepsFinal-same, write_open-KeepsFinal, id-write_finished, rollback-KeepsFinal,
  continue-KeepsFinal, locked-KeepsFinal,
}

pub world-after_hook :
    (e : Execution) (r : Result (Unit {0})) (w : World) → (after_hook e r w).1 ≡ w
unfolding after_hook
world-after_hook e (ok x) w = refl
world-after_hook e (err error) w = ground arith

module _ (guards : ChangeGuards) where
  -- The hook and the messages write no execution and no step.
  settle_completion-KeepsFinal :
      (outcome : ExecutionStatus) (now : ℕ) (e : Execution) (w : World)
      → KeepsFinal (settle_completion guards outcome now e w).1 w
  unfolding settle_completion close_lease announce_end
  settle_completion-KeepsFinal outcome now e w =
      let before =
        close_lease e.id LeaseStatus.released (status_value outcome) now
          (announce_end (completion_event_type outcome) e w) in
      let same = (Frames-handle_bound guards e now).frame before in
      let hooked =
        world-after_hook e (handle_bound_execution_completed guards e now before).0
          (handle_bound_execution_completed guards e now before).1 in
      KeepsFinal-same (rw hooked same.executions) (rw hooked same.steps)

  module _ (runner_id claim_token : String) (outcome : ExecutionStatus) (now : ℕ) where
    check_open :
        (e : Execution)
        → check_completion e runner_id claim_token outcome ≡ none
        → is_outcome e.status ≡ false
    unfolding check_completion
    check_open e h = ground arith

    save_after-KeepsFinal :
        (e : Execution) (r : Result (Unit {0})) (v w : World)
        → SameExecutions v w
        → find_row e.id w.executions ≡ some e
        → is_outcome e.status ≡ false
        → KeepsFinal
            (continue r
              (λ _ (u : World).
                (ok (write_finished outcome now e), save_completion e runner_id outcome now u))
              v).1
            w
    unfolding save_completion
    save_after-KeepsFinal e (ok x) v w same at open_yet =
        write_open-KeepsFinal e (write_finished outcome now) _ w (id-write_finished outcome now) at
          open_yet (rw same.executions refl) same.steps
    save_after-KeepsFinal e (err error) v w same at open_yet =
        KeepsFinal-same same.executions same.steps

    finish_found-KeepsFinal :
        (e : Execution) (o : Option Error) (w : World)
        → check_completion e runner_id claim_token outcome ≡ o
        → find_row e.id w.executions ≡ some e
        → KeepsFinal
            ((do
              raise_if o
              assert_execution_change_binding_ready guards e runner_id claim_token now
              λ (u : World).
                  (ok (write_finished outcome now e), save_completion e runner_id outcome now u))
              w).1
            w
    finish_found-KeepsFinal e (some error) w h at = KeepsFinal-refl w
    finish_found-KeepsFinal e none w h at =
        let m = assert_execution_change_binding_ready guards e runner_id claim_token now in
        save_after-KeepsFinal e (m w).0 (m w).1 w
          ((Frames-assert_ready guards e runner_id claim_token now).frame w) at (check_open e h)

    finish_locked-KeepsFinal :
        (id : ℕ) (w : World)
        → KeepsFinal (finish_locked guards id runner_id claim_token outcome now w).1 w
    unfolding finish_locked
    finish_locked-KeepsFinal id w =
        locked-KeepsFinal
          (λ e. do
            raise_if (check_completion e runner_id claim_token outcome)
            assert_execution_change_binding_ready guards e runner_id claim_token now
            λ (u : World).
                (ok (write_finished outcome now e), save_completion e runner_id outcome now u))
          id w _ refl (λ e at. finish_found-KeepsFinal e _ w refl at)

    pub complete_execution-KeepsFinal :
        (id : ℕ) (w : World)
        → KeepsFinal (complete_execution guards id runner_id claim_token outcome now w).1 w
    unfolding complete_execution
    complete_execution-KeepsFinal id w =
        let m = finish_locked guards id runner_id claim_token outcome now in
        let done = atomic m w in
        continue-KeepsFinal w (settle_completion guards outcome now) done.0 done.1
          (rollback-KeepsFinal w (m w).0 (m w).1 (finish_locked-KeepsFinal id w))
          (λ e. settle_completion-KeepsFinal outcome now e done.1)

  heartbeat_saved-KeepsFinal :
      (seen : Execution) (now : ℕ) (r : Result (Unit {0})) (v w : World)
      → SameExecutions v w
      → KeepsFinal
          (continue r
            (λ _ (u : World). (
              ok (record seen { last_heartbeat_at = some now }),
              record u {
                executions =
                    update_row seen.id
                      (λ e. record e { last_heartbeat_at = some now })
                      u.executions;
              },
            ))
            v).1
          w
  heartbeat_saved-KeepsFinal seen now (err error) v w same =
      KeepsFinal-same same.executions same.steps
  heartbeat_saved-KeepsFinal seen now (ok x) v w same = record {
    executions = λ k e found done. beaten k e found (Bool-cases (seen.id == k));
    steps = λ k s found done. rw same.steps found;
  }
    where
      write : Execution → Execution
      write e = record e { last_heartbeat_at = some now }

      beaten :
          (k : ℕ) (e : Execution)
          → find_row k w.executions ≡ some e
          → ((seen.id == k) ≡ true) ⊎ ((seen.id == k) ≡ false)
          → (f : Execution) × (find_row k (update_row seen.id write v.executions) ≡ some f)
            × SameOutcome f e
      beaten k e found (inl here) = (
        write e,
        rw
            (
              same.executions,
              find_row-update_row k seen.id write w.executions (λ y. refl),
              here,
              found,
            )
            refl,
        record { status = refl; started_at = refl; finished_at = refl },
      )
      beaten k e found (inr away) = (
        e,
        rw
            (
              same.executions,
              find_row-update_row k seen.id write w.executions (λ y. refl),
              away,
              found,
            )
            refl,
        SameOutcome-refl e,
      )

  -- A heartbeat saves its instant and nothing else.
  pub heartbeat_execution-KeepsFinal :
      (seen : Execution) (runner_id claim_token : String) (now : ℕ) (w : World)
      → KeepsFinal (heartbeat_execution guards seen runner_id claim_token now w).1 w
  unfolding heartbeat_execution
  heartbeat_execution-KeepsFinal seen runner_id claim_token now w =
      elim (Bool-cases (is_underway seen.status)) [
        | inr ended ↦ rw ended (KeepsFinal-refl w)
        | inl open_yet ↦
            rw open_yet (elim (Option-cases (check_ownership seen runner_id claim_token)) [
              | inr (error, denied) ↦ rw denied (KeepsFinal-refl w)
              | inl owned ↦
                  let m = enforce_emergency_expiry_for_execution guards seen now w in
                  rw owned (
                    heartbeat_saved-KeepsFinal seen now m.0 m.1 w
                      ((Frames-enforce guards seen now).frame w))
            ])
      ]
