-- ===== src/Executions/Recovery.antt =====
-- The watchdog of apps/api/apps/executions/services.py keeps what had ended.
use Prim.Native.Nat.{ℕ}
use mathlib.Core.Path.{◌≡◌, refl, sym, subst}
use mathlib.Core.Bool.{true, false}
use mathlib.Core.Option.{Option, none, some}
use mathlib.Core.Logic.{inl, inr}
use mathlib.Core.List.{List, [], ◌∷◌}
use native.Mathlib.Omega.{arith}
use runbook_platform.Prelude.Tests.{Bool-cases, nat_eq}
use runbook_platform.Prelude.Tables.{
  find_row, find_row_key, find_row-update_row_same, find_row-update_where,
}
use runbook_platform.Store.{World}
use runbook_platform.Executions.Model.{
  Execution, execution_row, ExecutionStatus, ExecutionStep, step_row,
}
use runbook_platform.Executions.Completion.{is_outcome, is_underway, write_finished, close_lease}
use runbook_platform.Executions.Finality.{step_of_found, KeepsFinal, KeepsFinal-refl}
use runbook_platform.Executions.Steps.{step_is_finished, step_of}
use runbook_platform.Changes.Frame.{Frames-handle_bound}
use runbook_platform.Changes.Completion.{ChangeGuards}
use runbook_platform.Executions.Watchdog.{
  is_stuck, runs_in, write_step_failed, fail_stuck, run_hook, recover_one, recover_each,
  recover_stuck_executions, save_approval_timeout, announce_approval_timeout, approval_message,
  step_is_waiting, fail_waiting, fail_execution_for_approval_timeout,
}
use runbook_platform.Executions.Outcomes.{
  KeepsFinal-trans, KeepsFinal-same, write_open_steps-KeepsFinal, id-write_finished,
}

running_unfinished :
    (id : ℕ) (s : ExecutionStep) → step_is_finished s.status ≡ true → runs_in id s ≡ false
unfolding runs_in
running_unfinished id s done = ground arith

stuck_open : (t : ℕ) (e : Execution) → is_stuck t e ≡ true → is_outcome e.status ≡ false
unfolding is_stuck
stuck_open t e h = ground arith

fail_stuck-KeepsFinal :
    (e : Execution) (threshold now : ℕ) (w : World)
    → find_row e.id w.executions ≡ some e
    → is_outcome e.status ≡ false
    → KeepsFinal (fail_stuck e threshold now w) w
unfolding fail_stuck write_step_failed
fail_stuck-KeepsFinal e threshold now w at open_yet =
    write_open_steps-KeepsFinal e (write_finished ExecutionStatus.failed now) _ w
      (id-write_finished ExecutionStatus.failed now) at open_yet refl
      (λ k s found done.
        rw
          (
            find_row-update_where k (runs_in e.id) (write_step_failed now _) w.steps (λ y. refl),
            found,
            running_unfinished e.id s done,
          )
          refl)

module _ (guards : ChangeGuards) (now : ℕ) where
  run_hook-KeepsFinal : (e : Execution) (w : World) → KeepsFinal (run_hook guards e now w) w
  unfolding run_hook
  run_hook-KeepsFinal e w =
      let same = (Frames-handle_bound guards e now).frame w in
      KeepsFinal-same same.executions same.steps

  recover_one-KeepsFinal :
      (threshold stale_before k : ℕ) (o : Option Execution) (w : World)
      → find_row k w.executions ≡ o
      → KeepsFinal (recover_one guards threshold stale_before now o w).1 w
  unfolding recover_one close_lease
  recover_one-KeepsFinal threshold stale_before k none w at = KeepsFinal-refl w
  recover_one-KeepsFinal threshold stale_before k (some e) w at =
      elim (Bool-cases (is_stuck stale_before e)) [
        | inr fresh ↦ rw fresh (KeepsFinal-refl w)
        | inl stuck ↦ rw stuck (
            KeepsFinal-trans (run_hook-KeepsFinal (write_finished ExecutionStatus.failed now e) _) (
              KeepsFinal-trans (KeepsFinal-same refl refl) (
                fail_stuck-KeepsFinal e threshold now w
                  (subst (λ j. find_row j w.executions ≡ some e)
                    (sym (find_row_key k w.executions e at)) at)
                  (stuck_open stale_before e stuck))))
      ]

  recover_each-KeepsFinal :
      (threshold stale_before : ℕ) (cs : List Execution) (w : World)
      → KeepsFinal (recover_each guards threshold stale_before now cs w).1 w
  unfolding recover_each
  recover_each-KeepsFinal threshold stale_before [] w = KeepsFinal-refl w
  recover_each-KeepsFinal threshold stale_before (c ∷ cs) w =
      KeepsFinal-trans (recover_each-KeepsFinal threshold stale_before cs _)
        (recover_one-KeepsFinal threshold stale_before c.id (find_row c.id w.executions) w refl)

  pub recover_stuck_executions-KeepsFinal :
      (threshold : ℕ) (w : World) → KeepsFinal (recover_stuck_executions guards threshold now w).1 w
  unfolding recover_stuck_executions
  recover_stuck_executions-KeepsFinal threshold w = recover_each-KeepsFinal threshold _ _ w

  waiting_unfinished :
      (s : ExecutionStep) → step_is_waiting s.status ≡ true → step_is_finished s.status ≡ true → ⊥
  waiting_unfinished s a b = ground arith

  underway_open : (e : Execution) → is_underway e.status ≡ true → is_outcome e.status ≡ false
  underway_open e h = ground arith

  save_timeout-KeepsFinal :
      (approval_id : ℕ) (e : Execution) (s : ExecutionStep) (w : World)
      → find_row e.id w.executions ≡ some e
      → find_row s.id w.steps ≡ some s
      → is_underway e.status ≡ true
      → step_is_waiting s.status ≡ true
      → KeepsFinal (save_approval_timeout approval_id e s now w) w
  unfolding save_approval_timeout write_step_failed
  save_timeout-KeepsFinal approval_id e s w at at_step open_yet waiting =
      write_open_steps-KeepsFinal e (write_finished ExecutionStatus.failed now) _ w
        (id-write_finished ExecutionStatus.failed now) at (underway_open e open_yet) refl
        (λ k t found done.
          find_row-update_row_same k s.id (write_step_failed now approval_message) w.steps t
            (λ y. refl) found (λ here. absurd (waiting_unfinished s waiting (ground arith))))

  fail_waiting-KeepsFinal :
      (approval_id : ℕ) (e : Option Execution) (s : Option ExecutionStep) (w : World) (j : ℕ)
      → find_row j w.executions ≡ e
      → ((t : ExecutionStep) → s ≡ some t → find_row t.id w.steps ≡ some t)
      → KeepsFinal (fail_waiting guards approval_id now e s w).1 w
  unfolding fail_waiting announce_approval_timeout
  fail_waiting-KeepsFinal approval_id none s w j at at_step = KeepsFinal-refl w
  fail_waiting-KeepsFinal approval_id (some e) none w j at at_step = KeepsFinal-refl w
  fail_waiting-KeepsFinal approval_id (some e) (some s) w j at at_step =
      elim (Bool-cases (is_underway e.status)) [
        | inr ended ↦ rw ended (KeepsFinal-refl w)
        | inl open_yet ↦ rw open_yet (elim (Bool-cases (step_is_waiting s.status)) [
          | inr other ↦ rw other (KeepsFinal-refl w)
          | inl waiting ↦ rw waiting (
              KeepsFinal-trans (run_hook-KeepsFinal (write_finished ExecutionStatus.failed now e) _)
                (KeepsFinal-trans (KeepsFinal-same refl refl) (
                  save_timeout-KeepsFinal approval_id e s w
                    (subst (λ i. find_row i w.executions ≡ some e)
                      (sym (find_row_key j w.executions e at)) at)
                    (at_step s refl) open_yet waiting)))
        ])
      ]

  pub fail_execution_for_approval_timeout-KeepsFinal :
      (execution_id step_id approval_id : ℕ) (w : World)
      → KeepsFinal
          (fail_execution_for_approval_timeout guards execution_id step_id approval_id now w).1
          w
  unfolding fail_execution_for_approval_timeout
  fail_execution_for_approval_timeout-KeepsFinal execution_id step_id approval_id w =
      fail_waiting-KeepsFinal approval_id (find_row execution_id w.executions)
        (step_of execution_id step_id w) w execution_id refl
        (λ t h. step_of_found execution_id step_id t w h)
