-- ===== src/Executions/Sweep.antt =====
-- The watchdog `recover_stuck_executions` of apps/api/apps/executions/services.py, row by row under
-- locks, against one bulk update.
use Prim.Native.Nat.{ℕ, ◌-◌}
use mathlib.Core.Path.{◌≡◌, refl, subst}
use mathlib.Core.Bool.{Bool, true, false}
use mathlib.Core.Option
use mathlib.Core.Option.{Option, none, some}
use mathlib.Core.Logic.{inl, inr}
use mathlib.Core.List.{List, [], ◌∷◌}
use native.Mathlib.Omega.{arith}
use runbook_platform.Prelude.Tests.{Bool-cases, ◌==◌, nat_eq, eq_iff, if◌then◌else◌}
use runbook_platform.Prelude.Tables.{
  any_row, any_row-select, select, find_row, find_row_key, find_row-update_row,
}
use runbook_platform.Store.{World}
use runbook_platform.Changes.Completion.{ChangeGuards}
use runbook_platform.Changes.Frame.{Frames-handle_bound}
use runbook_platform.Runners.Model.{LeaseStatus}
use runbook_platform.Executions.Model.{Execution, execution_row, ExecutionStatus}
use runbook_platform.Executions.Completion.{write_finished, close_lease}
use runbook_platform.Executions.Watchdog.{
  is_stuck, fail_stuck, run_hook, recover_one, recover_each, recover_stuck_executions,
}
use runbook_platform.Executions.Outcomes.{id-write_finished}

-- The row after the sweep: failed if it was stuck, else untouched.
abbrev pub failed_if_stuck : ℕ → ℕ → Execution → Execution
failed_if_stuck t now e = if is_stuck t e then write_finished ExecutionStatus.failed now e else e

module _ (guards : ChangeGuards) (threshold t now k : ℕ) where
  failed_settled :
      (e : Execution) → failed_if_stuck t now (failed_if_stuck t now e) ≡ failed_if_stuck t now e
  unfolding is_stuck write_finished
  failed_settled e = ground arith

  hooked_rows :
      (e : Execution) (w : World)
      → find_row k (run_hook guards e now w).executions ≡ find_row k w.executions
  unfolding run_hook
  hooked_rows e w = rw ((Frames-handle_bound guards e now).frame w).executions refl

  stuck_rows :
      (e : Execution) (w : World)
      → find_row k (fail_stuck e threshold now w).executions ≡ (
          if e.id == k
          then Option.map (write_finished ExecutionStatus.failed now) (find_row k w.executions)
          else find_row k w.executions)
  unfolding fail_stuck
  stuck_rows e w =
      find_row-update_row k e.id (write_finished ExecutionStatus.failed now) w.executions
        (id-write_finished ExecutionStatus.failed now)

  leased_rows :
      (e : Execution) (w : World)
      → find_row k
          (run_hook guards
            (write_finished ExecutionStatus.failed now e)
            now
            (close_lease e.id LeaseStatus.expired "heartbeat_timeout" now w)).executions
        ≡ find_row k w.executions
  unfolding close_lease
  leased_rows e w = hooked_rows (write_finished ExecutionStatus.failed now e) _

  recovered_row :
      (j : ℕ) (o : Option Execution) (w : World)
      → find_row j w.executions ≡ o
      → find_row k (recover_one guards threshold t now o w).1.executions ≡ (
          if j == k
          then Option.map (failed_if_stuck t now) (find_row k w.executions)
          else find_row k w.executions)
  unfolding recover_one
  recovered_row j none w at = elim (Bool-cases (j == k)) [
    | inr e ↦ rw e refl
    | inl e ↦
        let none_k = subst (λ i. find_row i w.executions ≡ none) ((eq_iff j k).0 e) at in
        rw (e, none_k) refl
  ]
  recovered_row j (some e) w at =
      let at_key : e.id ≡ j = find_row_key j w.executions e at in
      elim (Bool-cases (is_stuck t e)) [
        | inr fresh ↦ ground (arith, eq_iff j k, at, fresh)
        | inl stuck ↦ rw stuck (
            rw (leased_rows e (fail_stuck e threshold now w), stuck_rows e w)
              (ground (arith, eq_iff j k, at, stuck)))
      ]

  recovered_rows :
      (cs : List Execution) (w : World)
      → find_row k (recover_each guards threshold t now cs w).1.executions ≡ (
          if any_row (λ c. c.id == k) cs
          then Option.map (failed_if_stuck t now) (find_row k w.executions)
          else find_row k w.executions)
  unfolding recover_each any_row
  recovered_rows [] w = refl
  recovered_rows (c ∷ cs) w =
      let one = recovered_row c.id (find_row c.id w.executions) w refl in
      let rest =
        recovered_rows cs (recover_one guards threshold t now (find_row c.id w.executions) w).1 in
      rw (rest, one) (twice (find_row k w.executions) (c.id == k) (any_row (λ c. c.id == k) cs))
    where
      twice :
          (o : Option Execution) (b c : Bool)
          → (if c
              then Option.map
                  (failed_if_stuck t now)
                  (if b then Option.map (failed_if_stuck t now) o else o)
              else if b
              then Option.map (failed_if_stuck t now) o
              else o)
            ≡ (if (if b then true else c) then Option.map (failed_if_stuck t now) o else o)
      twice none b c = ground arith
      twice (some e) b c = ground (arith, failed_settled e)

unselected_fresh :
    (t now k : ℕ) (es : List Execution) (o : Option Execution)
    → find_row k es ≡ o
    → any_row (λ c. c.id == k) (select (is_stuck t) es) ≡ false
    → o ≡ Option.map (failed_if_stuck t now) o
unselected_fresh t now k es none at h = refl
unselected_fresh t now k es (some e) at h = elim (Bool-cases (is_stuck t e)) [
  | inl stuck ↦ absurd (ground (arith, any_row-select k (is_stuck t) es e at stuck, h))
  | inr fresh ↦ rw fresh refl
]

-- The sweep over candidates leaves every execution as one bulk update of the stuck ones would,
-- whatever the changes' hooks do: each claimed or running execution whose heartbeat is older than
-- the threshold has failed at the instant of the sweep, and every other execution is untouched.
pub recover_stuck_executions-rows :
    (guards : ChangeGuards) (threshold now k : ℕ) (w : World)
    → find_row k (recover_stuck_executions guards threshold now w).1.executions
      ≡ Option.map (failed_if_stuck (now - threshold) now) (find_row k w.executions)
unfolding recover_stuck_executions
recover_stuck_executions-rows guards threshold now k w =
    let t = now - threshold in
    let cs = select (is_stuck t) w.executions in
    rw (recovered_rows guards threshold t now k cs w)
      (elim (Bool-cases (any_row (λ (c : Execution). c.id == k) cs)) [
        | inl e ↦ rw e refl
        | inr e ↦ rw e (unselected_fresh t now k w.executions (find_row k w.executions) refl e)
      ])
