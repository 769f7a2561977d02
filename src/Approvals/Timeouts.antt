-- ===== src/Approvals/Timeouts.antt =====
-- `recover_expired_approvals` of apps/api/apps/approvals/services.py keeps what is resolved.
use Prim.Native.Nat.{ℕ}
use mathlib.Core.Path.{◌≡◌, refl, sym, subst}
use mathlib.Core.Bool.{Bool, true, false}
use mathlib.Core.Option.{Option, none, some}
use mathlib.Core.Logic.{inl, inr}
use mathlib.Core.List.{List, [], ◌∷◌, ◌++◌, map}
use native.Mathlib.Omega.{arith}
use runbook_platform.Prelude.Tests.{Bool-cases, if◌then◌else◌}
use runbook_platform.Prelude.Tables.{find_row, find_row_key}
use runbook_platform.Prelude.Effects.{ok, ◌>>=◌, pure, atomic, modify}
use runbook_platform.Store.{World}
use runbook_platform.Changes.Completion.{ChangeGuards}
use runbook_platform.Changes.Frame.{Frames-handle_bound}
use runbook_platform.Executions.Model.{Execution, ExecutionStatus, ExecutionStep, execution_row}
use runbook_platform.Executions.Completion.{is_underway, write_finished}
use runbook_platform.Executions.Steps.{step_of}
use runbook_platform.Executions.Watchdog.{
  step_is_waiting, save_approval_timeout, announce_approval_timeout, run_hook, fail_waiting,
  fail_execution_for_approval_timeout,
}
use runbook_platform.Approvals.Model.{
  ApprovalStatus, ApprovalRequest, approval_row, Decision, ApprovalDecision,
}
use runbook_platform.Approvals.Decisions.{
  is_change_record, save_resolved, timeout_decision, get_or_create_decision, ApprovalGuards,
  settle_subject,
}
use runbook_platform.Approvals.Resolution.{
  expired_now, system, fail_blocked, recover_created, recover_locked, notify_timeouts,
  recover_expired_approval, recover_approvals, recover_expired_approvals,
}
use runbook_platform.Approvals.Keeping.{
  KeepsResolved, KeepsResolved-refl, KeepsResolved-same, KeepsResolved-trans,
  save_resolved-KeepsResolved, Keeping, Keeping-return, Keeping-if, Keeping-bind, Keeping-atomic,
  Keeping-get_or_create, Keeping-settle,
}
use runbook_platform.Approvals.Final.{expired_pending}

module _ (changes : ChangeGuards) where
  hooked : (e : Execution) (now : ℕ) (w : World) → KeepsResolved (run_hook changes e now w) w
  unfolding run_hook
  hooked e now w =
      let same = (Frames-handle_bound changes e now).frame w in
      KeepsResolved-same same.approvals same.decisions

  waiting-KeepsResolved :
      (approval_id now : ℕ) (e : Option Execution) (s : Option ExecutionStep) (w : World)
      → KeepsResolved (fail_waiting changes approval_id now e s w).1 w
  unfolding fail_waiting save_approval_timeout announce_approval_timeout
  waiting-KeepsResolved approval_id now none s w = KeepsResolved-refl w
  waiting-KeepsResolved approval_id now (some e) none w = KeepsResolved-refl w
  waiting-KeepsResolved approval_id now (some e) (some s) w =
      elim (Bool-cases (is_underway e.status)) [
        | inr ended ↦ rw ended (KeepsResolved-refl w)
        | inl open_yet ↦ rw open_yet (elim (Bool-cases (step_is_waiting s.status)) [
          | inr other ↦ rw other (KeepsResolved-refl w)
          | inl waiting ↦ rw waiting (
              KeepsResolved-trans (hooked (write_finished ExecutionStatus.failed now e) now _)
                (KeepsResolved-same refl refl))
        ])
      ]

  Keeping-timeout :
      (execution_id step_id approval_id now : ℕ)
      → Keeping (fail_execution_for_approval_timeout changes execution_id step_id approval_id now)
  unfolding fail_execution_for_approval_timeout
  Keeping-timeout execution_id step_id approval_id now = record {
    keeps = λ w.
        waiting-KeepsResolved approval_id now (find_row execution_id w.executions)
          (step_of execution_id step_id w) w;
  }

  Keeping-blocked :
      (guards : ApprovalGuards) (a : ApprovalRequest) (e s : Option ℕ) (now : ℕ)
      → Keeping (fail_blocked guards changes a e s now)
  Keeping-blocked guards a (some e) (some s) now =
      Keeping-bind (λ _. pure tt) (fail_execution_for_approval_timeout changes e s a.id now)
        (Keeping-timeout e s a.id now) (λ _. Keeping-return (ok tt))
  Keeping-blocked guards a (some e) none now = Keeping-return (ok tt)
  Keeping-blocked guards a none s now = Keeping-return (ok tt)

  module _ (guards : ApprovalGuards) (now : ℕ) where
    Keeping-created :
        (a : ApprovalRequest) (p : ApprovalDecision × Bool)
        → Keeping (recover_created guards changes now a p)
    unfolding recover_created
    Keeping-created a (d, false) = Keeping-return (ok [])
    Keeping-created a (d, true) =
        Keeping-bind _ (modify (λ (w : World). _))
          (record { keeps = λ w. KeepsResolved-same refl refl })
          (λ _.
            Keeping-bind (λ _. pure (a ∷ []))
              (if is_change_record a.subject_type
                then settle_subject guards a Decision.timed_out system now
                else fail_blocked guards changes a a.execution_id a.step_id now)
              (Keeping-if (is_change_record a.subject_type) _ _
                (Keeping-settle guards a Decision.timed_out system now)
                (Keeping-blocked guards a a.execution_id a.step_id now))
              (λ _. Keeping-return (ok (a ∷ []))))

    recover_locked-KeepsResolved :
        (fresh_id k : ℕ) (o : Option ApprovalRequest) (w : World)
        → find_row k w.approvals ≡ o
        → KeepsResolved (recover_locked guards changes now fresh_id o w).1 w
    unfolding recover_locked
    recover_locked-KeepsResolved fresh_id k none w at = KeepsResolved-refl w
    recover_locked-KeepsResolved fresh_id k (some a) w at = elim (Bool-cases (expired_now a now)) [
      | inr in_time ↦ rw in_time (KeepsResolved-refl w)
      | inl late ↦
          let d = timeout_decision fresh_id a now in
          rw late (
            KeepsResolved-trans
              ((Keeping-bind (recover_created guards changes now a) (get_or_create_decision d)
                  (Keeping-get_or_create d) (Keeping-created a)).keeps
                (save_resolved a ApprovalStatus.timed_out now w))
              (save_resolved-KeepsResolved a ApprovalStatus.timed_out now w
                (subst (λ j. find_row j w.approvals ≡ some a)
                  (sym (find_row_key k w.approvals a at)) at)
                (expired_pending guards a now late)))
    ]

    notified :
        (found : List ApprovalRequest) (w : World) → KeepsResolved (notify_timeouts found w) w
    unfolding notify_timeouts
    notified [] w = KeepsResolved-refl w
    notified (a ∷ rest) w =
        KeepsResolved-trans (notified rest _) (KeepsResolved-same (ground arith) (ground arith))

    Keeping-recover :
        (fresh_id k : ℕ) → Keeping (recover_expired_approval guards changes now fresh_id k)
    unfolding recover_expired_approval
    Keeping-recover fresh_id k =
        Keeping-bind (λ found. modify (notify_timeouts found) >>= λ _. pure found)
          (atomic
            (λ (w : World). recover_locked guards changes now fresh_id (find_row k w.approvals) w))
          (Keeping-atomic _ (record {
            keeps = λ w. recover_locked-KeepsResolved fresh_id k (find_row k w.approvals) w refl;
          }))
          (λ found. record { keeps = notified found })

    Keeping-recover_each :
        (fresh_ids : ℕ → ℕ) (cs : List ApprovalRequest)
        → Keeping (recover_approvals guards changes now fresh_ids cs)
    unfolding recover_approvals
    Keeping-recover_each fresh_ids [] = Keeping-return (ok [])
    Keeping-recover_each fresh_ids (c ∷ cs) =
        Keeping-bind _ (recover_expired_approval guards changes now (fresh_ids c.id) c.id)
          (Keeping-recover (fresh_ids c.id) c.id)
          (λ one.
            Keeping-bind (λ rest. pure (map (λ (a : ApprovalRequest). a.id) one ++ rest))
              (recover_approvals guards changes now fresh_ids cs)
              (Keeping-recover_each fresh_ids cs) (λ rest. Keeping-return (ok _)))

    pub recover_expired_approvals-KeepsResolved :
        (fresh_ids : ℕ → ℕ) (batch_size : ℕ) (w : World)
        → KeepsResolved (recover_expired_approvals guards changes now fresh_ids batch_size w).1 w
    unfolding recover_expired_approvals
    recover_expired_approvals-KeepsResolved fresh_ids batch_size w =
        (Keeping-recover_each fresh_ids _).keeps w
