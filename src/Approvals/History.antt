-- ===== src/Approvals/History.antt =====
-- Sequences of the calls of apps/api/apps/approvals/services.py, by any callers in any order.
use Prim.Native.Nat.{ℕ}
use mathlib.Core.Path.{◌≡◌, refl}
use mathlib.Core.Bool.{Bool, true, false, ◌&&◌, not}
use mathlib.Core.Option.{Option, none, some}
use mathlib.Core.Logic.{inl, inr}
use mathlib.Core.List.{[], ◌∷◌}
use native.Mathlib.Omega.{arith}
use runbook_platform.Prelude.Tests.{Bool-cases, is_some}
use runbook_platform.Prelude.Tables.{find_row, find_row-append, update_row}
use runbook_platform.Prelude.Json.{get_field}
use runbook_platform.Prelude.Effects.{Result, ok, err, Error, ◌>>=◌, pure, atomic, modify, raise_if}
use runbook_platform.Store.{World}
use runbook_platform.Changes.Completion.{ChangeGuards}
use runbook_platform.Executions.Model.{Execution, ExecutionStep, execution_row, step_row}
use runbook_platform.Executions.Events.{emit_step_transition_audit}
use runbook_platform.Approvals.Model.{ApprovalRequest, approval_row, ApprovalDecision, decision_row}
use runbook_platform.Approvals.Decisions.{is_pending, ApprovalGuards}
use runbook_platform.Approvals.Resolution.{
  DecisionCall, decide_approval, get_approval_status, recover_expired_approvals,
}
use runbook_platform.Approvals.Requests.{
  ApprovalCall, timeout_of, request_of, new_request, create_request, begin_approval, start_approval,
  reuse_or_start, reusable, check_request, announce_request, request_found, request_step_approval,
  step_is_pending, write_waiting,
}
use runbook_platform.Approvals.Keeping.{
  KeepsResolved, KeepsResolved-refl, KeepsResolved-same, KeepsResolved-trans, Keeping,
  Keeping-return, Keeping-if, Keeping-bind, Keeping-atomic,
}
use runbook_platform.Approvals.Final.{
  decide_approval-KeepsResolved, get_approval_status-KeepsResolved,
}
use runbook_platform.Approvals.Timeouts.{recover_expired_approvals-KeepsResolved}

Keeping-create_request : (a : ApprovalRequest) (k : ℕ) → Keeping (create_request a k)
unfolding create_request
Keeping-create_request a k = record {
  keeps = λ w. elim (Bool-cases (is_some (request_of k w))) [
    | inl there ↦ rw there (KeepsResolved-refl w)
    | inr absent ↦ rw absent (record {
      requests = λ j b found done. find_row-append j w.approvals (a ∷ []) b found;
      decisions = λ j d found. found;
    })
  ];
}

module _ (c : ApprovalCall) (e : Execution) (s : ExecutionStep) where
  Keeping-begin : (r : Result (Option ℕ)) → Keeping (begin_approval c e s r)
  unfolding begin_approval emit_step_transition_audit
  Keeping-begin (err error) = Keeping-return (err error)
  Keeping-begin (ok t) =
      Keeping-bind _ (create_request (new_request c e s t) s.id) (Keeping-create_request _ s.id)
        (λ _. record { keeps = λ w. KeepsResolved-same (ground arith) (ground arith) })

  Keeping-start : Keeping (start_approval c e s)
  unfolding start_approval
  Keeping-start = Keeping-if (not (step_is_pending s.status)) _ _ (Keeping-return _) (
      Keeping-if (not s.requires_approval && not c.policy_driven) _ _ (Keeping-return _) (
        Keeping-bind
          (λ _.
            begin_approval c e s (timeout_of (get_field "approvalTimeoutSeconds" s.step_snapshot)))
          (modify (λ (w : World). record w { steps = update_row s.id write_waiting w.steps }))
          (record { keeps = λ w. KeepsResolved-same refl refl }) (λ _. Keeping-begin _)))

  Keeping-reuse : (o : Option ApprovalRequest) → Keeping (reuse_or_start c e s o)
  unfolding reuse_or_start
  Keeping-reuse (some a) = Keeping-return _
  Keeping-reuse none = Keeping-start

  Keeping-raise : (o : Option Error) → Keeping {A = Unit {0}} (raise_if o)
  Keeping-raise none = Keeping-return _
  Keeping-raise (some error) = Keeping-return _

  announced : (p : ApprovalRequest × Bool) (w : World) → KeepsResolved (announce_request e s p w) w
  unfolding announce_request
  announced (a, false) w = KeepsResolved-refl w
  announced (a, true) w = KeepsResolved-same refl refl

Keeping-request_found :
    (c : ApprovalCall) (e : Option Execution) (s : Option ExecutionStep)
    → Keeping (request_found c e s)
unfolding request_found
Keeping-request_found c none s = Keeping-return _
Keeping-request_found c (some e) none = Keeping-return _
Keeping-request_found c (some e) (some s) =
    Keeping-bind (λ r. modify (announce_request e s r) >>= λ _. pure r)
      (atomic
        (raise_if (check_request c e s) >>= λ _ (w : World). reuse_or_start c e s (reusable s w) w))
      (Keeping-atomic _ (
        Keeping-bind _ (raise_if (check_request c e s)) (Keeping-raise c e s (check_request c e s))
          (λ _. record { keeps = λ w. (Keeping-reuse c e s (reusable s w)).keeps w })))
      (λ r. record { keeps = announced c e s r })

-- A call of a runner, a user or the watchdog on the approvals, with its arguments.
pub data Call : Type 0 where
  request : ℕ → ℕ → ApprovalCall → Call
  decide : ℕ → DecisionCall → Call
  poll : ApprovalRequest → ℕ → ℕ → Call
  recover : ℕ → (ℕ → ℕ) → ℕ → Call

module _ (guards : ApprovalGuards) (changes : ChangeGuards) where
  -- The world after a call, whether it returns or raises.
  unfoldable pub after_call : Call → World → World
  after_call (request execution_id step_id c) w = (request_step_approval execution_id step_id c w).1
  after_call (decide k c) w = (decide_approval guards k c w).1
  after_call (poll seen now fresh_id) w = (get_approval_status guards seen now fresh_id w).1
  after_call (recover now fresh_ids batch_size) w =
      (recover_expired_approvals guards changes now fresh_ids batch_size w).1

  -- The worlds that calls lead to.
  pub data Reached (w : World) : World → Type 0 where
    start : Reached w w
    call : {v : World} → Reached w v → (c : Call) → Reached w (after_call c v)

  call-KeepsResolved : (c : Call) (w : World) → KeepsResolved (after_call c w) w
  unfolding after_call request_step_approval
  call-KeepsResolved (request execution_id step_id c) w =
      (Keeping-request_found c (find_row execution_id w.executions)
          (find_row step_id w.steps)).keeps
        w
  call-KeepsResolved (decide k c) w = decide_approval-KeepsResolved guards k c w
  call-KeepsResolved (poll seen now fresh_id) w =
      get_approval_status-KeepsResolved guards seen now fresh_id w
  call-KeepsResolved (recover now fresh_ids batch_size) w =
      recover_expired_approvals-KeepsResolved changes guards now fresh_ids batch_size w

  Reached-KeepsResolved : {w v : World} → Reached w v → KeepsResolved v w
  Reached-KeepsResolved {w} start = KeepsResolved-refl w
  Reached-KeepsResolved (call {v} r c) =
      KeepsResolved-trans (call-KeepsResolved c v) (Reached-KeepsResolved r)

  -- Once an approval request is approved, rejected or timed out, no sequence of step requests,
  -- decisions, status reads and watchdog sweeps, by any callers and with any results, changes its
  -- row.
  pub resolved_final :
      (w v : World) (k : ℕ) (a : ApprovalRequest)
      → Reached w v
      → find_row k w.approvals ≡ some a
      → is_pending a.status ≡ false
      → find_row k v.approvals ≡ some a
  resolved_final w v k a r found done = (Reached-KeepsResolved r).requests k a found done

  -- Once a decision on a request is recorded, no such sequence of calls replaces or changes it.
  pub decision_final :
      (w v : World) (k : ℕ) (d : ApprovalDecision)
      → Reached w v
      → find_row k w.decisions ≡ some d
      → find_row k v.decisions ≡ some d
  decision_final w v k d r found = (Reached-KeepsResolved r).decisions k d found
