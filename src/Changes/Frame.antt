-- ===== src/Changes/Frame.antt =====
-- The change services that the execution hooks call leave the tables of executions alone.
use Prim.Native.Nat.{ℕ}
use Prim.Native.String.{String}
use mathlib.Core.Path.{◌≡◌, refl, ◌∙◌}
use mathlib.Core.Bool.{Bool, true, false}
use mathlib.Core.Option.{Option, none, some}
use mathlib.Core.List.{List}
use native.Mathlib.Omega.{arith}
use runbook_platform.Prelude.Tests.{if◌then◌else◌}
use runbook_platform.Prelude.Tables.{find_row}
use runbook_platform.Prelude.Effects.{
  Result, ok, err, Error, ◌>>◌, invalid_state_transition, domain_validation, domain_conflict,
  invalid_workflow_definition, not_found, integrity_error, type_error, validation_error,
  payload_too_large, external_dependency, commit_or_rollback, continue, ◌>>=◌, atomic,
}
use runbook_platform.Audit.{AuditActor, Value}
use runbook_platform.Store.{World, Service}
use runbook_platform.Executions.Model.{Execution}
use runbook_platform.Changes.Model.{
  ChangeStatus, verification_pending, closed, ChangeRecord, change_row, ChangeExecutionBinding,
}
use runbook_platform.Changes.Transitions.{transition_change}
use runbook_platform.Changes.Dispatch.{
  is_dispatchable, is_running, expire_dispatchable_change, binding_of,
}
use runbook_platform.Changes.Completion.{
  SameExecutions, ChangeGuards, has_succeeded, breakglass_reason, completion_metadata,
  closing_reason, check_binding, guard_binding, assert_execution_change_binding_ready,
  enforce_emergency_expiry_for_execution, move, begin_verification, settle_outcome, finish_change,
  after_integrity, settle_change, handle_bound_execution_completed,
}

pub SameExecutions-refl : (w : World) → SameExecutions w w
SameExecutions-refl w = ground arith

SameExecutions-trans :
    {u v w : World} → SameExecutions u v → SameExecutions v w → SameExecutions u w
SameExecutions-trans a b = record {
  executions = a.executions ∙ b.executions;
  steps = a.steps ∙ b.steps;
  leases = a.leases ∙ b.leases;
  approvals = a.approvals ∙ b.approvals;
  decisions = a.decisions ∙ b.decisions;
}

-- The call leaves the tables of executions alone, whatever it returns.
pub record Frames {A : Type 0} (m : Service A) : Type 0 where
  pub frame : (w : World) → SameExecutions (m w).1 w

module _ {A : Type 0} where
  Frames-return : (r : Result A) → Frames (λ w. (r, w))
  Frames-return r = record { frame = SameExecutions-refl }

  Frames-if : (b : Bool) (m n : Service A) → Frames m → Frames n → Frames (if b then m else n)
  Frames-if true m n f g = f
  Frames-if false m n f g = g

  -- The same where the branches are applied.
  Frames-branch :
      (b : Bool) (m n : Service A) → Frames m → Frames n → Frames (λ w. (if b then m w else n w))
  Frames-branch true m n f g = record { frame = f.frame }
  Frames-branch false m n f g = record { frame = g.frame }

  rollback :
      (w : World) (r : Result A) (v : World)
      → SameExecutions v w
      → SameExecutions (commit_or_rollback w r v).1 w
  rollback w (ok a) v h = h
  rollback w (err e) v h = SameExecutions-refl w

  Frames-atomic : (m : Service A) → Frames m → Frames (atomic m)
  Frames-atomic m f = record { frame = λ w. rollback w (m w).0 (m w).1 (f.frame w) }

module _ {A B : Type 0} (f : A → Service B) where
  after_result :
      (r : Result A) (w : World) → ((a : A) → Frames (f a)) → SameExecutions (continue r f w).1 w
  after_result (ok a) w kf = (kf a).frame w
  after_result (err e) w kf = SameExecutions-refl w

  Frames-bind : (m : Service A) → Frames m → ((a : A) → Frames (f a)) → Frames (m >>= f)
  Frames-bind m km kf = record {
    frame = λ w. SameExecutions-trans (after_result (m w).0 (m w).1 kf) (km.frame w);
  }

Frames-transition_change :
    (c : ChangeRecord) (s : ChangeStatus) (actor : Option AuditActor) (now : ℕ) (reason : String)
    → (extra : List (String × Value)) → Frames (transition_change c s actor now reason extra)
unfolding transition_change
Frames-transition_change c s actor now reason extra = record { frame = λ w. ground arith }

Frames-expire_dispatchable :
    (c : ChangeRecord) (now : ℕ) (actor : Option AuditActor) (reason : String)
    → Frames (expire_dispatchable_change c now actor reason)
unfolding expire_dispatchable_change transition_change
Frames-expire_dispatchable c now actor reason = record { frame = λ w. ground arith }

module _ (guards : ChangeGuards) where
  Frames-move :
      (c : ChangeRecord) (s : ChangeStatus) (now : ℕ) (reason : String)
      → (extra : List (String × Value)) → Frames (move guards c s now reason extra)
  unfolding transition_change
  Frames-move c s now reason extra = record { frame = λ w. ground arith }

  Frames-begin_verification :
      (c : ChangeRecord) (now : ℕ) (extra : List (String × Value))
      → Frames (begin_verification guards c now extra)
  Frames-begin_verification c now extra =
      Frames-bind (λ _. guards.recompute_verification_state c)
        (move guards c verification_pending now "" extra)
        (Frames-move c verification_pending now "" extra)
        (λ _. record { frame = guards.same_recompute c })

  Frames-settle_outcome :
      (e : Execution) (c : ChangeRecord) (now : ℕ) (required : Bool)
      → (extra : List (String × Value)) → Frames (settle_outcome guards e c now required extra)
  unfolding settle_outcome
  Frames-settle_outcome e c now required extra =
      Frames-if (has_succeeded e.status) _ _
        (Frames-if required _ _ (Frames-begin_verification c now extra)
          (Frames-move c closed now "execution_succeeded" extra))
        (Frames-move c closed now (closing_reason e.status) extra)

  Frames-finish_change :
      (e : Execution) (c : ChangeRecord) (now : ℕ) → Frames (finish_change guards e c now)
  unfolding finish_change
  Frames-finish_change e c now =
      let required = guards.verification_required c in
      let extra = completion_metadata e required in
      Frames-bind (λ _. settle_outcome guards e c now required extra)
        (guards.end_active_breakglass_sessions c (breakglass_reason e.status))
        (record { frame = guards.same_end c (breakglass_reason e.status) })
        (λ _. Frames-settle_outcome e c now required extra)

  Frames-after_integrity :
      (e : Execution) (c : ChangeRecord) (now : ℕ) (r : Result (Unit {0}))
      → Frames (after_integrity guards e c now r)
  unfolding after_integrity
  Frames-after_integrity e c now (ok x) = Frames-finish_change e c now
  Frames-after_integrity e c now (err (invalid_state_transition code)) =
      Frames-move c closed now "request_integrity_mismatch" _
  Frames-after_integrity e c now (err (domain_validation code)) = Frames-return _
  Frames-after_integrity e c now (err (domain_conflict code)) = Frames-return _
  Frames-after_integrity e c now (err (invalid_workflow_definition code)) = Frames-return _
  Frames-after_integrity e c now (err not_found) = Frames-return _
  Frames-after_integrity e c now (err integrity_error) = Frames-return _
  Frames-after_integrity e c now (err type_error) = Frames-return _
  Frames-after_integrity e c now (err validation_error) = Frames-return _
  Frames-after_integrity e c now (err (payload_too_large code)) = Frames-return _
  Frames-after_integrity e c now (err (external_dependency code)) = Frames-return _

  Frames-settle_change :
      (e : Execution) (o : Option ChangeRecord) (now : ℕ) → Frames (settle_change guards e o now)
  unfolding settle_change
  Frames-settle_change e none now = Frames-return (err not_found)
  Frames-settle_change e (some c) now =
      Frames-branch (is_dispatchable c.status)
        (expire_dispatchable_change c now none "execution_failed_before_binding") _
        (Frames-expire_dispatchable c now none "execution_failed_before_binding")
        (Frames-branch (is_running c.status)
          (λ v.
            after_integrity guards e c now (guards.validate_request_integrity c v).0
              (guards.validate_request_integrity c v).1)
          (λ v. (ok tt, v))
          (record {
            frame = λ v.
                SameExecutions-trans
                  ((Frames-after_integrity e c now (guards.validate_request_integrity c v).0).frame
                    (guards.validate_request_integrity c v).1)
                  (guards.same_validate c v);
          })
          (Frames-return (ok tt)))

  -- The hook at the end of an execution writes no execution, step or lease.
  pub Frames-handle_bound :
      (e : Execution) (now : ℕ) → Frames (handle_bound_execution_completed guards e now)
  unfolding handle_bound_execution_completed
  Frames-handle_bound e now = record { frame = λ w. settled w (binding_of e.id w) refl }
    where
      settled :
          (w : World) (o : Option ChangeExecutionBinding)
          → binding_of e.id w ≡ o
          → SameExecutions (handle_bound_execution_completed guards e now w).1 w
      settled w none h = rw (h, handle_bound_execution_completed) (SameExecutions-refl w)
      settled w (some b) h =
          rw (h, handle_bound_execution_completed)
            ((Frames-atomic
                (λ (v : World).
                  settle_change guards e (find_row b.change_record_id v.changes) now v)
                (record {
                  frame = λ v.
                      (Frames-settle_change e (find_row b.change_record_id v.changes) now).frame v;
                })).frame
              w)

  Frames-guard_binding :
      (e : Execution) (b : ChangeExecutionBinding) (o : Option ChangeRecord)
      → (runner_id claim_token : String) (now : ℕ)
      → Frames (guard_binding guards e b o runner_id claim_token now)
  unfolding guard_binding
  Frames-guard_binding e b none runner_id claim_token now = Frames-return (err not_found)
  Frames-guard_binding e b (some c) runner_id claim_token now =
      checked (check_binding e b c runner_id claim_token)
    where
      checked :
          (o : Option Error)
          → Frames {A = Unit {0}} (λ (w : World). elim o [
            | some e ↦ (err e, w)
            | none ↦
                (do guards.enforce_emergency_expiry c now; guards.validate_request_integrity c) w
          ])
      checked (some error) = Frames-return (err error)
      checked none =
          Frames-bind (λ _. guards.validate_request_integrity c)
            (guards.enforce_emergency_expiry c now) (record { frame = guards.same_enforce c now })
            (λ _. record { frame = guards.same_validate c })

  -- The guard on the runner of a change writes no execution, step or lease.
  pub Frames-assert_ready :
      (e : Execution) (runner_id claim_token : String) (now : ℕ)
      → Frames (assert_execution_change_binding_ready guards e runner_id claim_token now)
  unfolding assert_execution_change_binding_ready
  Frames-assert_ready e runner_id claim_token now = record {
    frame = λ w. ready w (binding_of e.id w) refl;
  }
    where
      ready :
          (w : World) (o : Option ChangeExecutionBinding)
          → binding_of e.id w ≡ o
          → SameExecutions
              (assert_execution_change_binding_ready guards e runner_id claim_token now w).1
              w
      ready w none h = rw (h, assert_execution_change_binding_ready) (SameExecutions-refl w)
      ready w (some b) h =
          rw (h, assert_execution_change_binding_ready)
            ((Frames-guard_binding e b (find_row b.change_record_id w.changes) runner_id claim_token
                now).frame
              w)

  -- The expiry of emergency records writes no execution, step or lease.
  pub Frames-enforce :
      (e : Execution) (now : ℕ) → Frames (enforce_emergency_expiry_for_execution guards e now)
  unfolding enforce_emergency_expiry_for_execution
  Frames-enforce e now = record { frame = λ w. enforced w (binding_of e.id w) refl }
    where
      of_change :
          (w : World) (o : Option ChangeRecord)
          → SameExecutions
              (let r : Result (Unit {0}) × World = elim o [
                | none ↦ (err not_found, w)
                | some change ↦ guards.enforce_emergency_expiry change now w
              ] in
                r).1
              w
      of_change w none = SameExecutions-refl w
      of_change w (some c) = guards.same_enforce c now w

      enforced :
          (w : World) (o : Option ChangeExecutionBinding)
          → binding_of e.id w ≡ o
          → SameExecutions (enforce_emergency_expiry_for_execution guards e now w).1 w
      enforced w none h = rw (h, enforce_emergency_expiry_for_execution) (SameExecutions-refl w)
      enforced w (some b) h =
          rw (h, enforce_emergency_expiry_for_execution)
            (of_change w (find_row b.change_record_id w.changes))
