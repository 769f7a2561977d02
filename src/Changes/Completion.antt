-- ===== src/Changes/Completion.antt =====
-- What the end of an execution does to the change that it carries out, and the guard on its runner,
-- in apps/api/apps/changes/services.py.
use Prim.Native.Nat.{ℕ}
use Prim.Native.String.{String}
use mathlib.Core.Path.{◌≡◌}
use mathlib.Core.Bool.{Bool, true, false, ◌||◌, not}
use mathlib.Core.Option.{Option, none, some}
use mathlib.Core.List.{List, [], ◌∷◌}
use runbook_platform.Prelude.Tests.{◌==◌, nat_eq, string_eq, is_some, if◌then◌else◌}
use runbook_platform.Prelude.Tables.{find_row}
use runbook_platform.Prelude.Effects.{
  Result, ok, err, Error, invalid_state_transition, not_found, ◌>>=◌, ◌>>◌, pure, atomic,
}
use runbook_platform.Audit.{Value, system_actor, text, flag}
use runbook_platform.Store.{World, Service}
use runbook_platform.Executions.Model.{
  Execution, ExecutionStatus, succeeded, cancelled, status_value,
}
use runbook_platform.Changes.Model.{
  ChangeStatus, verification_pending, closed, ChangeRecord, change_row, ChangeExecutionBinding,
}
use runbook_platform.Changes.Transitions.{transition_change}
use runbook_platform.Changes.Dispatch.{
  is_dispatchable, is_running, expire_dispatchable_change, binding_of,
}

-- The tables of executions and approvals, which the change services' other parts do not write.
pub record SameExecutions (v w : World) : Type 0 where
  pub executions : v.executions ≡ w.executions
  pub steps : v.steps ≡ w.steps
  pub leases : v.leases ≡ w.leases
  pub approvals : v.approvals ≡ w.approvals
  pub decisions : v.decisions ≡ w.decisions

-- What the execution hooks call of the change services, with its frame: the expiry of emergency
-- records, the integrity check of the request, the end of breakglass sessions, the recomputation of
-- the verification state, and the profile's flag.
pub record ChangeGuards : Type 0 where
  pub enforce_emergency_expiry : ChangeRecord → ℕ → Service (Unit {0})
  pub validate_request_integrity : ChangeRecord → Service (Unit {0})
  pub end_active_breakglass_sessions : ChangeRecord → String → Service (Unit {0})
  pub recompute_verification_state : ChangeRecord → Service (Unit {0})
  pub verification_required : ChangeRecord → Bool
  pub same_enforce :
      (c : ChangeRecord) (now : ℕ) (w : World)
      → SameExecutions (enforce_emergency_expiry c now w).1 w
  pub same_validate :
      (c : ChangeRecord) (w : World) → SameExecutions (validate_request_integrity c w).1 w
  pub same_end :
      (c : ChangeRecord) (reason : String) (w : World)
      → SameExecutions (end_active_breakglass_sessions c reason w).1 w
  pub same_recompute :
      (c : ChangeRecord) (w : World) → SameExecutions (recompute_verification_state c w).1 w

abbrev pub has_succeeded : ExecutionStatus → Bool
has_succeeded succeeded = true
has_succeeded _ = false

abbrev pub completion_metadata : Execution → Bool → List (String × Value)
completion_metadata execution verification_required =
    ("execution_status", text (status_value execution.status))
    ∷ ("verification_required", flag verification_required)
    ∷ []

-- `str(execution.claim_token)`
abbrev pub token_text : Option String → String
token_text none = "None"
token_text (some t) = t

-- The checks of `assert_execution_change_binding_ready` on the binding and its change, in order.
unfoldable pub check_binding :
    Execution → ChangeExecutionBinding → ChangeRecord → String → String → Option Error
check_binding execution binding change runner_id claim_token =
    if not (is_some binding.bound_at) || not (is_running change.status)
    then some (invalid_state_transition "change_binding_not_confirmed")
    else if not (binding.bound_by_runner_id == runner_id)
    then some (invalid_state_transition "change_binding_runner_mismatch")
    else if not (execution.claimed_by_runner_id == binding.bound_by_runner_id)
    then some (invalid_state_transition "change_binding_runner_mismatch")
    else if not (token_text execution.claim_token == claim_token)
    then some (invalid_state_transition "claim_token_mismatch")
    else none

abbrev pub closing_reason : ExecutionStatus → String
closing_reason cancelled = "execution_cancelled"
closing_reason _ = "execution_failed"

abbrev pub breakglass_reason : ExecutionStatus → String
breakglass_reason succeeded = "execution_finished"
breakglass_reason s = closing_reason s

module _ (guards : ChangeGuards) where
  unfoldable pub guard_binding :
      Execution
      → ChangeExecutionBinding
      → Option ChangeRecord
      → String
      → String
      → ℕ
      → Service (Unit {0})
  guard_binding execution binding none runner_id claim_token now w = (err not_found, w)
  guard_binding execution binding (some change) runner_id claim_token now w =
      elim (check_binding execution binding change runner_id claim_token) [
        | some e ↦ (err e, w)
        | none ↦
            (do
              guards.enforce_emergency_expiry change now
              guards.validate_request_integrity change)
              w
      ]

  unfoldable pub assert_execution_change_binding_ready :
      Execution → String → String → ℕ → Service (Unit {0})
  assert_execution_change_binding_ready execution runner_id claim_token now w =
      elim (binding_of execution.id w) [
        | none ↦ (ok tt, w)
        | some b ↦
            guard_binding execution b (find_row b.change_record_id w.changes) runner_id claim_token
              now w
      ]

  unfoldable pub enforce_emergency_expiry_for_execution : Execution → ℕ → Service (Unit {0})
  enforce_emergency_expiry_for_execution execution now w = elim (binding_of execution.id w) [
    | none ↦ (ok tt, w)
    | some b ↦ elim (find_row b.change_record_id w.changes) [
      | none ↦ (err not_found, w)
      | some change ↦ guards.enforce_emergency_expiry change now w
    ]
  ]

  abbrev pub move :
      ChangeRecord → ChangeStatus → ℕ → String → List (String × Value) → Service (Unit {0})
  move change new_status now reason extra =
      transition_change change new_status (some (system_actor "Change service")) now reason extra
      >>= λ _. pure tt

  abbrev pub begin_verification : ChangeRecord → ℕ → List (String × Value) → Service (Unit {0})
  begin_verification change now extra =
      move change verification_pending now "" extra >> guards.recompute_verification_state change

  unfoldable pub settle_outcome :
      Execution → ChangeRecord → ℕ → Bool → List (String × Value) → Service (Unit {0})
  settle_outcome execution change now required extra =
      if has_succeeded execution.status
      then if required
        then begin_verification change now extra
        else move change closed now "execution_succeeded" extra
      else move change closed now (closing_reason execution.status) extra

  -- A running change whose request is intact: its verification begins, or it is closed.
  unfoldable pub finish_change : Execution → ChangeRecord → ℕ → Service (Unit {0})
  finish_change execution change now = do
    guards.end_active_breakglass_sessions change (breakglass_reason execution.status)
    let required = guards.verification_required change
    settle_outcome execution change now required (completion_metadata execution required)

  -- The integrity check's own failure closes the change; any other error goes on.
  unfoldable pub after_integrity :
      Execution → ChangeRecord → ℕ → Result (Unit {0}) → Service (Unit {0})
  after_integrity execution change now (ok _) = finish_change execution change now
  after_integrity execution change now (err (invalid_state_transition code)) =
      move change closed now "request_integrity_mismatch"
        (("execution_status", text (status_value execution.status)) ∷ [])
  after_integrity execution change now (err e) = λ w. (err e, w)

  unfoldable pub settle_change : Execution → Option ChangeRecord → ℕ → Service (Unit {0})
  settle_change execution none now w = (err not_found, w)
  settle_change execution (some change) now w =
      if is_dispatchable change.status
      then expire_dispatchable_change change now none "execution_failed_before_binding" w
      else if is_running change.status
      then (let (r, v) = guards.validate_request_integrity change w in
          after_integrity execution change now r v)
      else (ok tt, w)

  unfoldable pub handle_bound_execution_completed : Execution → ℕ → Service (Unit {0})
  handle_bound_execution_completed execution now w = elim (binding_of execution.id w) [
    | none ↦ (ok tt, w)
    | some b ↦
        atomic
          (λ (v : World). settle_change execution (find_row b.change_record_id v.changes) now v) w
  ]
