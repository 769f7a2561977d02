-- ===== src/Approvals/Decisions.antt =====
-- The resolution of approval requests in apps/api/apps/approvals/services.py: expiry on read and
-- `decide_approval`, with `handle_change_approval_decision` of apps/api/apps/changes/services.py.
use Prim.Native.Nat.{ℕ}
use Prim.Native.String.{String}
use mathlib.Core.Path.{◌≡◌}
use mathlib.Core.Bool.{Bool, true, false, not}
use mathlib.Core.Option.{Option, none, some}
use mathlib.Core.List.{List, [], ◌∷◌, ◌++◌}
use runbook_platform.Prelude.Tests.{leb, ◌==◌, nat_eq, string_eq, is_some, if◌then◌else◌}
use runbook_platform.Prelude.Tables.{find_row, find_where, update_row}
use runbook_platform.Prelude.Text.{id_text}
use runbook_platform.Prelude.Effects.{
  ok, err, domain_validation, invalid_state_transition, integrity_error, ◌>>=◌, ◌>>◌, pure,
}
use runbook_platform.Audit.{AuditActor, AuditEvent, Value, text, flag}
use runbook_platform.Store.{World, Service, emit}
use runbook_platform.Changes.Model.{ChangeStatus, ChangeRecord, change_row}
use runbook_platform.Changes.Transitions.{transition_change}
use runbook_platform.Approvals.Model.{
  ApprovalStatus, SubjectType, ApprovalRequest, approval_row, Decision, SourceType,
  ApprovalDecision, decision_row,
}

abbrev pub is_pending : ApprovalStatus → Bool
is_pending ApprovalStatus.pending = true
is_pending _ = false

-- The deadline has come.
abbrev pub is_due : Option ℕ → ℕ → Bool
is_due none now = false
is_due (some t) now = leb t now

abbrev pub subject_value : SubjectType → String
subject_value SubjectType.execution_step = "execution_step"
subject_value SubjectType.change_record = "change_record"
subject_value SubjectType.change_exception = "change_exception"

abbrev pub is_change_record : SubjectType → Bool
is_change_record SubjectType.change_record = true
is_change_record _ = false

abbrev is_change_exception : SubjectType → Bool
is_change_exception SubjectType.change_exception = true
is_change_exception _ = false

abbrev pub decision_value : Decision → String
decision_value Decision.approved = "approved"
decision_value Decision.rejected = "rejected"
decision_value Decision.timed_out = "timed_out"

-- `locked.status = decision`
abbrev pub status_of : Decision → ApprovalStatus
status_of Decision.approved = ApprovalStatus.approved
status_of Decision.rejected = ApprovalStatus.rejected
status_of Decision.timed_out = ApprovalStatus.timed_out

unfoldable pub write_resolved : ApprovalStatus → ℕ → ApprovalRequest → ApprovalRequest
write_resolved status now a = record a { status = status; resolved_at = some now }

abbrev pub save_resolved : ApprovalRequest → ApprovalStatus → ℕ → World → World
save_resolved a status now w = record w {
  approvals = update_row a.id (write_resolved status now) w.approvals;
}

unfoldable pub timeout_decision : ℕ → ApprovalRequest → ℕ → ApprovalDecision
timeout_decision fresh_id a now = record {
  id = fresh_id;
  approval_request_id = a.id;
  decision = Decision.timed_out;
  source_type = SourceType.system;
  decided_by_user_id = none;
  decided_by_label = "system";
  decided_by_label_source = "system";
  notes = "";
  decided_at = now;
}

abbrev pub id_entry : String → Option ℕ → List (String × Value)
id_entry name none = []
id_entry name (some k) = (name, text (id_text k)) ∷ []

decision_event_type : Decision → String
decision_event_type Decision.approved = "approval.approved"
decision_event_type Decision.rejected = "approval.rejected"
decision_event_type Decision.timed_out = "approval.timed_out"

unfoldable pub decision_event : ApprovalRequest → ApprovalDecision → AuditActor → AuditEvent
unfolding decision_event_type
decision_event a d actor = record {
  organization_id = a.organization_id;
  actor = actor;
  event_type = decision_event_type d.decision;
  object_type = "approval_decision";
  object_id = d.id;
  metadata =
      ("approval_request_id", text (id_text a.id))
      ∷ ("subject_type", text (subject_value a.subject_type))
      ∷ ("decision", text (decision_value d.decision))
      ∷ ("notes_present", flag (not (d.notes == "")))
      ∷ (id_entry "execution_id" a.execution_id
          ++ (id_entry "step_id" a.step_id ++ id_entry "subject_id" a.subject_id));
}

-- `_emit_approval_decision_audit`
abbrev pub emit_decision : ApprovalRequest → ApprovalDecision → AuditActor → World → World
emit_decision a d actor w = emit (decision_event a d actor) w

-- `ApprovalDecision.objects.create(...)`: a request has one decision at most.
unfoldable pub create_decision : ApprovalDecision → Service ApprovalDecision
create_decision d w =
    if is_some (find_row d.approval_request_id w.decisions)
    then (err integrity_error, w)
    else (ok d, record w { decisions = w.decisions ++ d ∷ [] })

-- `ApprovalDecision.objects.get_or_create(...)`: the decision, and whether it was created.
unfoldable pub get_or_create_decision : ApprovalDecision → Service (ApprovalDecision × Bool)
get_or_create_decision d w = elim (find_row d.approval_request_id w.decisions) [
  | some old ↦ (ok (old, false), w)
  | none ↦ (ok (d, true), record w { decisions = w.decisions ++ d ∷ [] })
]

-- What the approval services call of the change services, which write no approval and no decision:
-- the integrity check, the dispatch of an approved change, and the decision on an exception.
pub record ApprovalGuards : Type 0 where
  pub validate_request_integrity : ChangeRecord → Service (Unit {0})
  pub schedule_or_make_dispatchable : ChangeRecord → AuditActor → ℕ → Service (Unit {0})
  pub apply_exception_approval_decision :
      ApprovalRequest → Decision → AuditActor → Service (Unit {0})
  pub same_validate :
      (c : ChangeRecord) (w : World)
      → ((validate_request_integrity c w).1.approvals ≡ w.approvals)
        × ((validate_request_integrity c w).1.decisions ≡ w.decisions)
  pub same_schedule :
      (c : ChangeRecord) (actor : AuditActor) (now : ℕ) (w : World)
      → ((schedule_or_make_dispatchable c actor now w).1.approvals ≡ w.approvals)
        × ((schedule_or_make_dispatchable c actor now w).1.decisions ≡ w.decisions)
  pub same_apply :
      (a : ApprovalRequest) (d : Decision) (actor : AuditActor) (w : World)
      → ((apply_exception_approval_decision a d actor w).1.approvals ≡ w.approvals)
        × ((apply_exception_approval_decision a d actor w).1.decisions ≡ w.decisions)

abbrev awaits_approval : ChangeStatus → Bool
awaits_approval ChangeStatus.pending_approval = true
awaits_approval _ = false

abbrev pub is_request : ℕ → Option ℕ → Bool
is_request k none = false
is_request k (some j) = j == k

module _ (guards : ApprovalGuards) where
  unfoldable pub move_decided : ChangeRecord → Decision → AuditActor → ℕ → Service (Unit {0})
  move_decided c Decision.approved actor now = do
    (previous, moved) ← transition_change c ChangeStatus.approved (some actor) now "" []
    guards.schedule_or_make_dispatchable moved actor now
  move_decided c Decision.rejected actor now =
      transition_change c ChangeStatus.rejected (some actor) now "approval_rejected" [] >>= λ _.
      pure tt
  move_decided c Decision.timed_out actor now =
      transition_change c ChangeStatus.expired (some actor) now "approval_timed_out" [] >>= λ _.
      pure tt

  unfoldable pub decide_change :
      Option ChangeRecord → Decision → AuditActor → ℕ → Service (Unit {0})
  unfolding move_decided
  decide_change none decision actor now w =
      (err (domain_validation "change_approval_decision_orphaned"), w)
  decide_change (some c) decision actor now w =
      if awaits_approval c.status
      then (do guards.validate_request_integrity c; move_decided c decision actor now) w
      else (err (invalid_state_transition "change_approval_state_conflict"), w)

  -- `handle_change_approval_decision(approval_request_id=, decision=, actor=)`
  unfoldable pub handle_change_approval_decision :
      ℕ → Decision → AuditActor → ℕ → Service (Unit {0})
  unfolding decide_change
  handle_change_approval_decision request_id decision actor now w =
      decide_change
        (find_where (λ (c : ChangeRecord). is_request request_id c.approval_request_id) w.changes)
        decision actor now w

  -- The change that a request is about, if it is about one, follows its decision.
  unfoldable pub settle_subject : ApprovalRequest → Decision → AuditActor → ℕ → Service (Unit {0})
  settle_subject a decision actor now =
      if is_change_record a.subject_type
      then handle_change_approval_decision a.id decision actor now
      else pure tt

  -- The decision on an exception is first applied to it.
  unfoldable pub apply_to_exception : ApprovalRequest → Decision → AuditActor → Service (Unit {0})
  apply_to_exception a decision actor =
      if is_change_exception a.subject_type
      then guards.apply_exception_approval_decision a decision actor
      else pure tt
