-- ===== src/Scenarios/Approvals.antt =====
-- Approval requests of apps/api/apps/approvals on which the theorems are applied.
use Prim.Native.Nat.{ℕ}
use mathlib.Core.Path.{◌≡◌, refl}
use mathlib.Core.Bool.{false}
use mathlib.Core.Option.{none, some}
use mathlib.Core.List.{[], ◌∷◌}
use runbook_platform.Prelude.Tables.{find_row}
use runbook_platform.Prelude.Effects.{ok, err, domain_conflict}
use runbook_platform.Store.{World, empty_world}
use runbook_platform.Changes.Frame.{SameExecutions-refl}
use runbook_platform.Changes.Completion.{ChangeGuards}
use runbook_platform.Approvals.Model.{
  ApprovalStatus, SubjectType, ApprovalRequest, approval_row, Decision, ApprovalDecision,
  decision_row,
}
use runbook_platform.Approvals.Decisions.{
  ApprovalGuards, apply_to_exception, create_decision, settle_subject,
}
use runbook_platform.Approvals.Resolution.{
  DecisionCall, decide_locked, resolve, human_decision, public_actor, decide_approval,
}
use runbook_platform.Approvals.History.{Call, Reached, after_call, resolved_final}
use runbook_platform.Approvals.Decided.{Decided, decide_once, decide_approval-Decided}

-- Change services that find nothing to do.
abbrev idle_guards : ApprovalGuards
idle_guards = record {
  validate_request_integrity = λ c w. (ok tt, w);
  schedule_or_make_dispatchable = λ c actor now w. (ok tt, w);
  apply_exception_approval_decision = λ a d actor w. (ok tt, w);
  same_validate = λ c w. (refl, refl);
  same_schedule = λ c actor now w. (refl, refl);
  same_apply = λ a d actor w. (refl, refl);
}

abbrev idle_changes : ChangeGuards
idle_changes = record {
  enforce_emergency_expiry = λ c now w. (ok tt, w);
  validate_request_integrity = λ c w. (ok tt, w);
  end_active_breakglass_sessions = λ c reason w. (ok tt, w);
  recompute_verification_state = λ c w. (ok tt, w);
  verification_required = λ c. false;
  same_enforce = λ c now w. SameExecutions-refl w;
  same_validate = λ c w. SameExecutions-refl w;
  same_end = λ c reason w. SameExecutions-refl w;
  same_recompute = λ c w. SameExecutions-refl w;
}

abbrev open_request : ApprovalRequest
open_request = record {
  id = 50;
  organization_id = 10;
  subject_type = SubjectType.execution_step;
  subject_id = some 3;
  execution_id = some 1;
  step_id = some 3;
  status = ApprovalStatus.pending;
  requested_by_runner_id = "7";
  requested_at = 100;
  timeout_seconds = some 60;
  expires_at = some 160;
  resolved_at = none;
}

abbrev rejected_request : ApprovalRequest
rejected_request = record open_request {
  id = 51;
  status = ApprovalStatus.rejected;
  resolved_at = some 120;
}

abbrev same_key : ℕ → ℕ
same_key k = k

abbrev inbox : World
inbox = record empty_world { approvals = open_request ∷ rejected_request ∷ [] }

abbrev approve : DecisionCall
approve = record {
  decision = Decision.approved;
  notes = "checked";
  actor = none;
  actor_label = "alice";
  now = 130;
  fresh_id = 60;
}

abbrev reject : DecisionCall
reject = record approve { decision = Decision.rejected; now = 140; fresh_id = 61 }

abbrev approval : ApprovalDecision
approval = human_decision 60 open_request Decision.approved "checked" (public_actor "alice") 130

abbrev decided_inbox : World
decided_inbox = (decide_approval idle_guards 50 approve inbox).1

approves : (decide_approval idle_guards 50 approve inbox).0 ≡ ok approval
unfolding decide_approval find_row decide_locked apply_to_exception resolve create_decision
    settle_subject
approves = refl

abbrev swept_inbox : World
swept_inbox = after_call idle_guards idle_changes (Call.recover 500 same_key 100) decided_inbox

decide_once_example :
    (decide_approval idle_guards 50 reject swept_inbox
      ≡ (err (domain_conflict "approval_request_not_pending"), swept_inbox))
    × (find_row 50 swept_inbox.decisions ≡ some approval)
decide_once_example =
    decide_once idle_guards idle_changes 50 approve reject inbox swept_inbox approval approves
      (Reached.call Reached.start (Call.recover 500 same_key 100))

decide_approval-Decided_example : Decided 50 approval decided_inbox
decide_approval-Decided_example =
    decide_approval-Decided idle_guards 50 approve inbox approval approves

resolved_final_example :
    find_row 51
      (after_call idle_guards idle_changes
        (Call.recover 500 same_key 100)
        (after_call idle_guards idle_changes (Call.decide 51 approve) inbox)).approvals
    ≡ some rejected_request
unfolding find_row
resolved_final_example =
    resolved_final idle_guards idle_changes inbox _ 51 rejected_request
      (Reached.call (Reached.call Reached.start (Call.decide 51 approve))
        (Call.recover 500 same_key 100))
      refl refl
