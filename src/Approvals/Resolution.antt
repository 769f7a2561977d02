-- ===== src/Approvals/Resolution.antt =====
-- `decide_approval`, `get_approval_status` and `recover_expired_approvals` of
-- apps/api/apps/approvals/services.py.
use Prim.Native.Nat.{ℕ, zero, suc}
use Prim.Native.String.{String}
use mathlib.Core.Bool.{Bool, true, false, ◌&&◌, ◌||◌, not}
use mathlib.Core.Option.{Option, none, some}
use mathlib.Core.List.{List, [], ◌∷◌, ◌++◌, map}
use runbook_platform.Prelude.Tests.{ltb, leb, ◌==◌, nat_eq, string_eq, if◌then◌else◌}
use runbook_platform.Prelude.Tables.{find_row, select}
use runbook_platform.Prelude.Text.{id_text}
use runbook_platform.Prelude.Effects.{
  ok, err, domain_conflict, not_found, ◌>>=◌, ◌>>◌, pure, atomic, modify,
}
use runbook_platform.Audit.{
  AuditActor, ActorType, AuditEvent, text, number, instant, system_actor, actor_or,
}
use runbook_platform.Store.{World, Service, Message, emit, on_commit}
use runbook_platform.Changes.Completion.{ChangeGuards}
use runbook_platform.Executions.Watchdog.{fail_execution_for_approval_timeout}
use runbook_platform.Approvals.Model.{
  ApprovalStatus, ApprovalRequest, approval_row, Decision, SourceType, ApprovalDecision,
}
use runbook_platform.Approvals.Decisions.{
  is_pending, is_due, is_change_record, subject_value, status_of, write_resolved, save_resolved,
  timeout_decision, emit_decision, create_decision, get_or_create_decision, ApprovalGuards,
  settle_subject, apply_to_exception, id_entry,
}

abbrev is_user : ActorType → Bool
is_user ActorType.user = true
is_user _ = false

-- The actor of a decision that names none.
abbrev pub public_actor : String → AuditActor
public_actor actor_label = record {
  actor_type = ActorType.unknown;
  actor_id = "";
  actor_label = if actor_label == "" then "Unauthenticated public API" else actor_label;
}

unfoldable pub human_decision :
    ℕ → ApprovalRequest → Decision → String → AuditActor → ℕ → ApprovalDecision
human_decision fresh_id a decision notes actor now = record {
  id = fresh_id;
  approval_request_id = a.id;
  decision = decision;
  source_type = SourceType.human;
  decided_by_user_id = if is_user actor.actor_type then some actor.actor_id else none;
  decided_by_label = actor.actor_label;
  decided_by_label_source =
      if is_user actor.actor_type then "authenticated_user" else "unverified_pre_auth";
  notes = notes;
  decided_at = now;
}

abbrev pub system : AuditActor
system = system_actor "Django system"

-- The arguments of `decide_approval` beside the request, the clock and the decision's fresh key.
pub record DecisionCall : Type 0 where
  pub decision : Decision
  pub notes : String
  pub actor : Option AuditActor
  pub actor_label : String
  pub now : ℕ
  pub fresh_id : ℕ

abbrev pub expired_now : ApprovalRequest → ℕ → Bool
expired_now a now = is_pending a.status && is_due a.expires_at now

unfoldable pub notify_timeouts : List ApprovalRequest → World → World
notify_timeouts [] w = w
notify_timeouts (a ∷ rest) w = notify_timeouts rest (
    if is_change_record a.subject_type
    then w
    else on_commit (Message.notify "approval.timeout" a.organization_id) w)

module _ (guards : ApprovalGuards) where
  -- The request gets its status, its decision is created and audited, and its change follows.
  unfoldable pub resolve :
      ApprovalRequest → ApprovalDecision → AuditActor → ℕ → Service ApprovalDecision
  resolve a d actor now = do
    modify (save_resolved a (status_of d.decision) now)
    create_decision d
    modify (emit_decision a d actor)
    settle_subject guards a d.decision actor now
    pure d

  -- The transaction: true beside the decision if a human made it, false if the deadline had come.
  unfoldable pub decide_locked : DecisionCall → ApprovalRequest → Service (ApprovalDecision × Bool)
  decide_locked c a w =
      if expired_now a c.now
      then (resolve a (timeout_decision c.fresh_id a c.now) system c.now >>= λ d. pure (d, false)) w
      else if not (is_pending a.status)
      then (err (domain_conflict "approval_request_not_pending"), w)
      else (let actor = actor_or c.actor (public_actor c.actor_label) in
            do
              apply_to_exception guards a c.decision actor
              d ← resolve a (human_decision c.fresh_id a c.decision c.notes actor c.now) actor c.now
              pure (d, true))
          w

  unfoldable pub notify_decided : ApprovalRequest → ApprovalDecision × Bool → World → World
  notify_decided a (d, false) w = w
  notify_decided a (d, true) w =
      if is_change_record a.subject_type
      then w
      else on_commit (Message.notify "approval.decided" a.organization_id) w

  unfoldable pub decide_found : DecisionCall → Option ApprovalRequest → Service ApprovalDecision
  unfolding notify_decided
  decide_found c none = λ w. (err not_found, w)
  decide_found c (some a) = do
    (d, human) ← atomic (decide_locked c a)
    modify (notify_decided a (d, human))
    pure d

  -- `decide_approval(approval_request=, decision=, ...)`
  unfoldable pub decide_approval : ℕ → DecisionCall → Service ApprovalDecision
  unfolding decide_found
  decide_approval request_id c w = decide_found c (find_row request_id w.approvals) w

  -- `get_approval_status` once the request is locked: another call may have resolved it.
  unfoldable pub expire_locked : ℕ → ℕ → ApprovalRequest → Service ApprovalRequest
  expire_locked now fresh_id a w =
      if not (is_pending a.status)
      then (ok a, w)
      else (do
        modify (save_resolved a ApprovalStatus.timed_out now)
        (d, created) ← get_or_create_decision (timeout_decision fresh_id a now)
        modify (λ (v : World). if created then emit_decision a d system v else v)
        settle_subject guards a Decision.timed_out system now
        pure (write_resolved ApprovalStatus.timed_out now a))
          w

  unfoldable pub expire_found : ℕ → ℕ → Option ApprovalRequest → Service ApprovalRequest
  expire_found now fresh_id none = λ w. (err not_found, w)
  expire_found now fresh_id (some a) = expire_locked now fresh_id a

  -- `get_approval_status(approval_request=)`: `seen` is the caller's object.
  unfoldable pub get_approval_status : ApprovalRequest → ℕ → ℕ → Service ApprovalRequest
  unfolding expire_found
  get_approval_status seen now fresh_id w =
      if expired_now seen now
      then atomic (λ (v : World). expire_found now fresh_id (find_row seen.id v.approvals) v) w
      else (ok seen, w)

  module _ (changes : ChangeGuards) where
    abbrev pub fail_blocked : ApprovalRequest → Option ℕ → Option ℕ → ℕ → Service (Unit {0})
    fail_blocked a (some execution_id) (some step_id) now =
        fail_execution_for_approval_timeout changes execution_id step_id a.id now >>= λ _. pure tt
    fail_blocked a _ _ now = pure tt

    timeout_event : ApprovalRequest → ℕ → AuditEvent
    timeout_event a now = record {
      organization_id = a.organization_id;
      actor = system;
      event_type = "approval.timeout";
      object_type = "approval_request";
      object_id = a.id;
      metadata =
          ("approval_request_id", text (id_text a.id))
          ∷ ("subject_type", text (subject_value a.subject_type))
          ∷ ("expires_at", instant a.expires_at)
          ∷ ("resolved_at", number now)
          ∷ ("reason", text "watchdog_approval_timeout")
          ∷ ("recovery_source", text "watchdog")
          ∷ (id_entry "execution_id" a.execution_id
              ++ (id_entry "step_id" a.step_id ++ id_entry "subject_id" a.subject_id));
    }

    -- The rest of the transaction if this call created the decision.
    unfoldable pub recover_created :
        ℕ → ApprovalRequest → ApprovalDecision × Bool → Service (List ApprovalRequest)
    unfolding timeout_event
    recover_created now a (d, false) = pure []
    recover_created now a (d, true) = do
      modify (λ w. emit (timeout_event a now) (emit_decision a d system w))
      if is_change_record a.subject_type
          then settle_subject guards a Decision.timed_out system now
          else fail_blocked a a.execution_id a.step_id now
      pure (a ∷ [])

    unfoldable pub recover_locked : ℕ → ℕ → Option ApprovalRequest → Service (List ApprovalRequest)
    recover_locked now fresh_id none w = (ok [], w)
    recover_locked now fresh_id (some a) w =
        if expired_now a now
        then (do
          modify (save_resolved a ApprovalStatus.timed_out now)
          found ← get_or_create_decision (timeout_decision fresh_id a now)
          recover_created now a found)
            w
        else (ok [], w)

    -- `_recover_expired_approval`: the request, if this call timed it out.
    unfoldable pub recover_expired_approval : ℕ → ℕ → ℕ → Service (List ApprovalRequest)
    recover_expired_approval now fresh_id request_id = do
      found ←
          atomic (λ (w : World). recover_locked now fresh_id (find_row request_id w.approvals) w)
      modify (notify_timeouts found)
      pure found

    -- The loop over the candidates; an exception ends it.
    unfoldable pub recover_approvals : ℕ → (ℕ → ℕ) → List ApprovalRequest → Service (List ℕ)
    recover_approvals now fresh_ids [] = pure []
    recover_approvals now fresh_ids (c ∷ cs) = do
      one ← recover_expired_approval now (fresh_ids c.id) c.id
      rest ← recover_approvals now fresh_ids cs
      pure (map (λ (a : ApprovalRequest). a.id) one ++ rest)

abbrev or_zero : Option ℕ → ℕ
or_zero none = 0
or_zero (some t) = t

-- `order_by("expires_at", "id")`; the rows selected have a deadline.
due_before : ApprovalRequest → ApprovalRequest → Bool
due_before a b =
    ltb (or_zero a.expires_at) (or_zero b.expires_at)
    || (or_zero a.expires_at == or_zero b.expires_at && leb a.id b.id)

insert_due : ApprovalRequest → List ApprovalRequest → List ApprovalRequest
insert_due a [] = a ∷ []
insert_due a (b ∷ bs) =
    let rest = insert_due a bs in if due_before a b then a ∷ b ∷ bs else b ∷ rest

sort_due : List ApprovalRequest → List ApprovalRequest
sort_due [] = []
sort_due (a ∷ rest) = insert_due a (sort_due rest)

first_rows : ℕ → List ApprovalRequest → List ApprovalRequest
first_rows zero xs = []
first_rows (suc n) [] = []
first_rows (suc n) (x ∷ xs) = x ∷ first_rows n xs

-- `recover_expired_approvals(now=, batch_size=)`: the ids recovered, in order.
unfoldable pub recover_expired_approvals :
    ApprovalGuards → ChangeGuards → ℕ → (ℕ → ℕ) → ℕ → Service (List ℕ)
unfolding first_rows sort_due insert_due due_before
recover_expired_approvals guards changes now fresh_ids batch_size w =
    recover_approvals guards changes now fresh_ids
      (first_rows batch_size (sort_due (select (λ a. expired_now a now) w.approvals))) w
