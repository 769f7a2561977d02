-- ===== src/Approvals/Final.antt =====
-- What is resolved stays resolved: the calls of apps/api/apps/approvals/services.py, one by one and
-- in sequences.
use Prim.Native.Nat.{ℕ}
use mathlib.Core.Path.{◌≡◌, refl, sym, subst}
use mathlib.Core.Bool.{Bool, true, false}
use mathlib.Core.Option.{Option, none, some}
use mathlib.Core.Logic.{inl, inr}
use native.Mathlib.Omega.{arith}
use runbook_platform.Prelude.Tests.{Bool-cases, nat_eq, if◌then◌else◌}
use runbook_platform.Prelude.Tables.{find_row, find_row_key}
use runbook_platform.Prelude.Effects.{ok, ◌>>=◌, pure, atomic, modify}
use runbook_platform.Audit.{AuditActor, actor_or}
use runbook_platform.Store.{World}
use runbook_platform.Approvals.Model.{
  ApprovalStatus, ApprovalRequest, approval_row, Decision, ApprovalDecision, decision_row,
}
use runbook_platform.Approvals.Decisions.{
  is_pending, status_of, save_resolved, emit_decision, create_decision, get_or_create_decision,
  write_resolved, ApprovalGuards, settle_subject, timeout_decision, apply_to_exception,
}
use runbook_platform.Approvals.Resolution.{
  public_actor, DecisionCall, expired_now, resolve, human_decision, decide_locked, notify_decided,
  decide_found, decide_approval, expire_locked, expire_found, get_approval_status, system,
}
use runbook_platform.Approvals.Keeping.{
  KeepsResolved, KeepsResolved-refl, KeepsResolved-same, KeepsResolved-trans,
  KeepsResolved-rollback, KeepsResolved-continue, save_resolved-KeepsResolved, Keeping-return,
  Keeping-bind, Keeping-create, Keeping-get_or_create, Keeping-settle, same_exception,
}

module _ (guards : ApprovalGuards) where
  resolve-KeepsResolved :
      (a : ApprovalRequest) (d : ApprovalDecision) (actor : AuditActor) (now : ℕ) (w : World)
      → find_row a.id w.approvals ≡ some a
      → is_pending a.status ≡ true
      → KeepsResolved (resolve guards a d actor now w).1 w
  unfolding resolve
  resolve-KeepsResolved a d actor now w at pending_yet =
      KeepsResolved-trans
        ((Keeping-bind _ (create_decision d) (Keeping-create d) (λ _.
            Keeping-bind (λ _. settle_subject guards a d.decision actor now >>= λ _. pure d)
              (modify (emit_decision a d actor))
              (record { keeps = λ v. KeepsResolved-same refl refl })
              (λ _.
                Keeping-bind (λ _. pure d) (settle_subject guards a d.decision actor now)
                  (Keeping-settle guards a d.decision actor now)
                  (λ _. Keeping-return (ok d))))).keeps
          (save_resolved a (status_of d.decision) now w))
        (save_resolved-KeepsResolved a (status_of d.decision) now w at pending_yet)

  pub expired_pending :
      (a : ApprovalRequest) (now : ℕ) → expired_now a now ≡ true → is_pending a.status ≡ true
  expired_pending a now h = ground arith

  -- A resolution after which nothing is written.
  resolved_then :
      {B : Type 0} (f : ApprovalDecision → B) (a : ApprovalRequest) (d : ApprovalDecision)
      → (actor : AuditActor) (now : ℕ) (w : World) → find_row a.id w.approvals ≡ some a
      → is_pending a.status ≡ true
      → KeepsResolved ((resolve guards a d actor now >>= λ e. pure (f e)) w).1 w
  resolved_then f a d actor now w at pending_yet =
      KeepsResolved-continue (λ e. pure (f e)) (resolve guards a d actor now w).0
        (resolve guards a d actor now w).1 w (resolve-KeepsResolved a d actor now w at pending_yet)
        (λ e. KeepsResolved-refl _)

  decide_locked-KeepsResolved :
      (c : DecisionCall) (a : ApprovalRequest) (w : World)
      → find_row a.id w.approvals ≡ some a
      → KeepsResolved (decide_locked guards c a w).1 w
  unfolding decide_locked
  decide_locked-KeepsResolved c a w at = elim (Bool-cases (expired_now a c.now)) [
    | inl late ↦ rw late (
        resolved_then (λ d. (d, false)) a (timeout_decision c.fresh_id a c.now) system c.now w at
          (expired_pending a c.now late))
    | inr in_time ↦ rw in_time (elim (Bool-cases (is_pending a.status)) [
      | inr resolved ↦ rw resolved (KeepsResolved-refl w)
      | inl pending_yet ↦
          let actor = actor_or c.actor (public_actor c.actor_label) in
          let applied = apply_to_exception guards a c.decision actor w in
          let same = same_exception guards a c.decision actor w in
          let decided = human_decision c.fresh_id a c.decision c.notes actor c.now in
          rw pending_yet (
            KeepsResolved-continue
              (λ _. resolve guards a decided actor c.now >>= λ d. pure (d, true)) applied.0
              applied.1 w (KeepsResolved-same same.0 same.1)
              (λ _.
                resolved_then (λ d. (d, true)) a decided actor c.now applied.1 (rw same.0 at)
                  pending_yet))
    ])
  ]

  pub notified :
      (a : ApprovalRequest) (p : ApprovalDecision × Bool) (v : World)
      → KeepsResolved (notify_decided guards a p v) v
  unfolding notify_decided
  notified a (d, false) v = KeepsResolved-refl v
  notified a (d, true) v = KeepsResolved-same (ground arith) (ground arith)

  decide_found-KeepsResolved :
      (c : DecisionCall) (k : ℕ) (o : Option ApprovalRequest) (w : World)
      → find_row k w.approvals ≡ o
      → KeepsResolved (decide_found guards c o w).1 w
  unfolding decide_found
  decide_found-KeepsResolved c k none w at = KeepsResolved-refl w
  decide_found-KeepsResolved c k (some a) w at =
      let m = decide_locked guards c a w in
      let done = atomic (decide_locked guards c a) w in
      KeepsResolved-continue (λ p. modify (notify_decided guards a p) >>= λ _. pure p.0) done.0
        done.1 w
        (KeepsResolved-rollback w m.0 m.1 (
          decide_locked-KeepsResolved c a w (
            subst (λ j. find_row j w.approvals ≡ some a) (sym (find_row_key k w.approvals a at))
              at)))
        (λ p. notified a p done.1)

  pub decide_approval-KeepsResolved :
      (k : ℕ) (c : DecisionCall) (w : World) → KeepsResolved (decide_approval guards k c w).1 w
  unfolding decide_approval
  decide_approval-KeepsResolved k c w =
      decide_found-KeepsResolved c k (find_row k w.approvals) w refl

  expire_locked-KeepsResolved :
      (now fresh_id : ℕ) (a : ApprovalRequest) (w : World)
      → find_row a.id w.approvals ≡ some a
      → KeepsResolved (expire_locked guards now fresh_id a w).1 w
  unfolding expire_locked
  expire_locked-KeepsResolved now fresh_id a w at = elim (Bool-cases (is_pending a.status)) [
    | inr resolved ↦ rw resolved (KeepsResolved-refl w)
    | inl pending_yet ↦ rw pending_yet (
        KeepsResolved-trans
          ((Keeping-bind _ (get_or_create_decision (timeout_decision fresh_id a now))
              (Keeping-get_or_create (timeout_decision fresh_id a now))
              (λ p.
                Keeping-bind
                  (λ _. settle_subject guards a Decision.timed_out system now >>= λ _.
                    pure (write_resolved ApprovalStatus.timed_out now a))
                  (modify (λ (v : World). if p.1 then emit_decision a p.0 system v else v))
                  (record { keeps = λ v. KeepsResolved-same (ground arith) (ground arith) })
                  (λ _.
                    Keeping-bind (λ _. pure (write_resolved ApprovalStatus.timed_out now a))
                      (settle_subject guards a Decision.timed_out system now)
                      (Keeping-settle guards a Decision.timed_out system now)
                      (λ _. Keeping-return _)))).keeps
            (save_resolved a ApprovalStatus.timed_out now w))
          (save_resolved-KeepsResolved a ApprovalStatus.timed_out now w at pending_yet))
  ]

  expire_found-KeepsResolved :
      (now fresh_id k : ℕ) (o : Option ApprovalRequest) (w : World)
      → find_row k w.approvals ≡ o
      → KeepsResolved (expire_found guards now fresh_id o w).1 w
  unfolding expire_found
  expire_found-KeepsResolved now fresh_id k none w at = KeepsResolved-refl w
  expire_found-KeepsResolved now fresh_id k (some a) w at =
      expire_locked-KeepsResolved now fresh_id a w
        (subst (λ j. find_row j w.approvals ≡ some a) (sym (find_row_key k w.approvals a at)) at)

  pub get_approval_status-KeepsResolved :
      (seen : ApprovalRequest) (now fresh_id : ℕ) (w : World)
      → KeepsResolved (get_approval_status guards seen now fresh_id w).1 w
  unfolding get_approval_status
  get_approval_status-KeepsResolved seen now fresh_id w = elim (Bool-cases (expired_now seen now)) [
    | inr in_time ↦ rw in_time (KeepsResolved-refl w)
    | inl late ↦
        let m = expire_found guards now fresh_id (find_row seen.id w.approvals) w in
        rw late (
          KeepsResolved-rollback w m.0 m.1
            (expire_found-KeepsResolved now fresh_id seen.id (find_row seen.id w.approvals) w refl))
  ]
