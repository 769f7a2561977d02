-- ===== src/Approvals/Decided.antt =====
-- A request is decided once: `decide_approval` of apps/api/apps/approvals/services.py.
use Prim.Native.Nat.{ℕ}
use mathlib.Core.Path.{◌≡◌, refl, sym, subst, ap, ◌∙◌}
use mathlib.Core.Bool.{Bool, true, false}
use mathlib.Core.Option.{Option, none, some}
use mathlib.Core.Logic.{inl, inr}
use mathlib.Core.List.{[], ◌∷◌, ◌++◌}
use native.Mathlib.Omega.{arith}
use runbook_platform.Prelude.Tests.{Bool-cases, Option-cases, nat_eq, eq_refl}
use runbook_platform.Prelude.Tables.{
  find_row, find_row_key, find_row-append_new, find_row-update_row,
}
use runbook_platform.Prelude.Effects.{
  Result, ok, err, domain_conflict, ◌>>=◌, ◌>>◌, pure, modify, continue, commit_or_rollback,
}
use runbook_platform.Audit.{AuditActor, actor_or}
use runbook_platform.Store.{World, Service}
use runbook_platform.Changes.Completion.{ChangeGuards}
use runbook_platform.Approvals.Model.{
  ApprovalStatus, ApprovalRequest, approval_row, Decision, ApprovalDecision, decision_row,
}
use runbook_platform.Approvals.Decisions.{
  is_pending, status_of, write_resolved, save_resolved, emit_decision, create_decision,
  ApprovalGuards, settle_subject, timeout_decision, apply_to_exception,
}
use runbook_platform.Approvals.Resolution.{
  public_actor, DecisionCall, expired_now, resolve, human_decision, decide_locked, notify_decided,
  decide_found, decide_approval, system,
}
use runbook_platform.Approvals.Keeping.{
  KeepsResolved, KeepsResolved-same, Keeping, Keeping-return, Keeping-bind, Keeping-settle,
  same_exception,
}
use runbook_platform.Approvals.Final.{notified}
use runbook_platform.Approvals.History.{Reached, resolved_final, decision_final}

resolved_status : (d : Decision) → is_pending (status_of d) ≡ false
resolved_status d = ground arith

-- The request is resolved as the decision says, and the decision is recorded.
pub record Decided (k : ℕ) (d : ApprovalDecision) (v : World) : Type 0 where
  pub request : ApprovalRequest
  pub stored : find_row k v.approvals ≡ some request
  pub agrees : request.status ≡ status_of d.decision
  pub recorded : find_row k v.decisions ≡ some d

Decided-keeps :
    (k : ℕ) (d : ApprovalDecision) (v w : World) → KeepsResolved v w → Decided k d w → Decided k d v
Decided-keeps k d v w kept h = record {
  request = h.request;
  stored = kept.requests k h.request h.stored (rw h.agrees (resolved_status d.decision));
  agrees = h.agrees;
  recorded = kept.decisions k d h.recorded;
}

ok_inj : (d e : ApprovalDecision) → ok d ≡ ok e → d ≡ e
ok_inj d e h = cc

module _ (guards : ApprovalGuards) where
  -- What follows the creation of the decision.
  abbrev rest : ApprovalRequest → ApprovalDecision → AuditActor → ℕ → Service ApprovalDecision
  rest a d actor now = do
    modify (emit_decision a d actor)
    settle_subject guards a d.decision actor now
    pure d

  Keeping-rest :
      (a : ApprovalRequest) (d : ApprovalDecision) (actor : AuditActor) (now : ℕ)
      → Keeping (rest a d actor now)
  Keeping-rest a d actor now =
      Keeping-bind (λ _. settle_subject guards a d.decision actor now >>= λ _. pure d)
        (modify (emit_decision a d actor)) (record { keeps = λ v. KeepsResolved-same refl refl })
        (λ _.
          Keeping-bind (λ _. pure d) (settle_subject guards a d.decision actor now)
            (Keeping-settle guards a d.decision actor now) (λ _. Keeping-return (ok d)))

  returned :
      (d f : ApprovalDecision) (r : Result (Unit {0})) (v : World)
      → (continue r (λ _. pure d) v).0 ≡ ok f
      → f ≡ d
  returned d f (ok x) v h = cc
  returned d f (err error) v h = absurd (ground arith)

  saved_row :
      (a : ApprovalRequest) (s : ApprovalStatus) (now : ℕ) (w : World)
      → find_row a.id w.approvals ≡ some a
      → find_row a.id (save_resolved a s now w).approvals ≡ some (write_resolved s now a)
  unfolding write_resolved
  saved_row a s now w at =
      rw
        (
          find_row-update_row a.id a.id (write_resolved s now) w.approvals (λ y. refl),
          at,
          eq_refl a.id,
        )
        refl

  resolve-Decided :
      (a : ApprovalRequest) (d f : ApprovalDecision) (actor : AuditActor) (now : ℕ) (w : World)
      → find_row a.id w.approvals ≡ some a
      → d.approval_request_id ≡ a.id
      → (resolve guards a d actor now w).0 ≡ ok f
      → Decided a.id f (resolve guards a d actor now w).1
  unfolding resolve create_decision write_resolved
  resolve-Decided a d f actor now w at about h =
      elim (Option-cases (find_row d.approval_request_id w.decisions)) [
        | inr (old, there) ↦ absurd (ground arith)
        | inl absent ↦
            let u = save_resolved a (status_of d.decision) now w in
            let v : World = record u { decisions = u.decisions ++ d ∷ [] } in
            let same : resolve guards a d actor now w ≡ rest a d actor now v =
              rw (absent, resolve, create_decision) refl in
            let settled =
              settle_subject guards a d.decision actor now (emit_decision a d actor v) in
            let is_d : f ≡ d = returned d f settled.0 settled.1 (sym (ap (λ r. r.0) same) ∙ h) in
            let created : Decided a.id d v = record {
              request = write_resolved (status_of d.decision) now a;
              stored = saved_row a (status_of d.decision) now w at;
              agrees = refl;
              recorded =
                  subst (λ j. find_row j v.decisions ≡ some d) about
                    (find_row-append_new w.decisions d absent);
            } in
            subst (λ e. Decided a.id e (resolve guards a d actor now w).1) (sym is_d)
              (subst (λ r. Decided a.id d r.1) (sym same)
                (Decided-keeps a.id d (rest a d actor now v).1 v
                  ((Keeping-rest a d actor now).keeps v) created))
      ]

  abbrev flag_with : Bool → ApprovalDecision → Service (ApprovalDecision × Bool)
  flag_with b d = pure (d, b)

  paired :
      (b : Bool) (r : Result ApprovalDecision) (v : World) (p : ApprovalDecision × Bool)
      → (continue r (flag_with b) v).0 ≡ ok p
      → (r ≡ ok p.0) × ((continue r (flag_with b) v).1 ≡ v)
  paired b (ok d) v p h = (ground arith, refl)
  paired b (err error) v p h = absurd (ground arith)

  -- A resolution and the flag beside it.
  flagged-Decided :
      (b : Bool) (a : ApprovalRequest) (d : ApprovalDecision) (actor : AuditActor) (now : ℕ)
      → (w : World) (p : ApprovalDecision × Bool) → find_row a.id w.approvals ≡ some a
      → d.approval_request_id ≡ a.id
      → ((resolve guards a d actor now >>= flag_with b) w).0 ≡ ok p
      → Decided a.id p.0 ((resolve guards a d actor now >>= flag_with b) w).1
  flagged-Decided b a d actor now w p at about h =
      let r = resolve guards a d actor now w in
      let (is_p, same) = paired b r.0 r.1 p h in
      subst (Decided a.id p.0) (sym same) (resolve-Decided a d p.0 actor now w at about is_p)

  after_exception :
      (r : Result (Unit {0})) (a : ApprovalRequest) (d : ApprovalDecision) (actor : AuditActor)
      → (now : ℕ) (v w : World) (p : ApprovalDecision × Bool) → v.approvals ≡ w.approvals
      → find_row a.id w.approvals ≡ some a
      → d.approval_request_id ≡ a.id
      → (continue r (λ _. resolve guards a d actor now >>= flag_with true) v).0 ≡ ok p
      → Decided a.id p.0 (continue r (λ _. resolve guards a d actor now >>= flag_with true) v).1
  after_exception (err error) a d actor now v w p same at about h = absurd (ground arith)
  after_exception (ok x) a d actor now v w p same at about h =
      flagged-Decided true a d actor now v p (rw same at) about h

  locked-Decided :
      (c : DecisionCall) (a : ApprovalRequest) (w : World) (p : ApprovalDecision × Bool)
      → find_row a.id w.approvals ≡ some a
      → (decide_locked guards c a w).0 ≡ ok p
      → Decided a.id p.0 (decide_locked guards c a w).1
  unfolding decide_locked timeout_decision human_decision
  locked-Decided c a w p at = elim (Bool-cases (expired_now a c.now)) [
    | inl late ↦
        rw late
          (flagged-Decided false a (timeout_decision c.fresh_id a c.now) system c.now w p at refl)
    | inr in_time ↦ rw in_time (elim (Bool-cases (is_pending a.status)) [
      | inr resolved ↦ rw resolved (λ h. absurd (ground arith))
      | inl pending_yet ↦
          let actor = actor_or c.actor (public_actor c.actor_label) in
          let applied = apply_to_exception guards a c.decision actor w in
          rw pending_yet (
            after_exception applied.0 a (human_decision c.fresh_id a c.decision c.notes actor c.now)
              actor c.now applied.1 w p (same_exception guards a c.decision actor w).0 at refl)
    ])
  ]

  found-Decided :
      (c : DecisionCall) (k : ℕ) (o : Option ApprovalRequest) (w : World) (d : ApprovalDecision)
      → find_row k w.approvals ≡ o
      → (decide_found guards c o w).0 ≡ ok d
      → Decided k d (decide_found guards c o w).1
  unfolding decide_found
  found-Decided c k none w d at h = absurd (ground arith)
  found-Decided c k (some a) w d at h =
      let is_key : a.id ≡ k = find_row_key k w.approvals a at in
      let m = decide_locked guards c a w in
      committed m.0 m.1 h (λ p e.
        subst (λ j. Decided j p.0 m.1) is_key
          (locked-Decided c a w p (subst (λ j. find_row j w.approvals ≡ some a) (sym is_key) at) e))
    where
      committed :
          (r : Result (ApprovalDecision × Bool)) (v : World)
          → (let (r', v') = commit_or_rollback w r v in
              continue r' (λ q. modify (notify_decided guards a q) >>= λ _. pure q.0) v').0
            ≡ ok d
          → ((p : ApprovalDecision × Bool) → r ≡ ok p → Decided k p.0 v)
          → Decided k d
              (let (r', v') = commit_or_rollback w r v in
                continue r' (λ q. modify (notify_decided guards a q) >>= λ _. pure q.0) v').1
      committed (err error) v e decided = absurd (ground arith)
      committed (ok p) v e decided =
          subst (λ f. Decided k f (notify_decided guards a p v)) (ok_inj p.0 d e)
            (Decided-keeps k p.0 _ v (notified guards a p v) (decided p refl))

  -- A decision that returns is recorded, and the request is resolved as it says.
  pub decide_approval-Decided :
      (k : ℕ) (c : DecisionCall) (w : World) (d : ApprovalDecision)
      → (decide_approval guards k c w).0 ≡ ok d
      → Decided k d (decide_approval guards k c w).1
  unfolding decide_approval
  decide_approval-Decided k c w d h = found-Decided c k (find_row k w.approvals) w d refl h

  resolved_refused :
      (k : ℕ) (c : DecisionCall) (a : ApprovalRequest) (w : World)
      → find_row k w.approvals ≡ some a
      → is_pending a.status ≡ false
      → decide_approval guards k c w ≡ (err (domain_conflict "approval_request_not_pending"), w)
  unfolding decide_approval decide_found decide_locked
  resolved_refused k c a w at done =
      rw (at, done, decide_approval, decide_found, decide_locked) refl

  -- After a decision that returned, whatever calls on approvals follow, every further decision on
  -- the request is refused as a conflict and leaves the database as it was, and the first decision
  -- is the one on record.
  pub decide_once :
      (changes : ChangeGuards) (k : ℕ) (c c' : DecisionCall) (w u : World) (d : ApprovalDecision)
      → (decide_approval guards k c w).0 ≡ ok d
      → Reached guards changes (decide_approval guards k c w).1 u
      → (decide_approval guards k c' u ≡ (err (domain_conflict "approval_request_not_pending"), u))
        × (find_row k u.decisions ≡ some d)
  decide_once changes k c c' w u d h r =
      let v = (decide_approval guards k c w).1 in
      let decided = decide_approval-Decided k c w d h in
      let done : is_pending decided.request.status ≡ false =
        rw decided.agrees (resolved_status d.decision) in
      (
        resolved_refused k c' decided.request u
            (resolved_final guards changes v u k decided.request r decided.stored done) done,
        decision_final guards changes v u k d r decided.recorded,
      )
