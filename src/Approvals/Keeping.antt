-- ===== src/Approvals/Keeping.antt =====
-- Calls of apps/api/apps/approvals/services.py never undo what is resolved: the laws of keeping.
use Prim.Native.Nat.{ℕ}
use Prim.Native.String.{String}
use mathlib.Core.Path.{◌≡◌, refl}
use mathlib.Core.Bool.{Bool, true, false, false≢true}
use mathlib.Core.Option.{Option, none, some}
use mathlib.Core.Logic.{inl, inr}
use mathlib.Core.List.{List, [], ◌∷◌}
use native.Mathlib.Omega.{arith}
use runbook_platform.Prelude.Tests.{Bool-cases, Option-cases, nat_eq, is_some, if◌then◌else◌}
use runbook_platform.Prelude.Tables.{
  find_row, find_row-append, find_row-update_row_same, find_where,
}
use runbook_platform.Prelude.Effects.{
  Result, ok, err, ◌>>=◌, pure, atomic, continue, commit_or_rollback,
}
use runbook_platform.Audit.{AuditActor, Value}
use runbook_platform.Store.{World, Service}
use runbook_platform.Changes.Model.{ChangeStatus, ChangeRecord, change_row}
use runbook_platform.Changes.Transitions.{transition_change}
use runbook_platform.Approvals.Model.{
  ApprovalStatus, ApprovalRequest, approval_row, Decision, ApprovalDecision, decision_row,
}
use runbook_platform.Approvals.Decisions.{
  is_pending, is_request, is_change_record, write_resolved, save_resolved, create_decision,
  get_or_create_decision, ApprovalGuards, move_decided, decide_change,
  handle_change_approval_decision, settle_subject, apply_to_exception,
}

-- What was resolved or decided before, in `w`, is in `v` as it was.
pub record KeepsResolved (v w : World) : Type 0 where
  pub requests :
      (k : ℕ) (a : ApprovalRequest)
      → find_row k w.approvals ≡ some a
      → is_pending a.status ≡ false
      → find_row k v.approvals ≡ some a
  pub decisions :
      (k : ℕ) (d : ApprovalDecision)
      → find_row k w.decisions ≡ some d
      → find_row k v.decisions ≡ some d

pub KeepsResolved-same :
    {v w : World} → v.approvals ≡ w.approvals → v.decisions ≡ w.decisions → KeepsResolved v w
KeepsResolved-same rs ds = record {
  requests = λ k a found done. rw rs found;
  decisions = λ k d found. rw ds found;
}

pub KeepsResolved-refl : (w : World) → KeepsResolved w w
KeepsResolved-refl w = KeepsResolved-same refl refl

pub KeepsResolved-trans :
    {u v w : World} → KeepsResolved u v → KeepsResolved v w → KeepsResolved u w
KeepsResolved-trans b a = record {
  requests = λ k r found done. b.requests k r (a.requests k r found done) done;
  decisions = λ k d found. b.decisions k d (a.decisions k d found);
}

-- A write to a request that is pending.
pub save_resolved-KeepsResolved :
    (a : ApprovalRequest) (s : ApprovalStatus) (now : ℕ) (w : World)
    → find_row a.id w.approvals ≡ some a
    → is_pending a.status ≡ true
    → KeepsResolved (save_resolved a s now w) w
unfolding write_resolved
save_resolved-KeepsResolved a s now w at pending_yet = record {
  requests = λ k r found done.
      find_row-update_row_same k a.id (write_resolved s now) w.approvals r (λ y. refl) found
        (λ here. absurd (false≢true (ground arith)));
  decisions = λ k d found. found;
}

-- A call that keeps what is resolved, in every world and whatever it returns.
pub record Keeping {A : Type 0} (m : Service A) : Type 0 where
  pub keeps : (w : World) → KeepsResolved (m w).1 w

module _ {A : Type 0} where
  pub Keeping-return : (r : Result A) → Keeping (λ w. (r, w))
  Keeping-return r = record { keeps = KeepsResolved-refl }

  pub Keeping-if :
      (b : Bool) (m n : Service A) → Keeping m → Keeping n → Keeping (if b then m else n)
  Keeping-if true m n f g = f
  Keeping-if false m n f g = g

  pub KeepsResolved-rollback :
      (w : World) (r : Result A) (v : World)
      → KeepsResolved v w
      → KeepsResolved (commit_or_rollback w r v).1 w
  KeepsResolved-rollback w (ok a) v h = h
  KeepsResolved-rollback w (err e) v h = KeepsResolved-refl w

  pub Keeping-atomic : (m : Service A) → Keeping m → Keeping (atomic m)
  Keeping-atomic m k = record { keeps = λ w. KeepsResolved-rollback w (m w).0 (m w).1 (k.keeps w) }

module _ {A B : Type 0} (f : A → Service B) where
  pub KeepsResolved-continue :
      (r : Result A) (v w : World)
      → KeepsResolved v w
      → ((a : A) → KeepsResolved (f a v).1 v)
      → KeepsResolved (continue r f v).1 w
  KeepsResolved-continue (ok a) v w h kf = KeepsResolved-trans (kf a) h
  KeepsResolved-continue (err e) v w h kf = h

  pub Keeping-bind : (m : Service A) → Keeping m → ((a : A) → Keeping (f a)) → Keeping (m >>= f)
  Keeping-bind m km kf = record {
    keeps = λ w. KeepsResolved-continue (m w).0 (m w).1 w (km.keeps w) (λ a. (kf a).keeps (m w).1);
  }

Keeping-transition :
    (c : ChangeRecord) (s : ChangeStatus) (actor : Option AuditActor) (now : ℕ) (reason : String)
    → (extra : List (String × Value)) → Keeping (transition_change c s actor now reason extra)
unfolding transition_change
Keeping-transition c s actor now reason extra = record {
  keeps = λ w. KeepsResolved-same (ground arith) (ground arith);
}

pub Keeping-create : (d : ApprovalDecision) → Keeping (create_decision d)
unfolding create_decision
Keeping-create d = record {
  keeps = λ w. elim (Bool-cases (is_some (find_row d.approval_request_id w.decisions))) [
    | inl there ↦ rw there (KeepsResolved-refl w)
    | inr absent ↦ rw absent (record {
      requests = λ k a found done. found;
      decisions = λ k e found. find_row-append k w.decisions (d ∷ []) e found;
    })
  ];
}

pub Keeping-get_or_create : (d : ApprovalDecision) → Keeping (get_or_create_decision d)
unfolding get_or_create_decision
Keeping-get_or_create d = record {
  keeps = λ w. elim (Option-cases (find_row d.approval_request_id w.decisions)) [
    | inr (e, there) ↦ rw (there, get_or_create_decision) (KeepsResolved-refl w)
    | inl absent ↦
        rw (absent, get_or_create_decision)
          (record {
            requests = λ k a found done. found;
            decisions = λ k e found. find_row-append k w.decisions (d ∷ []) e found;
          })
  ];
}

module _ (guards : ApprovalGuards) where
  Keeping-move :
      (c : ChangeRecord) (d : Decision) (actor : AuditActor) (now : ℕ)
      → Keeping (move_decided guards c d actor now)
  unfolding move_decided
  Keeping-move c Decision.approved actor now =
      Keeping-bind _ _ (Keeping-transition c ChangeStatus.approved (some actor) now "" []) (λ p.
        record {
          keeps = λ w.
              let same = guards.same_schedule p.1 actor now w in KeepsResolved-same same.0 same.1;
        })
  Keeping-move c Decision.rejected actor now =
      Keeping-bind _ _
        (Keeping-transition c ChangeStatus.rejected (some actor) now "approval_rejected" [])
        (λ _. Keeping-return (ok tt))
  Keeping-move c Decision.timed_out actor now =
      Keeping-bind _ _
        (Keeping-transition c ChangeStatus.expired (some actor) now "approval_timed_out" [])
        (λ _. Keeping-return (ok tt))

  Keeping-decide :
      (o : Option ChangeRecord) (d : Decision) (actor : AuditActor) (now : ℕ)
      → Keeping (decide_change guards o d actor now)
  unfolding decide_change
  Keeping-decide none d actor now = Keeping-return _
  Keeping-decide (some c) d actor now = record {
    keeps = λ w.
        Keeping-branch _ _ _ w
          ((Keeping-bind (λ _. move_decided guards c d actor now)
              (guards.validate_request_integrity c)
              (record {
                keeps =
                    λ v. let same = guards.same_validate c v in KeepsResolved-same same.0 same.1;
              })
              (λ _. Keeping-move c d actor now)).keeps
            w)
          (KeepsResolved-refl w);
  }
    where
      Keeping-branch :
          (b : Bool) (p q : Result (Unit {0}) × World) (w : World)
          → KeepsResolved p.1 w
          → KeepsResolved q.1 w
          → KeepsResolved (if b then p else q).1 w
      Keeping-branch true p q w h k = h
      Keeping-branch false p q w h k = k

  Keeping-handle :
      (k : ℕ) (d : Decision) (actor : AuditActor) (now : ℕ)
      → Keeping (handle_change_approval_decision guards k d actor now)
  unfolding handle_change_approval_decision
  Keeping-handle k d actor now = record {
    keeps = λ w.
        (Keeping-decide
            (find_where (λ (c : ChangeRecord). is_request k c.approval_request_id) w.changes) d
            actor now).keeps
          w;
  }

  pub Keeping-settle :
      (a : ApprovalRequest) (d : Decision) (actor : AuditActor) (now : ℕ)
      → Keeping (settle_subject guards a d actor now)
  unfolding settle_subject
  Keeping-settle a d actor now =
      Keeping-if (is_change_record a.subject_type) _ (pure tt) (Keeping-handle a.id d actor now)
        (Keeping-return (ok tt))

  -- The decision on an exception writes no request and no decision.
  pub same_exception :
      (a : ApprovalRequest) (d : Decision) (actor : AuditActor) (w : World)
      → ((apply_to_exception guards a d actor w).1.approvals ≡ w.approvals)
        × ((apply_to_exception guards a d actor w).1.decisions ≡ w.decisions)
  unfolding apply_to_exception
  same_exception a d actor w = ground (arith, guards.same_apply a d actor w)
