-- ===== src/Executions/Outcomes.antt =====
-- The ways in which apps/api/apps/executions/services.py ends an execution keep what had ended.
use Prim.Native.Nat.{ℕ}
use mathlib.Core.Path.{◌≡◌, refl, sym, subst, ◌∙◌}
use mathlib.Core.Bool.{true, false, false≢true}
use mathlib.Core.Option.{Option, none, some}
use native.Mathlib.Omega.{arith}
use runbook_platform.Prelude.Tests.{nat_eq}
use runbook_platform.Prelude.Tables.{find_row, find_row_key, find_row-update_row_same, update_row}
use runbook_platform.Prelude.Effects.{continue, Result, ok, err, ◌>>=◌, commit_or_rollback}
use runbook_platform.Audit.{AuditActor, actor_or, system_actor}
use runbook_platform.Store.{World, Service}
use runbook_platform.Executions.Model.{
  Execution, execution_row, ExecutionStatus, ExecutionStep, step_row,
}
use runbook_platform.Executions.Completion.{
  is_outcome, write_finished, announce_end, write_cancel_request, cancel_by_status,
  cancel_execution, locked,
}
use runbook_platform.Executions.Finality.{SameOutcome-refl, KeepsFinal, KeepsFinal-refl}
use runbook_platform.Executions.Steps.{step_is_finished}

pub KeepsFinal-trans : {u v w : World} → KeepsFinal u v → KeepsFinal v w → KeepsFinal u w
KeepsFinal-trans {u} {v} {w} a b = record {
  executions = λ k e found done.
      let (f, at, same) = b.executions k e found done in
      let (g, at', same') = a.executions k f at (rw same.status done) in
      (
        g,
        at',
        record {
          status = same'.status ∙ same.status;
          started_at = same'.started_at ∙ same.started_at;
          finished_at = same'.finished_at ∙ same.finished_at;
        },
      );
  steps = λ k s found done. a.steps k s (b.steps k s found done) done;
}

pub id-write_finished :
    (o : ExecutionStatus) (now : ℕ) (e : Execution) → (write_finished o now e).id ≡ e.id
unfolding write_finished
id-write_finished o now e = ground arith

pub KeepsFinal-same :
    {v w : World} → v.executions ≡ w.executions → v.steps ≡ w.steps → KeepsFinal v w
KeepsFinal-same es ss = record {
  executions = λ k e found done. (e, rw es found, SameOutcome-refl e);
  steps = λ k s found done. rw ss found;
}

-- A write to an execution that has not ended, with writes to unfinished steps.
pub write_open_steps-KeepsFinal :
    (e : Execution) (f : Execution → Execution) (v w : World)
    → ((x : Execution) → (f x).id ≡ x.id)
    → find_row e.id w.executions ≡ some e
    → is_outcome e.status ≡ false
    → v.executions ≡ update_row e.id f w.executions
    → ((k : ℕ) (s : ExecutionStep)
        → find_row k w.steps ≡ some s
        → step_is_finished s.status ≡ true
        → find_row k v.steps ≡ some s)
    → KeepsFinal v w
write_open_steps-KeepsFinal e f v w keeps at open_yet es ss = record {
  executions = λ k x found done. (
    x,
    rw es (
        find_row-update_row_same k e.id f w.executions x keeps found
          (λ here. absurd (false≢true (ground arith)))),
    SameOutcome-refl x,
  );
  steps = ss;
}

pub write_open-KeepsFinal :
    (e : Execution) (f : Execution → Execution) (v w : World)
    → ((x : Execution) → (f x).id ≡ x.id)
    → find_row e.id w.executions ≡ some e
    → is_outcome e.status ≡ false
    → v.executions ≡ update_row e.id f w.executions
    → v.steps ≡ w.steps
    → KeepsFinal v w
write_open-KeepsFinal e f v w keeps at open_yet es ss =
    write_open_steps-KeepsFinal e f v w keeps at open_yet es (λ k s found done. rw ss found)

cancel_by_status-KeepsFinal :
    (s : ExecutionStatus) (e : Execution) (actor : AuditActor) (now : ℕ) (w : World)
    → e.status ≡ s
    → find_row e.id w.executions ≡ some e
    → KeepsFinal (cancel_by_status s e actor now w).1 w
unfolding cancel_by_status announce_end
cancel_by_status-KeepsFinal ExecutionStatus.queued e actor now w is at =
    write_open-KeepsFinal e (λ x. record x { status = ExecutionStatus.cancelled }) _ w (λ x. refl)
      at (rw is) refl refl
cancel_by_status-KeepsFinal ExecutionStatus.claimed e actor now w is at =
    write_open-KeepsFinal e (write_cancel_request actor now) _ w
      (λ x. unfold write_cancel_request in refl) at (rw is) refl refl
cancel_by_status-KeepsFinal ExecutionStatus.running e actor now w is at =
    write_open-KeepsFinal e (write_cancel_request actor now) _ w
      (λ x. unfold write_cancel_request in refl) at (rw is) refl refl
cancel_by_status-KeepsFinal _ e actor now w is at = KeepsFinal-refl w

-- Locking reads a row by its key.
module _ {B : Type 0} (f : Execution → Service B) (id : ℕ) (w : World) where
  pub locked-KeepsFinal :
      (o : Option Execution)
      → find_row id w.executions ≡ o
      → ((e : Execution) → find_row e.id w.executions ≡ some e → KeepsFinal (f e w).1 w)
      → KeepsFinal ((locked id >>= f) w).1 w
  unfolding locked
  locked-KeepsFinal none at kf = rw (at, locked) (KeepsFinal-refl w)
  locked-KeepsFinal (some e) at kf =
      rw (at, locked)
        (kf e (
          subst (λ k. find_row k w.executions ≡ some e) (sym (find_row_key id w.executions e at))
            at))

pub cancel_execution-KeepsFinal :
    (id : ℕ) (actor : Option AuditActor) (now : ℕ) (w : World)
    → KeepsFinal (cancel_execution id actor now w).1 w
unfolding cancel_execution
cancel_execution-KeepsFinal id actor now w =
    locked-KeepsFinal
      (λ e. cancel_by_status e.status e (actor_or actor (system_actor "Django system")) now) id w _
      refl (λ e at. cancel_by_status-KeepsFinal e.status e _ now w refl at)

module _ (w : World) where
  pub rollback-KeepsFinal :
      {A : Type 0} (r : Result A) (v : World)
      → KeepsFinal v w
      → KeepsFinal (commit_or_rollback w r v).1 w
  rollback-KeepsFinal (ok a) v h = h
  rollback-KeepsFinal (err e) v h = KeepsFinal-refl w

  pub continue-KeepsFinal :
      {A B : Type 0} (f : A → Service B) (r : Result A) (v : World)
      → KeepsFinal v w
      → ((a : A) → KeepsFinal (f a v).1 v)
      → KeepsFinal (continue r f v).1 w
  continue-KeepsFinal f (ok a) v h after = KeepsFinal-trans (after a) h
  continue-KeepsFinal f (err e) v h after = h
