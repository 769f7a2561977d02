-- ===== src/Executions/Completed.antt =====
-- An execution ends once: `complete_execution` of apps/api/apps/executions/services.py.
use Prim.Native.Nat.{ℕ}
use Prim.Native.String.{String}
use mathlib.Core.Path.{◌≡◌, refl, ◌∙◌}
use mathlib.Core.Bool.{true}
use mathlib.Core.Option.{Option, none, some}
use mathlib.Core.Logic.{inl, inr}
use native.Mathlib.Omega.{arith}
use runbook_platform.Prelude.Tests.{Option-cases, nat_eq, eq_refl}
use runbook_platform.Prelude.Tables.{find_row, find_row_key, find_row-update_row}
use runbook_platform.Prelude.Effects.{
  Result, ok, err, Error, ◌>>◌, raise_if, commit_or_rollback, continue,
}
use runbook_platform.Store.{World}
use runbook_platform.Executions.Model.{Execution, execution_row, ExecutionStatus, status_value}
use runbook_platform.Executions.Steps.{check_ownership}
use runbook_platform.Executions.Once.{IsOwner, check_ownership-IsOwner}
use runbook_platform.Executions.Completion.{
  is_outcome, is_underway, write_finished, save_completion, close_lease, announce_end, locked,
  check_completion, finish_locked, settle_completion, complete_execution, after_hook,
  completion_event_type,
}
use runbook_platform.Executions.Outcomes.{id-write_finished}
use runbook_platform.Executions.Endings.{world-after_hook}
use runbook_platform.Runners.Model.{LeaseStatus}
use runbook_platform.Changes.Frame.{SameExecutions-refl, Frames-handle_bound, Frames-assert_ready}
use runbook_platform.Changes.Completion.{
  SameExecutions, ChangeGuards, assert_execution_change_binding_ready,
  handle_bound_execution_completed,
}

module _ (guards : ChangeGuards) (id : ℕ) (runner_id claim_token : String)
    (outcome : ExecutionStatus) (now : ℕ) where
  -- The end that a completion writes to the execution that it found in `w`.
  pub record Completed (e : Execution) (v w : World) : Type 0 where
    pub before : Execution
    pub found : find_row id w.executions ≡ some before
    pub owner : IsOwner before runner_id claim_token
    pub underway : is_underway before.status ≡ true
    pub outcome_valid : is_outcome outcome ≡ true
    pub result : e ≡ write_finished outcome now before
    pub stored : find_row id v.executions ≡ some e

  checked :
      (e : Execution)
      → check_completion e runner_id claim_token outcome ≡ none
      → (check_ownership e runner_id claim_token ≡ none)
        × (is_underway e.status ≡ true)
        × (is_outcome outcome ≡ true)
  unfolding check_completion
  checked e h = ground arith

  saved :
      (e : Execution) (v w : World)
      → SameExecutions v w
      → find_row id w.executions ≡ some e
      → find_row id (save_completion e runner_id outcome now v).executions
        ≡ some (write_finished outcome now e)
  unfolding save_completion
  saved e v w same at =
      rw
        (
          same.executions,
          find_row-update_row id e.id (write_finished outcome now) w.executions
              (id-write_finished outcome now),
          at,
          find_row_key id w.executions e at,
          eq_refl id,
        )
        refl

  abbrev Ended : World → Result Execution × World → Type 0
  Ended w (ok e, v) = Completed e v w
  Ended w (err error, v) = SameExecutions v w

  save_after-Ended :
      (e : Execution) (r : Result (Unit {0})) (v w : World)
      → SameExecutions v w
      → find_row id w.executions ≡ some e
      → check_completion e runner_id claim_token outcome ≡ none
      → Ended w (
          continue r
            (λ _ (u : World).
              (ok (write_finished outcome now e), save_completion e runner_id outcome now u))
            v)
  save_after-Ended e (err error) v w same at h = same
  save_after-Ended e (ok x) v w same at h =
      let (owned, open_yet, valid) = checked e h in
      record {
        before = e;
        found = at;
        owner = check_ownership-IsOwner e runner_id claim_token owned;
        underway = open_yet;
        outcome_valid = valid;
        result = refl;
        stored = saved e v w same at;
      }

  found-Ended :
      (e : Execution) (o : Option Error) (w : World)
      → check_completion e runner_id claim_token outcome ≡ o
      → find_row id w.executions ≡ some e
      → Ended w (
          (do
            raise_if o
            assert_execution_change_binding_ready guards e runner_id claim_token now
            λ (u : World).
                (ok (write_finished outcome now e), save_completion e runner_id outcome now u))
            w)
  found-Ended e (some error) w h at = SameExecutions-refl w
  found-Ended e none w h at =
      let m = assert_execution_change_binding_ready guards e runner_id claim_token now in
      save_after-Ended e (m w).0 (m w).1 w
        ((Frames-assert_ready guards e runner_id claim_token now).frame w) at h

  locked-Ended :
      (o : Option Execution) (w : World)
      → find_row id w.executions ≡ o
      → Ended w (finish_locked guards id runner_id claim_token outcome now w)
  unfolding finish_locked locked
  locked-Ended none w at = rw (at, finish_locked, locked) (SameExecutions-refl w)
  locked-Ended (some e) w at = rw (at, finish_locked, locked) (found-Ended e _ w refl at)

  same_settled :
      (e : Execution) (w : World)
      → (settle_completion guards outcome now e w).1.executions ≡ w.executions
  unfolding settle_completion close_lease announce_end
  same_settled e w =
      let before =
        close_lease e.id LeaseStatus.released (status_value outcome) now
          (announce_end (completion_event_type outcome) e w) in
      let hook = handle_bound_execution_completed guards e now before in
      rw (world-after_hook e hook.0 hook.1)
        ((Frames-handle_bound guards e now).frame before).executions

  result-after_hook :
      (e f : Execution) (r : Result (Unit {0})) (w : World) → (after_hook e r w).0 ≡ ok f → f ≡ e
  unfolding after_hook
  result-after_hook e f (ok x) w h = cc
  result-after_hook e f (err error) w h = ground arith

  result-settle :
      (e f : Execution) (w : World) → (settle_completion guards outcome now e w).0 ≡ ok f → f ≡ e
  unfolding settle_completion
  result-settle e f w h = result-after_hook e f _ _ h

  settled-Completed :
      (r : Result Execution) (u w : World) (f : Execution)
      → Ended w (r, u)
      → (let (r', u') = commit_or_rollback w r u in
          continue r' (settle_completion guards outcome now) u').0
        ≡ ok f
      → Completed f
          (let (r', u') = commit_or_rollback w r u in
            continue r' (settle_completion guards outcome now) u').1
          w
  settled-Completed (err error) u w f ended h = absurd (ground arith)
  settled-Completed (ok e) u w f ended h =
      let same = result-settle e f u h in
      record {
        before = ended.before;
        found = ended.found;
        owner = ended.owner;
        underway = ended.underway;
        outcome_valid = ended.outcome_valid;
        result = same ∙ ended.result;
        stored = rw (same_settled e u, same) ended.stored;
      }

  -- A completion that returns was asked for by the runner that holds the claim, on an execution
  -- that was claimed or running, with succeeded, failed or cancelled as the outcome, and this
  -- outcome is what the row then holds.
  pub complete_execution-Completed :
      (w : World) (f : Execution)
      → (complete_execution guards id runner_id claim_token outcome now w).0 ≡ ok f
      → Completed f (complete_execution guards id runner_id claim_token outcome now w).1 w
  unfolding complete_execution
  complete_execution-Completed w f h =
      let m = finish_locked guards id runner_id claim_token outcome now w in
      settled-Completed m.0 m.1 w f (locked-Ended (find_row id w.executions) w refl) h

pub is_outcome_finished :
    (o : ExecutionStatus) (now : ℕ) (e : Execution)
    → is_outcome o ≡ true
    → is_outcome (write_finished o now e).status ≡ true
unfolding write_finished
is_outcome_finished o now e h = h

module _ (guards : ChangeGuards) (id : ℕ) where
  refuses_ended :
      (runner_id claim_token : String) (outcome : ExecutionStatus) (e : Execution)
      → is_outcome e.status ≡ true
      → (error : Error) × (check_completion e runner_id claim_token outcome ≡ some error)
  unfolding check_completion
  refuses_ended runner_id claim_token outcome e done =
      elim (Option-cases (check_completion e runner_id claim_token outcome)) [
        | inl passed ↦
            absurd (ground (arith, checked guards id runner_id claim_token outcome 0 e passed))
        | inr refused ↦ refused
      ]

  pub complete-ended :
      (runner_id claim_token : String) (outcome : ExecutionStatus) (now : ℕ) (e : Execution)
      → (w : World) → find_row id w.executions ≡ some e
      → is_outcome e.status ≡ true
      → (error : Error) × (complete_execution guards id runner_id claim_token outcome now w
          ≡ (err error, w))
  unfolding complete_execution finish_locked locked
  complete-ended runner_id claim_token outcome now e w at done =
      let (error, refused) = refuses_ended runner_id claim_token outcome e done in
      (error, rw (at, refused, complete_execution, finish_locked, locked) refl)
