-- ===== src/Executions/Once.antt =====
-- Who may act on an execution, and how often it ends: `update_execution_step` and
-- `complete_execution` of apps/api/apps/executions/services.py.
use Prim.Native.Nat.{ℕ}
use Prim.Native.String.{String}
use mathlib.Core.Path.{◌≡◌, refl}
use mathlib.Core.Bool.{true}
use mathlib.Core.Option.{Option, none, some}
use mathlib.Core.Logic.{inl, inr}
use native.Mathlib.Omega.{arith}
use runbook_platform.Prelude.Tests.{Bool-cases, Option-cases, nat_eq, string_eq, eq_iff}
use runbook_platform.Prelude.Tables.{find_row}
use runbook_platform.Prelude.Effects.{Result, ok, err}
use runbook_platform.Store.{World}
use runbook_platform.Executions.Model.{Execution, execution_row, ExecutionStep, step_row}
use runbook_platform.Executions.Steps.{
  StepUpdate, check_ownership, is_allowed, write_step, step_of, update_found_step, update_step_of,
  update_execution_step,
}
use runbook_platform.Changes.Completion.{token_text}

-- The caller is the runner that holds the claim.
pub record IsOwner (e : Execution) (runner_id claim_token : String) : Type 0 where
  pub same_runner : e.claimed_by_runner_id ≡ runner_id
  pub same_token : token_text e.claim_token ≡ claim_token

pub check_ownership-IsOwner :
    (e : Execution) (runner_id claim_token : String)
    → check_ownership e runner_id claim_token ≡ none
    → IsOwner e runner_id claim_token
unfolding check_ownership
check_ownership-IsOwner e runner_id claim_token h = record {
  same_runner = ground (arith, eq_iff e.claimed_by_runner_id runner_id);
  same_token = ground (arith, eq_iff (token_text e.claim_token) claim_token);
}

-- What a step update that returned had found.
pub record Updated (id : ℕ) (u : StepUpdate) (s : ExecutionStep) (w : World) : Type 0 where
  pub execution : Execution
  pub before : ExecutionStep
  pub execution_found : find_row id w.executions ≡ some execution
  pub owner : IsOwner execution u.runner_id u.claim_token
  pub step_found : step_of execution.id u.step_id w ≡ some before
  pub allowed : is_allowed u before.status ≡ true
  pub result : s ≡ write_step u before

module _ (id : ℕ) (u : StepUpdate) (w : World) where
  -- A raise changes nothing, and a return has gone through all checks.
  abbrev pub Answer : Result ExecutionStep × World → Type 0
  Answer (ok s, v) = Updated id u s w
  Answer (err error, v) = v ≡ w

  found-Answer :
      (e : Execution) (o : Option ExecutionStep)
      → find_row id w.executions ≡ some e
      → IsOwner e u.runner_id u.claim_token
      → step_of e.id u.step_id w ≡ o
      → Answer (update_found_step u e o w)
  unfolding update_found_step
  found-Answer e none at owner at_step = refl
  found-Answer e (some s) at owner at_step = elim (Bool-cases (is_allowed u s.status)) [
    | inr refused ↦ rw refused refl
    | inl a ↦ rw a (record {
      execution = e;
      before = s;
      execution_found = at;
      owner = owner;
      step_found = at_step;
      allowed = a;
      result = refl;
    })
  ]

  step-Answer :
      (o : Option Execution) → find_row id w.executions ≡ o → Answer (update_step_of u o w)
  unfolding update_step_of
  step-Answer none at = refl
  step-Answer (some e) at = elim (Option-cases (check_ownership e u.runner_id u.claim_token)) [
    | inl owned ↦
        rw (owned, update_step_of)
          (found-Answer e (step_of e.id u.step_id w) at
            (check_ownership-IsOwner e u.runner_id u.claim_token owned) refl)
    | inr (error, denied) ↦ rw (denied, update_step_of) refl
  ]

  -- A step update that raises leaves the database as it was; one that returns was made by the
  -- runner that holds the claim, on a step of that execution, along an allowed transition.
  pub update_execution_step-Answer : Answer (update_execution_step id u w)
  unfolding update_execution_step
  update_execution_step-Answer = step-Answer (find_row id w.executions) refl
