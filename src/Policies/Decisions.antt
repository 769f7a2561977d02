-- ===== src/Policies/Decisions.antt =====
-- What the evaluation of a step does: apps/api/apps/policies/services.py.
use Prim.Native.Nat.{ℕ}
use Prim.Native.String.{String}
use mathlib.Core.Path.{◌≡◌, refl, sym, subst}
use mathlib.Core.Logic.{◌⊎◌, inl, inr}
use native.Mathlib.Omega.{arith}
use mathlib.Core.Bool.{true}
use mathlib.Core.Option.{Option, none, some}
use mathlib.Core.List.{[], ◌∷◌, ◌++◌}
use runbook_platform.Prelude.Tests.{◌==◌, nat_eq, is_some, eq_iff, Bool-cases, Option-cases}
use runbook_platform.Prelude.Sorting.{sort_by}
use runbook_platform.Prelude.Effects.{Result, ok, err, Error, continue}
use runbook_platform.Store.{World}
use runbook_platform.Executions.Model.{Execution, ExecutionStep}
use runbook_platform.Changes.Dispatch.{binding_of}
use runbook_platform.Prelude.Tables.{find_row, find_where}
use runbook_platform.Changes.Model.{change_row}
use runbook_platform.Policies.Model.{Outcome, auto_approve, PolicyEvaluation}
use runbook_platform.Policies.Conditions.{Zones, Facts}
use runbook_platform.Policies.Context.{build_context}
use runbook_platform.Policies.Evaluation.{
  Candidate, active_rules, precedes, Verdict, decided, invalid, broken, undecided, apply_floor,
  create_evaluation, link_policy_evaluation,
}
use runbook_platform.Policies.Steps.{
  first_verdict, evaluation_of, evaluate_rules, evaluate_step_policy, error_evaluation, or_blocked,
}

-- What the stored evaluation of a step says.
pub record Evaluated (e : Execution) (s : ExecutionStep) (w : World) (ev : PolicyEvaluation)
    (w' : World) : Type 0 where
  pub own_step : s.execution_id ≡ e.id
  pub names_execution : ev.execution_id ≡ e.id
  pub names_step : ev.step_id ≡ s.id
  pub kept_floor : s.requires_approval ≡ true → ev.effective_outcome ≡ auto_approve → ⊥
  pub fails_closed : (ev.error_code ≡ "") ⊎ (ev.effective_outcome ≡ Outcome.block)
  pub is_stored : w'.policy_evaluations ≡ w.policy_evaluations ++ ev ∷ []

-- A call that stores the evaluation returns it; one that raises changes nothing.
unfoldable pub Stores : PolicyEvaluation → World → Result PolicyEvaluation × World → Type 0
Stores ev w (ok x, w') = (x ≡ ev) × (w'.policy_evaluations ≡ w.policy_evaluations ++ ev ∷ [])
Stores ev w (err x, w') = w' ≡ w

pub create_evaluation-Stores :
    (e : Execution) (ev : PolicyEvaluation) (w : World) → Stores ev w (create_evaluation e ev w)
unfolding create_evaluation link_policy_evaluation Stores binding_of find_where
create_evaluation-Stores e ev w = elim (Option-cases (binding_of e.id w)) [
  | inl h ↦ rw h (refl, refl)
  | inr (b, h) ↦ rw h (elim (Option-cases (find_row b.change_record_id w.changes)) [
    | inl k ↦ rw k refl
    | inr (c, k) ↦ rw k (elim (Bool-cases (is_some c.policy_evaluation_id)) [
      | inl m ↦ rw m (refl, refl)
      | inr m ↦ rw m (refl, refl)
    ])
  ])
]

module _ (e : Execution) (s : ExecutionStep) (w : World) where
  -- An evaluation that the loop may give.
  record Sound (ev : PolicyEvaluation) : Type 0 where
    pub execution : ev.execution_id ≡ e.id
    pub step : ev.step_id ≡ s.id
    pub floor : s.requires_approval ≡ true → ev.effective_outcome ≡ auto_approve → ⊥
    pub closed : (ev.error_code ≡ "") ⊎ (ev.effective_outcome ≡ Outcome.block)

  error_evaluation-Sound :
      (fresh now : ℕ) (c : Option Candidate) (code : String)
      → Sound (error_evaluation fresh now e s c code)
  unfolding error_evaluation
  error_evaluation-Sound fresh now c code = record {
    execution = refl;
    step = refl;
    floor = λ a h. ground arith;
    closed = inr refl;
  }

  apply_floor-keeps :
      (o : Outcome) → s.requires_approval ≡ true → apply_floor o s ≡ auto_approve → ⊥
  unfolding apply_floor
  apply_floor-keeps Outcome.auto_approve a h = ground arith
  apply_floor-keeps Outcome.approval_required a h = ground arith
  apply_floor-keeps Outcome.block a h = ground arith
  apply_floor-keeps (Outcome.other t) a h = ground arith

  evaluation_of-Sound : (fresh now : ℕ) (v : Verdict) → Sound (evaluation_of fresh now e s v)
  unfolding evaluation_of
  evaluation_of-Sound fresh now (decided (p, r)) = record {
    execution = refl;
    step = refl;
    floor = λ a h. apply_floor-keeps r.outcome a h;
    closed = inl refl;
  }
  evaluation_of-Sound fresh now (invalid c) =
      error_evaluation-Sound fresh now (some c) "invalid_condition_params"
  evaluation_of-Sound fresh now broken =
      error_evaluation-Sound fresh now none "policy_evaluation_error"
  evaluation_of-Sound fresh now undecided = record {
    execution = refl;
    step = refl;
    floor = λ a h. ground arith;
    closed = inl refl;
  }

  abbrev Answer : Result PolicyEvaluation × World → Type 0
  Answer (ok ev, w') =
      (s.execution_id ≡ e.id × Sound ev) × (w'.policy_evaluations ≡ w.policy_evaluations ++ ev ∷ [])
  Answer (err x, w') = w' ≡ w

  module _ (zones : Zones) (fresh now : ℕ) where
    Stores-Answer :
        (ev : PolicyEvaluation) (r : Result PolicyEvaluation × World)
        → s.execution_id ≡ e.id
        → Sound ev
        → Stores ev w r
        → Answer r
    unfolding Stores
    Stores-Answer ev (ok x, w') own h k = ((own, subst Sound (sym k.0) h), rw k.0 k.1)
    Stores-Answer ev (err x, w') own h k = k

    or_blocked-Answer :
        (ev : PolicyEvaluation) (r : Result PolicyEvaluation × World)
        → s.execution_id ≡ e.id
        → Sound ev
        → Stores ev w r
        → Answer (or_blocked fresh now e s r)
    unfolding Stores or_blocked
    or_blocked-Answer ev (ok x, w') own h k = Stores-Answer ev (ok x, w') own h k
    or_blocked-Answer ev (err x, w') own h k =
        let blocked = error_evaluation fresh now e s none "policy_evaluation_error" in
        subst (λ v. Answer (create_evaluation e blocked v)) (sym k)
          (Stores-Answer blocked (create_evaluation e blocked w) own
            (error_evaluation-Sound fresh now none "policy_evaluation_error")
            (create_evaluation-Stores e blocked w))

    evaluate_rules-Answer :
        (f : Facts) → s.execution_id ≡ e.id → Answer (evaluate_rules zones fresh now e s f w)
    unfolding evaluate_rules
    evaluate_rules-Answer f own =
        let v = first_verdict zones f (sort_by precedes (active_rules e.organization_id w)) in
        let ev = evaluation_of fresh now e s v in
        or_blocked-Answer ev (create_evaluation e ev w) own (evaluation_of-Sound fresh now v)
          (create_evaluation-Stores e ev w)

    after_context-Answer :
        (r : Result Facts)
        → s.execution_id ≡ e.id
        → Answer (continue r (λ f. evaluate_rules zones fresh now e s f) w)
    after_context-Answer (ok f) own = evaluate_rules-Answer f own
    after_context-Answer (err x) own = refl

    evaluate_step_policy-Answer : Answer (evaluate_step_policy zones fresh now e s w)
    unfolding evaluate_step_policy
    evaluate_step_policy-Answer = elim (Bool-cases (s.execution_id == e.id)) [
      | inl h ↦
          rw h (after_context-Answer (build_context e s now) ((eq_iff s.execution_id e.id).0 h))
      | inr h ↦ rw h refl
    ]

    -- An evaluation that returns is one of this step of this execution, it never approves by
    -- itself a step that requires approval, one that names an error blocks the step, and it is
    -- the one row that is stored.
    pub evaluate_step_policy-Evaluated :
        (ev : PolicyEvaluation) (w' : World)
        → evaluate_step_policy zones fresh now e s w ≡ (ok ev, w')
        → Evaluated e s w ev w'
    evaluate_step_policy-Evaluated ev w' h =
        let a = subst Answer h evaluate_step_policy-Answer in
        record {
          own_step = a.0.0;
          names_execution = a.0.1.execution;
          names_step = a.0.1.step;
          kept_floor = a.0.1.floor;
          fails_closed = a.0.1.closed;
          is_stored = a.1;
        }

    -- An evaluation that raises leaves the database as it was.
    pub evaluate_step_policy-rollback :
        (x : Error) (w' : World) → evaluate_step_policy zones fresh now e s w ≡ (err x, w') → w' ≡ w
    evaluate_step_policy-rollback x w' h = subst Answer h evaluate_step_policy-Answer
