-- ===== src/Policies/Steps.antt =====
-- `evaluate_step_policy` of apps/api/apps/policies/services.py: the rules of an organization
-- judge a step, and the evaluation is stored.
use Prim.Native.Nat.{ℕ}
use Prim.Native.String.{String}
use mathlib.Core.Bool.{Bool, true, false}
use mathlib.Core.Option.{Option, none, some}
use mathlib.Core.List.{List, [], ◌∷◌}
use runbook_platform.Prelude.Tests.{◌==◌, nat_eq, if◌then◌else◌}
use runbook_platform.Prelude.Sorting.{sort_by}
use runbook_platform.Prelude.Effects.{Result, ok, err, domain_validation, ◌>>=◌, ◌>>◌, guard}
use runbook_platform.Store.{World, Service}
use runbook_platform.Executions.Model.{Execution, ExecutionStep}
use runbook_platform.Policies.Model.{
  Outcome, approval_required, auto_approve, DecisionSource, policy_rule, workflow_default,
  PolicyEvaluation,
}
use runbook_platform.Policies.Conditions.{Zones, Facts, check_condition, matches}
use runbook_platform.Policies.Context.{build_context}
use runbook_platform.Policies.Evaluation.{
  Candidate, active_rules, precedes, Verdict, decided, invalid, broken, undecided, judge_params,
  or_rest, apply_floor, create_evaluation,
}

abbrev policy_key : Option Candidate → Option ℕ
policy_key none = none
policy_key (some (p, r)) = some p.id

abbrev rule_key : Option Candidate → Option ℕ
rule_key none = none
rule_key (some (p, r)) = some r.id

module _ (fresh now : ℕ) (e : Execution) (s : ExecutionStep) where
  -- What every evaluation of the step has in common.
  new_evaluation :
      Option Candidate
      → Bool
      → Outcome
      → Outcome
      → DecisionSource
      → String
      → String
      → PolicyEvaluation
  new_evaluation c matched outcome effective source reason code = record {
    id = fresh;
    organization_id = e.organization_id;
    execution_id = e.id;
    step_id = s.id;
    policy_id = policy_key c;
    rule_id = rule_key c;
    matched = matched;
    outcome = outcome;
    effective_outcome = effective;
    decision_source = source;
    reason = reason;
    error_code = code;
    evaluated_at = now;
  }

  -- `_persist_evaluation_error`
  unfoldable pub error_evaluation : Option Candidate → String → PolicyEvaluation
  unfolding new_evaluation
  error_evaluation c code =
      new_evaluation c false Outcome.block Outcome.block policy_rule
        "Policy evaluation failed; step blocked for safety." code

  unfoldable pub default_outcome : Outcome
  default_outcome = if s.requires_approval then approval_required else auto_approve

  unfoldable pub evaluation_of : Verdict → PolicyEvaluation
  unfolding new_evaluation error_evaluation default_outcome
  evaluation_of (decided (p, r)) =
      new_evaluation (some (p, r)) true r.outcome (apply_floor r.outcome s) policy_rule r.reason ""
  evaluation_of (invalid c) = error_evaluation (some c) "invalid_condition_params"
  evaluation_of broken = error_evaluation none "policy_evaluation_error"
  evaluation_of undecided =
      new_evaluation none false default_outcome default_outcome workflow_default
        "No matching policy rule; using workflow default." ""

  -- `except Exception:` stores an evaluation that blocks the step.
  unfoldable pub or_blocked : Result PolicyEvaluation × World → Result PolicyEvaluation × World
  unfolding error_evaluation create_evaluation
  or_blocked (ok ev, w) = (ok ev, w)
  or_blocked (err x, w) = create_evaluation e (error_evaluation none "policy_evaluation_error") w

module _ (zones : Zones) where
  unfoldable pub judge_rule : Facts → Candidate → Option Verdict
  judge_rule f (p, r) =
      judge_params (p, r) (check_condition zones r.condition_type r.condition_params)
        (matches zones r.condition_type r.condition_params f)

  unfoldable pub first_verdict : Facts → List Candidate → Verdict
  unfolding judge_rule
  first_verdict f [] = undecided
  first_verdict f (c ∷ cs) = let rest = first_verdict f cs in or_rest (judge_rule f c) rest

  -- `fresh` is the new evaluation's key and `now` the instant of the call.
  module _ (fresh now : ℕ) (e : Execution) (s : ExecutionStep) where
    unfoldable pub evaluate_rules : Facts → Service PolicyEvaluation
    unfolding first_verdict evaluation_of or_blocked
    evaluate_rules f w =
        let verdict = first_verdict f (sort_by precedes (active_rules e.organization_id w)) in
        or_blocked fresh now e s (create_evaluation e (evaluation_of fresh now e s verdict) w)

    unfoldable pub evaluate_step_policy : Service PolicyEvaluation
    unfolding evaluate_rules
    evaluate_step_policy = do
      guard (s.execution_id == e.id) (domain_validation "step_execution_mismatch")
      f ← λ w. (build_context e s now, w)
      evaluate_rules f
