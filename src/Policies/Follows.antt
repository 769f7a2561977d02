-- ===== src/Policies/Follows.antt =====
-- Which rule an evaluation follows: apps/api/apps/policies/services.py.
use Prim.Native.Nat.{ℕ}
use Prim.Native.String.{String}
use mathlib.Core.Path.{◌≡◌, refl, sym, ap, subst, ◌∙◌}
use mathlib.Core.Logic.{◌⊎◌, inl, inr}
use native.Mathlib.Omega.{arith}
use mathlib.Core.Bool.{false}
use mathlib.Core.Option.{none, some}
use runbook_platform.Prelude.Tests.{◌==◌, nat_eq, string_eq, eq_iff, Bool-cases, if◌then◌else◌}
use runbook_platform.Prelude.Sorting.{sort_by}
use runbook_platform.Prelude.Effects.{Result, ok, err, Error, Result-cases}
use runbook_platform.Store.{World}
use runbook_platform.Executions.Model.{Execution, ExecutionStep}
use runbook_platform.Policies.Model.{
  Policy, PolicyRule, approval_required, auto_approve, PolicyEvaluation,
}
use runbook_platform.Policies.Conditions.{Zones, Facts}
use runbook_platform.Policies.Context.{build_context}
use runbook_platform.Policies.Evaluation.{
  active_rules, precedes, Verdict, decided, invalid, broken, undecided, apply_floor,
  create_evaluation,
}
use runbook_platform.Policies.Steps.{
  default_outcome, first_verdict, evaluation_of, error_evaluation, or_blocked, evaluate_rules,
  evaluate_step_policy,
}
use runbook_platform.Policies.Reading.{Active}
use runbook_platform.Policies.Ranked.{
  IsPassed, Decides, first_verdict-Decides, first_verdict-undecided,
}
use runbook_platform.Policies.Decisions.{Stores, create_evaluation-Stores}

differs :
    (ev : PolicyEvaluation) (code : String)
    → ("" == code) ≡ false
    → ev.error_code ≡ ""
    → ev.error_code ≡ code
    → ⊥
differs ev code apart free named = ground (arith, apart, (eq_iff "" code).1 (sym free ∙ named))

module _ (zones : Zones) (fresh now : ℕ) (e : Execution) (s : ExecutionStep) where
  abbrev verdict_on : Facts → World → Verdict
  verdict_on f w = first_verdict zones f (sort_by precedes (active_rules e.organization_id w))

  stored_or_blocked :
      (wanted ev : PolicyEvaluation) (w w' : World) (r : Result PolicyEvaluation × World)
      → Stores wanted w r
      → or_blocked fresh now e s r ≡ (ok ev, w')
      → (ev ≡ wanted)
        ⊎ ((ev ≡ error_evaluation fresh now e s none "policy_evaluation_error")
            × (x : Error) × (r.0 ≡ err x))
  unfolding Stores or_blocked
  stored_or_blocked wanted ev w w' (ok x, v) stores t =
      let same : ok x ≡ ok ev = ap (λ r. r.0) t in inl (sym (ground (arith, same)) ∙ stores.0)
  stored_or_blocked wanted ev w w' (err x, v) stores t =
      let blocked = error_evaluation fresh now e s none "policy_evaluation_error" in
      let k = subst (Stores blocked v) t (create_evaluation-Stores e blocked v) in
      inr (k.0, x, refl)

  -- A run of the loop that returns stores what the loop gives, or what blocks the step if that
  -- could not be stored.
  pub evaluate_rules-result :
      (f : Facts) (w : World) (ev : PolicyEvaluation) (w' : World)
      → evaluate_rules zones fresh now e s f w ≡ (ok ev, w')
      → (ev ≡ evaluation_of fresh now e s (verdict_on f w))
        ⊎ ((ev ≡ error_evaluation fresh now e s none "policy_evaluation_error")
            × (x : Error) × ((create_evaluation e
                  (evaluation_of fresh now e s (verdict_on f w))
                  w).0
                ≡ err x))
  unfolding evaluate_rules
  evaluate_rules-result f w ev w' h =
      let wanted = evaluation_of fresh now e s (verdict_on f w) in
      stored_or_blocked wanted ev w w' (create_evaluation e wanted w)
        (create_evaluation-Stores e wanted w) h

  -- An evaluation that returns has read the facts and run the loop.
  pub evaluate_step_policy-runs :
      (w : World) (ev : PolicyEvaluation) (w' : World)
      → evaluate_step_policy zones fresh now e s w ≡ (ok ev, w')
      → (f : Facts) × (build_context e s now ≡ ok f)
        × (evaluate_rules zones fresh now e s f w ≡ (ok ev, w'))
  unfolding evaluate_step_policy
  evaluate_step_policy-runs w ev w' h = elim (Bool-cases (s.execution_id == e.id)) [
    | inr t ↦ absurd (ground (arith, rw t at h))
    | inl t ↦ elim (Result-cases (build_context e s now)) [
      | inl (f, k) ↦ (f, k, rw (t, k) at h)
      | inr (x, k) ↦ absurd (ground (arith, rw (t, k) at h))
    ]
  ]

  -- The evaluation is that of the rule `r` of `p`, which decides on `w`.
  pub record ByRule (f : Facts) (w : World) (ev : PolicyEvaluation) : Type 0 where
    pub policy : Policy
    pub rule : PolicyRule
    pub decides : Decides zones f e.organization_id w policy rule
    pub names_policy : ev.policy_id ≡ some policy.id
    pub names_rule : ev.rule_id ≡ some rule.id
    pub same_outcome : ev.outcome ≡ rule.outcome
    pub floored : ev.effective_outcome ≡ apply_floor rule.outcome s

  -- No active rule matches, and the evaluation is the workflow's default.
  pub record ByDefault (f : Facts) (w : World) (ev : PolicyEvaluation) : Type 0 where
    pub passed : (q : Policy) (r : PolicyRule) → Active e.organization_id w q r → IsPassed zones f r
    pub names_none : ev.rule_id ≡ none
    pub default :
        ev.effective_outcome ≡ (if s.requires_approval then approval_required else auto_approve)

  followed :
      (f : Facts) (w : World) (ev : PolicyEvaluation) (v : Verdict)
      → verdict_on f w ≡ v
      → ev ≡ evaluation_of fresh now e s v
      → ev.error_code ≡ ""
      → ByRule f w ev ⊎ ByDefault f w ev
  unfolding evaluation_of default_outcome
  followed f w ev (decided (p, r)) h same free = inl (record {
    policy = p;
    rule = r;
    decides = first_verdict-Decides zones f e.organization_id w (p, r) h;
    names_policy = ap (λ x. x.policy_id) same;
    names_rule = ap (λ x. x.rule_id) same;
    same_outcome = ap (λ x. x.outcome) same;
    floored = ap (λ x. x.effective_outcome) same;
  })
  followed f w ev (invalid c) h same free =
      absurd (differs ev "invalid_condition_params" refl free (ap (λ x. x.error_code) same))
  followed f w ev broken h same free =
      absurd (differs ev "policy_evaluation_error" refl free (ap (λ x. x.error_code) same))
  followed f w ev undecided h same free = inr (record {
    passed = λ q r active. first_verdict-undecided zones f e.organization_id w q r h active;
    names_none = ap (λ x. x.rule_id) same;
    default = ap (λ x. x.effective_outcome) same;
  })

  -- An evaluation that returns and names no error follows an active rule of the organization that
  -- matches the step's facts, with every active rule of a lower priority number, or of the same
  -- number under an older policy, passed over; or no active rule matches and it is the workflow's
  -- default.
  pub evaluate_step_policy-follows :
      (w : World) (ev : PolicyEvaluation) (w' : World)
      → evaluate_step_policy zones fresh now e s w ≡ (ok ev, w')
      → ev.error_code ≡ ""
      → (f : Facts) × (build_context e s now ≡ ok f) × (ByRule f w ev ⊎ ByDefault f w ev)
  evaluate_step_policy-follows w ev w' h free =
      let (f, built, ran) = evaluate_step_policy-runs w ev w' h in
      (
        f,
        built,
        elim (evaluate_rules-result f w ev w' ran) [
          | inl same ↦ followed f w ev (verdict_on f w) refl same free
          | inr (blocked, x, failed) ↦ absurd (
              unfold error_evaluation in
              differs ev "policy_evaluation_error" refl free (ap (λ x. x.error_code) blocked))
        ],
      )
