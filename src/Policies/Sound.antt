-- ===== src/Policies/Sound.antt =====
-- What the evaluation gives on the rules that the administration stores:
-- apps/api/apps/policies/services.py.
use Prim.Native.Nat.{ℕ}
use mathlib.Core.Path.{◌≡◌, refl, ap, ◌∙◌}
use mathlib.Core.Logic.{◌⊎◌, inl, inr}
use mathlib.Core.Bool.{◌&&◌}
use mathlib.Core.Option.{Option, none, some}
use mathlib.Core.List.{List, [], ◌∷◌}
use runbook_platform.Prelude.Tests.{◌==◌, nat_eq, Bool-cases, Option-cases}
use runbook_platform.Prelude.Tables.{All, All-append, find_row, find_row_key, select}
use runbook_platform.Prelude.Sorting.{sort_by, All-sort_by}
use runbook_platform.Audit.{AuditActor}
use runbook_platform.Store.{World}
use runbook_platform.Policies.Model.{Policy, PolicyRule, policy_rule_row, PolicyEvaluation}
use runbook_platform.Policies.Conditions.{Zones, Facts, matches}
use runbook_platform.Policies.Evaluation.{
  Candidate, decided, undecided, active_rules, rules_of, collect, precedes, create_evaluation,
}
use runbook_platform.Policies.Steps.{judge_rule, first_verdict, evaluation_of, evaluate_step_policy}
use runbook_platform.Policies.Follows.{evaluate_rules-result, evaluate_step_policy-runs}
use runbook_platform.Prelude.Effects.{ok, err, Error}
use runbook_platform.Executions.Model.{Execution, ExecutionStep}
use runbook_platform.Policies.Rules.{RuleChanges, create_rule, update_rule}
use runbook_platform.Policies.Valid.{
  ValidRule, ValidRules, create_rule-ValidRules, update_rule-ValidRules,
}

-- An administration call on rules. An update is made on the row as it stands.
pub data RuleCall : Type 0 where
  create : Option AuditActor → Policy → PolicyRule → RuleCall
  update : Option AuditActor → RuleChanges → ℕ → RuleCall

module _ (zones : Zones) where
  abbrev update_found : Option AuditActor → RuleChanges → Option PolicyRule → World → World
  update_found actor c none w = w
  update_found actor c (some r) w = (update_rule zones actor c r w).1

  abbrev pub after_rule_call : RuleCall → World → World
  after_rule_call (create actor p r) w = (create_rule zones actor p r w).1
  after_rule_call (update actor c k) w = update_found actor c (find_row k w.policy_rules) w

  unfoldable pub after_rule_calls : List RuleCall → World → World
  after_rule_calls [] w = w
  after_rule_calls (c ∷ cs) w = after_rule_calls cs (after_rule_call c w)

  after_rule_call-ValidRules :
      (c : RuleCall) (w : World)
      → ValidRules zones w.policy_rules
      → ValidRules zones (after_rule_call c w).policy_rules
  after_rule_call-ValidRules (create actor p r) w h = create_rule-ValidRules zones actor p r w h
  after_rule_call-ValidRules (update actor c k) w h =
      elim (Option-cases (find_row k w.policy_rules)) [
        | inl e ↦ rw e h
        | inr (r, e) ↦ rw e (
            update_rule-ValidRules zones actor c r w
              (ap (λ i. find_row i w.policy_rules) (find_row_key k w.policy_rules r e) ∙ e) h)
      ]

  -- Whatever calls create, change and deactivate rules, each update on the row as it stands,
  -- every rule keeps a positive priority, parameters that its condition type accepts and a known
  -- outcome, and no two rules have the same key, if this was so before.
  pub after_rule_calls-ValidRules :
      (cs : List RuleCall) (w : World)
      → ValidRules zones w.policy_rules
      → ValidRules zones (after_rule_calls cs w).policy_rules
  unfolding after_rule_calls
  after_rule_calls-ValidRules [] w h = h
  after_rule_calls-ValidRules (c ∷ cs) w h =
      after_rule_calls-ValidRules cs (after_rule_call c w) (after_rule_call-ValidRules c w h)

  -- A rule that is valid is passed over or decides.
  judge_rule-valid :
      (f : Facts) (c : Candidate)
      → ValidRule zones c.1
      → (judge_rule zones f c ≡ none) ⊎ (judge_rule zones f c ≡ some (decided c))
  unfolding judge_rule
  judge_rule-valid f (p, r) v =
      elim (Bool-cases (matches zones r.condition_type r.condition_params f)) [
        | inl e ↦ inr (rw (v.condition, e) refl)
        | inr e ↦ inl (rw (v.condition, e) refl)
      ]

  first_verdict-valid :
      (f : Facts) (cs : List Candidate)
      → All (λ c. ValidRule zones c.1) cs
      → (first_verdict zones f cs ≡ undecided)
        ⊎ ((c : Candidate) × (first_verdict zones f cs ≡ decided c))
  unfolding first_verdict
  first_verdict-valid f [] h = inl refl
  first_verdict-valid f (c ∷ cs) h = elim (judge_rule-valid f c h.0) [
    | inl e ↦ rw e (first_verdict-valid f cs h.1)
    | inr e ↦ rw e (inr (c, refl))
  ]

  rules_of-valid :
      (p : Policy) (rs : List PolicyRule)
      → All (ValidRule zones) rs
      → All (λ (c : Candidate). ValidRule zones c.1) (rules_of p rs)
  unfolding rules_of
  rules_of-valid p [] h = tt
  rules_of-valid p (r ∷ rs) h = elim (Bool-cases (r.policy_id == p.id && r.is_active)) [
    | inl e ↦ rw e (h.0, rules_of-valid p rs h.1)
    | inr e ↦ rw e (rules_of-valid p rs h.1)
  ]

  collect-valid :
      (rs : List PolicyRule) (ps : List Policy)
      → All (ValidRule zones) rs
      → All (λ (c : Candidate). ValidRule zones c.1) (collect rs ps)
  unfolding collect
  collect-valid rs [] h = tt
  collect-valid rs (p ∷ ps) h =
      All-append (λ (c : Candidate). ValidRule zones c.1) (rules_of p rs) (collect rs ps)
        (rules_of-valid p rs h) (collect-valid rs ps h)

  active_rules-decide :
      (w : World) (organization_id : ℕ) (f : Facts)
      → ValidRules zones w.policy_rules
      → (first_verdict zones f (sort_by precedes (active_rules organization_id w)) ≡ undecided)
        ⊎ ((c : Candidate) × (first_verdict zones f
                (sort_by precedes (active_rules organization_id w))
              ≡ decided c))
  unfolding active_rules
  active_rules-decide w organization_id f v =
      first_verdict-valid f (sort_by precedes (active_rules organization_id w)) (
        All-sort_by precedes (λ (c : Candidate). ValidRule zones c.1)
          (active_rules organization_id w)
          (collect-valid w.policy_rules
            (select (λ (p : Policy). p.organization_id == organization_id && p.is_active)
              w.policies)
            v.valid))

  unnamed :
      (fresh now : ℕ) (e : Execution) (s : ExecutionStep) (f : Facts) (w : World)
      → ValidRules zones w.policy_rules
      → (evaluation_of fresh now e s
          (first_verdict zones f (sort_by precedes (active_rules e.organization_id w)))).error_code
        ≡ ""
  unfolding evaluation_of
  unnamed fresh now e s f w v = elim (active_rules-decide w e.organization_id f v) [
    | inl h ↦ rw h refl
    | inr (c, h) ↦ rw h refl
  ]

  -- On valid rules, whatever calls create, change and deactivate rules, one at a time and each
  -- update on the row as it stands, an evaluation that then returns names no error, unless the
  -- evaluation that it wanted to store, which names none, could not be stored.
  pub after_rule_calls-evaluate :
      (cs : List RuleCall) (w : World) (fresh now : ℕ) (e : Execution) (s : ExecutionStep)
      (ev : PolicyEvaluation) (w' : World)
      → ValidRules zones w.policy_rules
      → evaluate_step_policy zones fresh now e s (after_rule_calls cs w) ≡ (ok ev, w')
      → (ev.error_code ≡ "")
        ⊎ ((first : PolicyEvaluation) × (x : Error) × (first.error_code ≡ "")
            × ((create_evaluation e first (after_rule_calls cs w)).0 ≡ err x))
  after_rule_calls-evaluate cs w fresh now e s ev w' h returned =
      let after = after_rule_calls cs w in
      let (f, built, ran) = evaluate_step_policy-runs zones fresh now e s after ev w' returned in
      let verdict =
        first_verdict zones f (sort_by precedes (active_rules e.organization_id after)) in
      let free = unnamed fresh now e s f after (after_rule_calls-ValidRules cs w h) in
      elim (evaluate_rules-result zones fresh now e s f after ev w' ran) [
        | inl same ↦ inl (ap (λ x. x.error_code) same ∙ free)
        | inr (blocked, x, failed) ↦ inr (evaluation_of fresh now e s verdict, x, free, failed)
      ]
