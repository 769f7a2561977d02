-- ===== src/Scenarios/Policies.antt =====
-- Policies of apps/api/apps/policies on which the theorems are applied.
use runbook_platform.Prelude.Results.{◌>>=◌, ◌>>◌}
use runbook_platform.Prelude.Json.{lookup_field, Json, Fields}
use runbook_platform.Policies.Conditions.{
  check_enum, matches, matches_enum, Zones, ZoneLookup, Facts, check_condition, check_outcome,
}
use runbook_platform.Prelude.Sorting.{insert_by, sort_by}
use runbook_platform.Prelude.Tables.{select, find_row, find_where, any_row, update_row}
use runbook_platform.Policies.Evaluation.{
  create_evaluation, link_policy_evaluation, apply_floor, active_rules,
}
use runbook_platform.Policies.Context.{build_context, dict_or_empty}
use mathlib.Core.Path.{◌≡◌, refl}
use mathlib.Core.Logic.{◌⊎◌}
use mathlib.Core.Bool.{true}
use mathlib.Core.Option.{none, some}
use mathlib.Core.List.{List, [], ◌∷◌}
use runbook_platform.Prelude.Keys.{HasKeys}
use native.Mathlib.Omega.{arith}
use runbook_platform.Prelude.Effects.{ok, err, Error, domain_validation}
use runbook_platform.Store.{World, empty_world}
use runbook_platform.Changes.Dispatch.{binding_of}
use runbook_platform.Executions.Model.{ExecutionStep}
use runbook_platform.Scenarios.Executions.{running_execution, running_step, finished_step}
use runbook_platform.Policies.Model.{
  Policy, policy_row, PolicyRule, policy_rule_row, ConditionType, Outcome, DecisionSource,
  PolicyEvaluation,
}
use runbook_platform.Policies.Steps.{evaluate_step_policy}
use runbook_platform.Policies.Decisions.{
  Evaluated, evaluate_step_policy-Evaluated, evaluate_step_policy-rollback,
}
use runbook_platform.Policies.Admin.{PolicyChanges}
use runbook_platform.Policies.Unique.{
  UniqueActive, PolicyCall, after_calls, after_calls-UniqueActive,
}
use runbook_platform.Policies.Follows.{ByRule, ByDefault, evaluate_step_policy-follows}
use runbook_platform.Policies.Rules.{
  deactivation, create_rule, update_rule, has_other, check_new_priority, check_new_name,
  check_new_condition, check_new_outcome, save_locked, save_rule, insert_new, apply_rule_changes,
  breaks_constraint,
}
use runbook_platform.Policies.Valid.{ValidRules}
use runbook_platform.Policies.Sound.{
  RuleCall, after_rule_calls, after_rule_calls-ValidRules, after_rule_calls-evaluate,
}

-- One zone in which it is always Monday noon.
abbrev noon : Zones
noon = record {
  zone_info = λ name. ZoneLookup.known;
  local_day = λ name at. "mon";
  local_time = λ name at. "12:00";
}

abbrev night_policy : Policy
night_policy = record {
  id = 60;
  organization_id = 10;
  name = "Night";
  description = "";
  is_active = true;
  created_by_label = "";
  updated_by_label = "";
  created_at = 10;
}

abbrev low_risk : Fields
low_risk =
    Fields.field "operator" (Json.str "equals") (Fields.field "value" (Json.str "low") Fields.end)

abbrev trust_low_risk : PolicyRule
trust_low_risk = record {
  id = 61;
  policy_id = 60;
  name = "Low risk";
  description = "";
  is_active = true;
  priority = 5;
  condition_type = ConditionType.risk_level;
  condition_params = low_risk;
  outcome = Outcome.auto_approve;
  reason = "Low risk.";
}

abbrev block_commands : PolicyRule
block_commands = record trust_low_risk {
  id = 62;
  name = "Commands";
  priority = 2;
  condition_type = ConditionType.step_type;
  condition_params =
      Fields.field "operator" (Json.str "equals")
        (Fields.field "value" (Json.str "command") Fields.end);
  outcome = Outcome.block;
  reason = "No commands.";
}

abbrev approval_step : ExecutionStep
approval_step = record running_step { requires_approval = true }

abbrev policy_world : World
policy_world = record empty_world {
  policies = night_policy ∷ [];
  policy_rules = trust_low_risk ∷ [];
}

-- The rule approves, but the step requires approval.
abbrev given : PolicyEvaluation
given = record {
  id = 70;
  organization_id = 10;
  execution_id = 1;
  step_id = 3;
  policy_id = some 60;
  rule_id = some 61;
  matched = true;
  outcome = Outcome.auto_approve;
  effective_outcome = Outcome.approval_required;
  decision_source = DecisionSource.policy_rule;
  reason = "Low risk.";
  error_code = "";
  evaluated_at = 200;
}

abbrev evaluated_world : World
evaluated_world = (evaluate_step_policy noon 70 200 running_execution approval_step policy_world).1

returned :
    evaluate_step_policy noon 70 200 running_execution approval_step policy_world
    ≡ (ok given, evaluated_world)
unfolding evaluate_step_policy build_context dict_or_empty lookup_field link_policy_evaluation
    binding_of find_where sort_by active_rules select insert_by check_condition check_enum matches
    matches_enum apply_floor ◌>>=◌ ◌>>◌
returned = refl

evaluate_step_policy-Evaluated_example :
    Evaluated running_execution approval_step policy_world given evaluated_world
evaluate_step_policy-Evaluated_example =
    evaluate_step_policy-Evaluated running_execution approval_step policy_world noon 70 200 given
      evaluated_world returned

refused :
    evaluate_step_policy noon 70 200 running_execution finished_step policy_world
    ≡ (err (domain_validation "step_execution_mismatch"), policy_world)
unfolding evaluate_step_policy
refused = refl

evaluate_step_policy-rollback_example : policy_world ≡ policy_world
evaluate_step_policy-rollback_example =
    evaluate_step_policy-rollback running_execution finished_step policy_world noon 70 200
      (domain_validation "step_execution_mismatch") policy_world refused

abbrev step_facts : Facts
step_facts = record {
  risk_level = Json.str "low";
  step_type = Json.str "command";
  action_type = Json.str "";
  action_version = Json.str "";
  execution_mode = Json.str "live";
  idempotency_mode = Json.str "";
  mutates_target = Json.str "";
  evaluated_at = 200;
}

evaluate_step_policy-follows_example :
    (f : Facts) × (build_context running_execution approval_step 200 ≡ ok f)
    × (ByRule noon 70 200 running_execution approval_step f policy_world given
        ⊎ ByDefault noon 70 200 running_execution approval_step f policy_world given)
evaluate_step_policy-follows_example =
    evaluate_step_policy-follows noon 70 200 running_execution approval_step policy_world given
      evaluated_world returned refl

no_policies-UniqueActive : UniqueActive empty_world.policies
unfolding find_row
no_policies-UniqueActive = record {
  unique = λ i j p q found other active_p active_q org name. absurd (ground (arith, found));
}

abbrev rename_to_night : PolicyChanges
rename_to_night = record {
  name = some "Night";
  description = none;
  is_active = none;
  updated_by_label = none;
  unknown_fields = [];
}

-- The second policy is refused the first one's name.
abbrev naming : List PolicyCall
naming =
    PolicyCall.create none night_policy
    ∷ PolicyCall.create none (record night_policy { id = 63; name = "Day" })
    ∷ PolicyCall.update none rename_to_night 63
    ∷ []

after_calls-UniqueActive_example : UniqueActive (after_calls naming empty_world).policies
after_calls-UniqueActive_example =
    after_calls-UniqueActive naming empty_world no_policies-UniqueActive

stored-ValidRules : ValidRules noon policy_world.policy_rules
unfolding HasKeys find_row check_condition check_outcome check_enum lookup_field
stored-ValidRules = record {
  keys = (refl, tt);
  valid = (record { positive = omega arith; condition = refl; outcome = refl }, tt);
}

abbrev ruling : List RuleCall
ruling =
    RuleCall.create none night_policy trust_low_risk
    ∷ RuleCall.create none night_policy block_commands
    ∷ RuleCall.update none deactivation 62
    ∷ []

after_rule_calls-ValidRules_example :
    ValidRules noon (after_rule_calls noon ruling policy_world).policy_rules
after_rule_calls-ValidRules_example =
    after_rule_calls-ValidRules noon ruling policy_world stored-ValidRules

abbrev ruled_world : World
ruled_world = after_rule_calls noon ruling policy_world

abbrev ruled_evaluation : World
ruled_evaluation = (evaluate_step_policy noon 70 200 running_execution approval_step ruled_world).1

returned_after :
    evaluate_step_policy noon 70 200 running_execution approval_step ruled_world
    ≡ (ok given, ruled_evaluation)
unfolding evaluate_step_policy build_context dict_or_empty lookup_field link_policy_evaluation
    binding_of find_where sort_by active_rules select insert_by check_condition check_enum matches
    matches_enum apply_floor ◌>>=◌ ◌>>◌ after_rule_calls create_rule update_rule has_other
    check_new_priority check_new_name check_new_condition check_new_outcome save_locked save_rule
    insert_new any_row find_row update_row apply_rule_changes check_outcome breaks_constraint
returned_after = refl

after_rule_calls-evaluate_example :
    (given.error_code ≡ "")
    ⊎ ((first : PolicyEvaluation) × (x : Error) × (first.error_code ≡ "")
        × ((create_evaluation running_execution first ruled_world).0 ≡ err x))
after_rule_calls-evaluate_example =
    after_rule_calls-evaluate noon ruling policy_world 70 200 running_execution approval_step given
      ruled_evaluation stored-ValidRules returned_after
