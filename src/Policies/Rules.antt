-- ===== src/Policies/Rules.antt =====
-- The administration of policy rules in apps/api/apps/policies/services.py, with the unique
-- constraints of apps/api/apps/policies/models.py, which the database checks at a save.
use Prim.Native.Nat.{ℕ}
use Prim.Native.String.{String}
use mathlib.Core.Bool.{Bool, false, ◌&&◌, ◌||◌, not}
use mathlib.Core.Option.{Option, none, some}
use mathlib.Core.List.{List, [], ◌∷◌, ◌++◌}
use runbook_platform.Prelude.Tests.{leb, ◌==◌, nat_eq, string_eq, is_some, if◌then◌else◌}
use runbook_platform.Prelude.Tables.{any_row, find_row, update_row}
use runbook_platform.Prelude.Text.{id_text}
use runbook_platform.Prelude.Json.{Fields}
use runbook_platform.Prelude.Effects.{
  ok, err, Error, domain_validation, domain_conflict, integrity_error, not_found, ◌>>◌, guard,
  raise_if,
}
use runbook_platform.Audit.{
  AuditActor, AuditEvent, Value, text, flag, number, texts, system_actor, actor_or,
}
use runbook_platform.Store.{World, Service, emit}
use runbook_platform.Policies.Model.{
  Policy, policy_row, PolicyRule, policy_rule_row, ConditionType, Outcome,
}
use runbook_platform.Policies.Conditions.{Zones, check_condition, check_outcome}
use runbook_platform.Policies.Evaluation.{outcome_value}
use runbook_platform.Policies.Admin.{or_kept, is_empty, named}

abbrev condition_value : ConditionType → String
condition_value ConditionType.risk_level = "risk_level"
condition_value ConditionType.step_type = "step_type"
condition_value ConditionType.time_window = "time_window"
condition_value ConditionType.action_type = "action_type"
condition_value ConditionType.action_version = "action_version"
condition_value ConditionType.execution_mode = "execution_mode"
condition_value ConditionType.idempotency_mode = "idempotency_mode"
condition_value ConditionType.mutates_target = "mutates_target"
condition_value (ConditionType.other s) = s

-- `_emit_policy_rule_audit`
rule_event : Option AuditActor → String → List (String × Value) → ℕ → PolicyRule → AuditEvent
rule_event actor event_type metadata organization_id r = record {
  organization_id = organization_id;
  actor = actor_or actor (system_actor "Policy service");
  event_type = event_type;
  object_type = "policy_rule";
  object_id = r.id;
  metadata = metadata;
}

-- A rule of the policy other than `except` that passes the test.
unfoldable pub has_other : ℕ → Option ℕ → (PolicyRule → Bool) → World → Bool
has_other policy_id except test w =
    any_row
      (λ (r : PolicyRule). elim except [
        | none ↦ r.policy_id == policy_id && test r
        | some k ↦ (r.policy_id == policy_id && test r) && not (r.id == k)
      ])
      w.policy_rules

abbrev pub has_priority : ℕ → PolicyRule → Bool
has_priority n r = r.priority == n

abbrev pub has_name : String → PolicyRule → Bool
has_name s r = r.name == s

created_event : Option AuditActor → Policy → PolicyRule → AuditEvent
unfolding rule_event
created_event actor p r =
    rule_event actor "policy_rule.created"
      (("policy_id", text (id_text p.id))
        ∷ ("rule_id", text (id_text r.id))
        ∷ ("condition_type", text (condition_value r.condition_type))
        ∷ ("outcome", text (outcome_value r.outcome))
        ∷ ("priority", number r.priority)
        ∷ ("is_active", flag r.is_active)
        ∷ [])
      p.organization_id r

unfoldable pub insert_new : Option AuditActor → Policy → PolicyRule → Service PolicyRule
unfolding created_event
insert_new actor p r w =
    if is_some (find_row r.id w.policy_rules) then (err integrity_error, w) else (
      ok r,
      emit (created_event actor p r) (record w { policy_rules = w.policy_rules ++ r ∷ [] }),
    )

pub record RuleChanges : Type 0 where
  pub name : Option String
  pub description : Option String
  pub is_active : Option Bool
  pub priority : Option ℕ
  pub condition_type : Option ConditionType
  pub condition_params : Option Fields
  pub outcome : Option Outcome
  pub reason : Option String
  pub unknown_fields : List String

abbrev changed_fields : RuleChanges → List String
changed_fields c =
    named "condition_params" c.condition_params
    ++ (named "condition_type" c.condition_type
        ++ (named "description" c.description
            ++ (named "is_active" c.is_active
                ++ (named "name" c.name
                    ++ (named "outcome" c.outcome
                        ++ (named "priority" c.priority ++ named "reason" c.reason))))))

unfoldable pub apply_rule_changes : RuleChanges → PolicyRule → PolicyRule
apply_rule_changes c r = record r {
  name = or_kept c.name r.name;
  description = or_kept c.description r.description;
  is_active = or_kept c.is_active r.is_active;
  priority = or_kept c.priority r.priority;
  condition_type = or_kept c.condition_type r.condition_type;
  condition_params = or_kept c.condition_params r.condition_params;
  outcome = or_kept c.outcome r.outcome;
  reason = or_kept c.reason r.reason;
}

unfoldable pub check_new_priority : RuleChanges → PolicyRule → World → Option Error
unfolding has_other
check_new_priority c r w =
    let new = or_kept c.priority r.priority in
    if new == r.priority
    then none
    else if leb new 0
    then some (domain_validation "invalid_rule_priority")
    else if has_other r.policy_id (some r.id) (has_priority new) w
    then some (domain_conflict "duplicate_rule_priority")
    else none

unfoldable pub check_new_name : RuleChanges → PolicyRule → World → Option Error
unfolding has_other
check_new_name c r w =
    let new = or_kept c.name r.name in
    if not (new == r.name) && has_other r.policy_id (some r.id) (has_name new) w
    then some (domain_conflict "duplicate_rule_name")
    else none

-- The unique constraints on (policy, priority) and (policy, name).
unfoldable pub breaks_constraint : PolicyRule → World → Bool
unfolding has_other
breaks_constraint r w =
    has_other r.policy_id (some r.id) (has_priority r.priority) w
    || has_other r.policy_id (some r.id) (has_name r.name) w

updated_event : Option AuditActor → RuleChanges → PolicyRule → Policy → AuditEvent
unfolding rule_event apply_rule_changes
updated_event actor c locked p =
    let updated = apply_rule_changes c locked in
    rule_event actor
      (if locked.is_active && not updated.is_active
        then "policy_rule.deactivated"
        else "policy_rule.updated")
      (("policy_id", text (id_text updated.policy_id))
        ∷ ("rule_id", text (id_text updated.id))
        ∷ ("changed_fields", texts (changed_fields c))
        ∷ ("previous_is_active", flag locked.is_active)
        ∷ ("new_is_active", flag updated.is_active)
        ∷ [])
      p.organization_id updated

unfoldable pub save_rule :
    Option AuditActor → RuleChanges → PolicyRule → Option Policy → Service PolicyRule
unfolding updated_event apply_rule_changes breaks_constraint
save_rule actor c locked none w = (err not_found, w)
save_rule actor c locked (some p) w =
    let updated = apply_rule_changes c locked in
    if breaks_constraint updated w then (err integrity_error, w) else (
      ok updated,
      emit (updated_event actor c locked p)
          (record w { policy_rules = update_row locked.id (apply_rule_changes c) w.policy_rules }),
    )

unfoldable pub save_locked :
    Option AuditActor → RuleChanges → Option PolicyRule → Service PolicyRule
unfolding save_rule
save_locked actor c none w = (err not_found, w)
save_locked actor c (some locked) w =
    save_rule actor c locked (find_row locked.policy_id w.policies) w

abbrev pub deactivation : RuleChanges
deactivation = record {
  name = none;
  description = none;
  is_active = some false;
  priority = none;
  condition_type = none;
  condition_params = none;
  outcome = none;
  reason = none;
  unknown_fields = [];
}

module _ (zones : Zones) where
  -- `r` is the row that the arguments describe, under its new key.
  unfoldable pub create_rule : Option AuditActor → Policy → PolicyRule → Service PolicyRule
  unfolding insert_new has_other
  create_rule actor p r = do
    guard (not (leb r.priority 0)) (domain_validation "invalid_rule_priority")
    raise_if (check_condition zones r.condition_type r.condition_params)
    raise_if (check_outcome r.outcome)
    λ w.
        guard (not (has_other p.id none (has_priority r.priority) w))
          (domain_conflict "duplicate_rule_priority") w
    λ w.
        guard (not (has_other p.id none (has_name r.name) w))
          (domain_conflict "duplicate_rule_name") w
    insert_new actor p (record r { policy_id = p.id })

  unfoldable pub check_new_condition : RuleChanges → PolicyRule → Option Error
  check_new_condition c r =
      if is_some c.condition_type || is_some c.condition_params
      then check_condition zones (or_kept c.condition_type r.condition_type)
          (or_kept c.condition_params r.condition_params)
      else none

  unfoldable pub check_new_outcome : RuleChanges → PolicyRule → Option Error
  check_new_outcome c r =
      if is_some c.outcome then check_outcome (or_kept c.outcome r.outcome) else none

  -- `r` is the caller's copy of the row, by which the changes are checked.
  unfoldable pub update_rule : Option AuditActor → RuleChanges → PolicyRule → Service PolicyRule
  unfolding save_locked check_new_priority check_new_name check_new_condition check_new_outcome
  update_rule actor c r = do
    guard (is_empty c.unknown_fields) (domain_validation "invalid_rule_fields")
    λ w. raise_if (check_new_priority c r w) w
    λ w. raise_if (check_new_name c r w) w
    raise_if (check_new_condition c r)
    raise_if (check_new_outcome c r)
    λ w. save_locked actor c (find_row r.id w.policy_rules) w

  unfoldable pub deactivate_rule : Option AuditActor → PolicyRule → Service PolicyRule
  unfolding update_rule
  deactivate_rule actor r = update_rule actor deactivation r
