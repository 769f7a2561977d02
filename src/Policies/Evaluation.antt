-- ===== src/Policies/Evaluation.antt =====
-- `evaluate_step_policy` of apps/api/apps/policies/services.py.
use Prim.Native.Nat.{ℕ}
use Prim.Native.String.{String}
use mathlib.Core.Bool.{Bool, true, false, ◌&&◌, ◌||◌}
use mathlib.Core.Option.{Option, none, some}
use mathlib.Core.List.{List, [], ◌∷◌, ◌++◌}
use runbook_platform.Prelude.Tests.{ltb, leb, ◌==◌, nat_eq, is_some, if◌then◌else◌}
use runbook_platform.Prelude.Tables.{find_row, select, update_row}
use runbook_platform.Prelude.Text.{id_text}
use runbook_platform.Prelude.Effects.{
  ok, err, Error, domain_validation, not_found, ◌>>◌, pure, atomic, modify,
}
use runbook_platform.Audit.{AuditEvent, text, flag, system_actor}
use runbook_platform.Store.{World, Service, emit}
use runbook_platform.Changes.Model.{ChangeRecord, change_row}
use runbook_platform.Changes.Dispatch.{binding_of}
use runbook_platform.Executions.Model.{Execution, ExecutionStep}
use runbook_platform.Policies.Model.{Policy, PolicyRule, Outcome, PolicyEvaluation}

-- A rule with its policy.
abbrev pub Candidate : Type 0
Candidate = Policy × PolicyRule

-- `policy.rules.all()`, the active ones.
unfoldable pub rules_of : Policy → List PolicyRule → List Candidate
rules_of p [] = []
rules_of p (r ∷ rs) =
    let rest = rules_of p rs in if r.policy_id == p.id && r.is_active then (p, r) ∷ rest else rest

unfoldable pub collect : List PolicyRule → List Policy → List Candidate
unfolding rules_of
collect rs [] = []
collect rs (p ∷ ps) = rules_of p rs ++ collect rs ps

-- The active rules of the organization's active policies.
unfoldable pub active_rules : ℕ → World → List Candidate
unfolding collect
active_rules organization_id w =
    collect w.policy_rules
      (select (λ (p : Policy). p.organization_id == organization_id && p.is_active) w.policies)

-- `(priority, policy.created_at, policy.id, rule.id)`, compared as tuples: `a` is not after `b`.
unfoldable pub precedes : Candidate → Candidate → Bool
precedes (p, r) (q, s) =
    ltb r.priority s.priority
    || (r.priority == s.priority
        && (ltb p.created_at q.created_at
            || (p.created_at == q.created_at
                && (ltb p.id q.id || (p.id == q.id && leb r.id s.id)))))

-- What the loop finds: the rule that decides, a rule that cannot be evaluated, an error that is no
-- validation error, or no rule.
pub data Verdict : Type 0 where
  decided : Candidate → Verdict
  invalid : Candidate → Verdict
  broken undecided : Verdict

abbrev pub judge_params : Candidate → Option Error → Bool → Option Verdict
judge_params c none true = some (decided c)
judge_params c none false = none
judge_params c (some (domain_validation code)) m = some (invalid c)
judge_params c (some _) m = some broken

abbrev pub or_rest : Option Verdict → Verdict → Verdict
or_rest none rest = rest
or_rest (some v) rest = v

-- `_apply_requires_approval_floor`
unfoldable pub apply_floor : Outcome → ExecutionStep → Outcome
apply_floor Outcome.auto_approve s =
    if s.requires_approval then Outcome.approval_required else Outcome.auto_approve
apply_floor o s = o

abbrev pub outcome_value : Outcome → String
outcome_value Outcome.approval_required = "approval_required"
outcome_value Outcome.auto_approve = "auto_approve"
outcome_value Outcome.block = "block"
outcome_value (Outcome.other s) = s

abbrev link_change : PolicyEvaluation → ChangeRecord → World → World
link_change ev c w =
    emit
      (record {
        organization_id = c.organization_id;
        actor = system_actor "Change service";
        event_type = "change.policy_bound";
        object_type = "change_record";
        object_id = c.id;
        metadata =
            ("policy_evaluation_id", text (id_text ev.id))
            ∷ ("outcome", text (outcome_value ev.outcome))
            ∷ ("effective_outcome", text (outcome_value ev.effective_outcome))
            ∷ [];
      })
      (record w {
        changes =
            update_row c.id (λ (d : ChangeRecord). record d { policy_evaluation_id = some ev.id })
              w.changes;
      })

abbrev link_found : PolicyEvaluation → Option ChangeRecord → Service (Unit {0})
link_found ev none w = (err not_found, w)
link_found ev (some c) w = (ok tt, if is_some c.policy_evaluation_id then w else link_change ev c w)

-- `link_policy_evaluation` of apps/api/apps/changes/services.py: the first evaluation is kept.
unfoldable pub link_policy_evaluation : Execution → PolicyEvaluation → Service (Unit {0})
link_policy_evaluation e ev w = elim (binding_of e.id w) [
  | none ↦ (ok tt, w)
  | some b ↦ link_found ev (find_row b.change_record_id w.changes) w
]

evaluated_event : PolicyEvaluation → AuditEvent
evaluated_event ev = record {
  organization_id = ev.organization_id;
  actor = system_actor "Django system";
  event_type = "policy.evaluated";
  object_type = "policy_evaluation";
  object_id = ev.id;
  metadata =
      ("execution_id", text (id_text ev.execution_id))
      ∷ ("step_id", text (id_text ev.step_id))
      ∷ ("matched", flag ev.matched)
      ∷ ("outcome", text (outcome_value ev.outcome))
      ∷ ("effective_outcome", text (outcome_value ev.effective_outcome))
      ∷ ("error_code", text ev.error_code)
      ∷ [];
}

-- `_create_policy_evaluation_with_audit`
unfoldable pub create_evaluation : Execution → PolicyEvaluation → Service PolicyEvaluation
unfolding evaluated_event
create_evaluation e ev = atomic (do
  modify (λ (w : World). record w { policy_evaluations = w.policy_evaluations ++ ev ∷ [] })
  link_policy_evaluation e ev
  modify (emit (evaluated_event ev))
  pure ev)
