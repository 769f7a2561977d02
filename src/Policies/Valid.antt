-- ===== src/Policies/Valid.antt =====
-- The rules that the administration stores, and what their evaluation can give:
-- apps/api/apps/policies/services.py.
use Prim.Native.Nat.{◌<◌}
use mathlib.Core.Path.{◌≡◌, refl, sym, subst}
use mathlib.Core.Logic.{inl, inr}
use native.Mathlib.Omega.{arith}
use mathlib.Core.Option.{Option, none, some}
use mathlib.Core.List.{List}
use runbook_platform.Prelude.Tests.{leb, ◌==◌, nat_eq, eq_iff, Bool-cases, Option-cases}
use runbook_platform.Prelude.Tables.{All, find_row}
use runbook_platform.Prelude.Keys.{
  HasKeys, update_row-HasKeys, append-HasKeys, All-append_one, All-update_row, All-find_row,
}
use runbook_platform.Audit.{AuditActor}
use runbook_platform.Store.{World}
use runbook_platform.Policies.Model.{Policy, policy_row, PolicyRule, policy_rule_row}
use runbook_platform.Policies.Conditions.{Zones, check_condition, check_outcome}
use runbook_platform.Policies.Admin.{or_kept, is_empty}
use runbook_platform.Policies.Rules.{
  RuleChanges, create_rule, update_rule, save_locked, save_rule, insert_new, apply_rule_changes,
  has_other, breaks_constraint, check_new_priority, check_new_name, check_new_condition,
  check_new_outcome, has_priority, has_name,
}

module _ (zones : Zones) where
  pub record ValidRule (r : PolicyRule) : Type 0 where
    pub positive : 0 < r.priority
    pub condition : check_condition zones r.condition_type r.condition_params ≡ none
    pub outcome : check_outcome r.outcome ≡ none

  -- The table has one row under each key, and every rule is a valid one.
  pub record ValidRules (rs : List PolicyRule) : Type 0 where
    pub keys : HasKeys rs
    pub valid : All ValidRule rs

  insert_new-ValidRules :
      (actor : Option AuditActor) (p : Policy) (r : PolicyRule) (w : World)
      → ValidRule r
      → ValidRules w.policy_rules
      → ValidRules (insert_new actor p r w).1.policy_rules
  unfolding insert_new
  insert_new-ValidRules actor p r w v h = elim (Option-cases (find_row r.id w.policy_rules)) [
    | inr (q, k) ↦ rw k h
    | inl k ↦ rw k (record {
      keys = append-HasKeys w.policy_rules r k h.keys;
      valid = All-append_one ValidRule w.policy_rules r v h.valid;
    })
  ]

  pub create_rule-ValidRules :
      (actor : Option AuditActor) (p : Policy) (r : PolicyRule) (w : World)
      → ValidRules w.policy_rules
      → ValidRules (create_rule zones actor p r w).1.policy_rules
  unfolding create_rule
  create_rule-ValidRules actor p r w h = elim (Bool-cases (leb r.priority 0)) [
    | inl a ↦ rw a h
    | inr a ↦
        rw a (elim (Option-cases (check_condition zones r.condition_type r.condition_params)) [
          | inr (x, b) ↦ rw b h
          | inl b ↦ rw b (elim (Option-cases (check_outcome r.outcome)) [
            | inr (x, c) ↦ rw c h
            | inl c ↦ rw c (elim (Bool-cases (has_other p.id none (has_priority r.priority) w)) [
              | inl d ↦ rw d h
              | inr d ↦ rw d (elim (Bool-cases (has_other p.id none (has_name r.name) w)) [
                | inl d' ↦ rw d' h
                | inr d' ↦ rw d' (
                    insert_new-ValidRules actor p (record r { policy_id = p.id }) w
                      (record { positive = ground (arith, a); condition = b; outcome = c }) h)
              ])
            ])
          ])
        ])
  ]

  -- The checks of an update on the row as it stands make the new row a valid rule.
  apply_rule_changes-ValidRule :
      (c : RuleChanges) (r : PolicyRule) (w : World)
      → check_new_priority c r w ≡ none
      → check_new_condition zones c r ≡ none
      → check_new_outcome zones c r ≡ none
      → ValidRule r
      → ValidRule (apply_rule_changes c r)
  unfolding check_new_priority check_new_condition check_new_outcome apply_rule_changes
  apply_rule_changes-ValidRule c r w a b d h = record {
    positive = elim (Bool-cases (or_kept c.priority r.priority == r.priority)) [
      | inl e ↦
          subst (λ n. 0 < n) (sym ((eq_iff (or_kept c.priority r.priority) r.priority).0 e))
            h.positive
      | inr e ↦ ground (arith, a, e)
    ];
    condition = elim (Option-cases c.condition_type) [
      | inr (t, e) ↦ ground (arith, b, e)
      | inl e ↦ elim (Option-cases c.condition_params) [
        | inr (t, f) ↦ ground (arith, b, f)
        | inl f ↦ rw (e, f) h.condition
      ]
    ];
    outcome = elim (Option-cases c.outcome) [
      | inr (o, e) ↦ ground (arith, d, e)
      | inl e ↦ rw e h.outcome
    ];
  }

  save_locked-ValidRules :
      (actor : Option AuditActor) (c : RuleChanges) (r : PolicyRule) (w : World)
      → find_row r.id w.policy_rules ≡ some r
      → ValidRule (apply_rule_changes c r)
      → ValidRules w.policy_rules
      → ValidRules (save_locked actor c (find_row r.id w.policy_rules) w).1.policy_rules
  unfolding save_locked save_rule
  save_locked-ValidRules actor c r w found v h =
      rw found (elim (Option-cases (find_row r.policy_id w.policies)) [
        | inl e ↦ rw e h
        | inr (p, e) ↦ rw e (elim (Bool-cases (breaks_constraint (apply_rule_changes c r) w)) [
          | inl b ↦ rw b h
          | inr b ↦ rw b (record {
            keys = update_row-HasKeys r.id (apply_rule_changes c) w.policy_rules (λ y. refl) h.keys;
            valid =
                All-update_row ValidRule r.id (apply_rule_changes c) w.policy_rules r h.keys found v
                  h.valid;
          })
        ])
      ])

  pub update_rule-ValidRules :
      (actor : Option AuditActor) (c : RuleChanges) (r : PolicyRule) (w : World)
      → find_row r.id w.policy_rules ≡ some r
      → ValidRules w.policy_rules
      → ValidRules (update_rule zones actor c r w).1.policy_rules
  unfolding update_rule
  update_rule-ValidRules actor c r w found h = elim (Bool-cases (is_empty c.unknown_fields)) [
    | inr a ↦ rw a h
    | inl a ↦ rw a (elim (Option-cases (check_new_priority c r w)) [
      | inr (x, b) ↦ rw b h
      | inl b ↦ rw b (elim (Option-cases (check_new_name c r w)) [
        | inr (x, d) ↦ rw d h
        | inl d ↦ rw d (elim (Option-cases (check_new_condition zones c r)) [
          | inr (x, f) ↦ rw f h
          | inl f ↦ rw f (elim (Option-cases (check_new_outcome zones c r)) [
            | inr (x, g) ↦ rw g h
            | inl g ↦ rw g (
                save_locked-ValidRules actor c r w found
                  (apply_rule_changes-ValidRule c r w b f g
                    (All-find_row ValidRule r.id w.policy_rules r found h.valid))
                  h)
          ])
        ])
      ])
    ])
  ]
