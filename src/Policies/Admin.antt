-- ===== src/Policies/Admin.antt =====
-- The administration of policies in apps/api/apps/policies/services.py. A call's keyword
-- arguments are options: `none` is a field that the call does not name.
use Prim.Native.Nat.{ℕ}
use Prim.Native.String.{String}
use mathlib.Core.Bool.{Bool, true, false, ◌&&◌, ◌||◌, not}
use mathlib.Core.Option.{Option, none, some}
use mathlib.Core.List.{List, [], ◌∷◌, ◌++◌}
use runbook_platform.Prelude.Tests.{◌==◌, nat_eq, string_eq, is_some, if◌then◌else◌}
use runbook_platform.Prelude.Tables.{any_row, find_row, update_row}
use runbook_platform.Prelude.Text.{id_text}
use runbook_platform.Prelude.Effects.{
  ok, err, domain_validation, domain_conflict, integrity_error, not_found,
}
use runbook_platform.Audit.{
  AuditActor, AuditEvent, Value, text, flag, texts, system_actor, actor_or,
}
use runbook_platform.Store.{World, Service, emit}
use runbook_platform.Policies.Model.{Policy, policy_row}

-- `changes.get(field, kept)`
abbrev pub or_kept {ℓ} : {A : Type ℓ} → Option A → A → A
or_kept none kept = kept
or_kept (some a) kept = a

abbrev pub named {ℓ} : {A : Type ℓ} → String → Option A → List String
named k none = []
named k (some a) = k ∷ []

-- `_emit_policy_audit`
policy_event : Option AuditActor → String → List (String × Value) → Policy → AuditEvent
policy_event actor event_type metadata p = record {
  organization_id = p.organization_id;
  actor = actor_or actor (system_actor "Policy service");
  event_type = event_type;
  object_type = "policy";
  object_id = p.id;
  metadata = metadata;
}

-- The name is taken by an active policy of the organization other than `except`.
unfoldable pub is_name_taken : ℕ → String → Option ℕ → World → Bool
is_name_taken organization_id name except w =
    any_row
      (λ (q : Policy). elim except [
        | none ↦ q.organization_id == organization_id && (q.name == name && q.is_active)
        | some k ↦
            (q.organization_id == organization_id && (q.name == name && q.is_active))
            && not (q.id == k)
      ])
      w.policies

write_created : Option AuditActor → Policy → World → World
unfolding policy_event
write_created actor p w =
    emit
      (policy_event actor "policy.created"
        (("policy_id", text (id_text p.id)) ∷ ("is_active", flag p.is_active) ∷ []) p)
      (record w { policies = w.policies ++ p ∷ [] })

-- `p` is the row that the arguments describe, under its new key; a key in use is refused by the
-- database.
unfoldable pub create_policy : Option AuditActor → Policy → Service Policy
unfolding write_created is_name_taken
create_policy actor p w =
    if p.is_active && is_name_taken p.organization_id p.name none w
    then (err (domain_conflict "duplicate_active_policy_name"), w)
    else if is_some (find_row p.id w.policies)
    then (err integrity_error, w)
    else (ok p, write_created actor p w)

pub record PolicyChanges : Type 0 where
  pub name : Option String
  pub description : Option String
  pub is_active : Option Bool
  pub updated_by_label : Option String
  pub unknown_fields : List String

abbrev changed_fields : PolicyChanges → List String
changed_fields c =
    named "description" c.description
    ++ (named "is_active" c.is_active
        ++ (named "name" c.name ++ named "updated_by_label" c.updated_by_label))

unfoldable pub apply_changes : PolicyChanges → Policy → Policy
apply_changes c p = record p {
  name = or_kept c.name p.name;
  description = or_kept c.description p.description;
  is_active = or_kept c.is_active p.is_active;
  updated_by_label = or_kept c.updated_by_label p.updated_by_label;
}

abbrev pub is_empty {ℓ} : {A : Type ℓ} → List A → Bool
is_empty [] = true
is_empty (x ∷ xs) = false

-- Reactivating, or renaming while active, to a name that is taken.
unfoldable pub is_clash : PolicyChanges → Policy → World → Bool
unfolding is_name_taken
is_clash c p w =
    let name = or_kept c.name p.name in
    (or_kept c.is_active p.is_active && (not (name == p.name) || not p.is_active))
    && is_name_taken p.organization_id name (some p.id) w

write_updated : Option AuditActor → PolicyChanges → Policy → World → World
unfolding policy_event apply_changes
write_updated actor c locked w =
    let updated = apply_changes c locked in
    emit
      (policy_event actor
        (if locked.is_active && not updated.is_active
          then "policy.deactivated"
          else "policy.updated")
        (("policy_id", text (id_text locked.id))
          ∷ ("changed_fields", texts (changed_fields c))
          ∷ ("previous_is_active", flag locked.is_active)
          ∷ ("new_is_active", flag updated.is_active)
          ∷ [])
        updated)
      (record w { policies = update_row locked.id (apply_changes c) w.policies })

update_locked : Option AuditActor → PolicyChanges → Option Policy → Service Policy
unfolding write_updated apply_changes
update_locked actor c none w = (err not_found, w)
update_locked actor c (some locked) w =
    (ok (apply_changes c locked), write_updated actor c locked w)

-- `p` is the caller's copy of the row, by which the name is checked.
unfoldable pub update_policy : Option AuditActor → PolicyChanges → Policy → Service Policy
unfolding update_locked is_clash
update_policy actor c p w =
    if not (is_empty c.unknown_fields)
    then (err (domain_validation "invalid_policy_fields"), w)
    else if is_clash c p w
    then (err (domain_conflict "duplicate_active_policy_name"), w)
    else update_locked actor c (find_row p.id w.policies) w
