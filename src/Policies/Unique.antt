-- ===== src/Policies/Unique.antt =====
-- The names of active policies: apps/api/apps/policies/services.py.
use Prim.Native.Nat.{ℕ}
use Prim.Native.String.{String}
use mathlib.Core.Path.{◌≡◌, refl, sym, ap, ◌∙◌}
use mathlib.Core.Logic.{◌⊎◌, inl, inr}
use native.Mathlib.Omega.{arith}
use mathlib.Core.Bool.{true, false, ◌&&◌, ◌||◌, not}
use mathlib.Core.Option.{Option, none, some}
use mathlib.Core.List.{List, [], ◌∷◌, ◌++◌}
use runbook_platform.Prelude.Tests.{
  ◌==◌, nat_eq, string_eq, eq_iff, Bool-cases, Option-cases, if◌then◌else◌,
}
use runbook_platform.Prelude.Tables.{
  find_row, update_row, find_row-update_row_put, find_row-append_fresh, any_row-find_row,
  find_row_key,
}
use runbook_platform.Audit.{AuditActor}
use runbook_platform.Store.{World}
use runbook_platform.Policies.Model.{Policy, policy_row}
use runbook_platform.Policies.Admin.{
  PolicyChanges, create_policy, update_policy, is_name_taken, is_clash, apply_changes, or_kept,
  is_empty,
}

-- Two active policies of an organization with the same name are the same policy.
pub record UniqueActive (ps : List Policy) : Type 0 where
  pub unique :
      (i j : ℕ) (p q : Policy)
      → find_row i ps ≡ some p
      → find_row j ps ≡ some q
      → p.is_active ≡ true
      → q.is_active ≡ true
      → p.organization_id ≡ q.organization_id
      → p.name ≡ q.name
      → i ≡ j

-- An administration call. An update is made on the row as it stands.
pub data PolicyCall : Type 0 where
  create : Option AuditActor → Policy → PolicyCall
  update : Option AuditActor → PolicyChanges → ℕ → PolicyCall

abbrev pub update_found : Option AuditActor → PolicyChanges → Option Policy → World → World
update_found actor c none w = w
update_found actor c (some p) w = (update_policy actor c p w).1

abbrev pub after_call : PolicyCall → World → World
after_call (create actor p) w = (create_policy actor p w).1
after_call (update actor c k) w = update_found actor c (find_row k w.policies) w

pub after_calls : List PolicyCall → World → World
after_calls [] w = w
after_calls (c ∷ cs) w = after_calls cs (after_call c w)

-- No row but `k` is an active one with the organization and the name of `x`.
record Apart (k : ℕ) (x : Policy) (ps : List Policy) : Type 0 where
  pub apart :
      (j : ℕ) (q : Policy)
      → (k ≡ j → ⊥)
      → find_row j ps ≡ some q
      → x.is_active ≡ true
      → q.is_active ≡ true
      → x.organization_id ≡ q.organization_id
      → x.name ≡ q.name
      → ⊥

-- The row that is found under `j` once `x` stands under `k`.
find_row-put :
    (k j : ℕ) (x p : Policy) (ps qs : List Policy)
    → find_row j qs ≡ (if k == j then some x else find_row j ps)
    → find_row j qs ≡ some p
    → (k ≡ j × x ≡ p) ⊎ ((k ≡ j → ⊥) × find_row j ps ≡ some p)
find_row-put k j x p ps qs puts found = elim (Bool-cases (k == j)) [
  | inl e ↦ inl ((eq_iff k j).0 e, ground (arith, puts, found, e))
  | inr e ↦ inr (λ same. ground (arith, e, same), ground (arith, puts, found, e))
]

UniqueActive-put :
    (k : ℕ) (x : Policy) (ps qs : List Policy)
    → ((j : ℕ) → find_row j qs ≡ (if k == j then some x else find_row j ps))
    → Apart k x ps
    → UniqueActive ps
    → UniqueActive qs
UniqueActive-put k x ps qs puts away h = record {
  unique = λ i j p q fi fj active_p active_q org name.
      elim (find_row-put k i x p ps qs (puts i) fi) [
        | inl (a, e) ↦ elim (find_row-put k j x q ps qs (puts j) fj) [
          | inl (b, d) ↦ sym a ∙ b
          | inr (b, d) ↦ absurd (
              away.apart j q b d (ap (λ r. r.is_active) e ∙ active_p) active_q
                (ap (λ r. r.organization_id) e ∙ org) (ap (λ r. r.name) e ∙ name))
        ]
        | inr (a, e) ↦ elim (find_row-put k j x q ps qs (puts j) fj) [
          | inl (b, d) ↦ absurd (
              away.apart i p a e (ap (λ r. r.is_active) d ∙ active_q) active_p
                (ap (λ r. r.organization_id) d ∙ sym org) (ap (λ r. r.name) d ∙ sym name))
          | inr (b, d) ↦ h.unique i j p q e d active_p active_q org name
        ]
      ];
}

-- A name that is free apart from the row `except` is held by no other active row.
is_name_taken-free :
    (organization_id : ℕ) (name : String) (k : ℕ) (w : World) (j : ℕ) (q : Policy)
    → is_name_taken organization_id name (some k) w ≡ false
    → find_row j w.policies ≡ some q
    → (k ≡ j → ⊥)
    → q.is_active ≡ true
    → organization_id ≡ q.organization_id
    → name ≡ q.name
    → ⊥
unfolding is_name_taken
is_name_taken-free organization_id name k w j q free found other active org same =
    let key = find_row_key j w.policies q found in
    let t = any_row-find_row _ j w.policies q free found in
    ground (arith, t, key, (eq_iff q.name name).1 (sym same))

is_name_taken-unused :
    (organization_id : ℕ) (name : String) (w : World) (j : ℕ) (q : Policy)
    → is_name_taken organization_id name none w ≡ false
    → find_row j w.policies ≡ some q
    → q.is_active ≡ true
    → organization_id ≡ q.organization_id
    → name ≡ q.name
    → ⊥
unfolding is_name_taken
is_name_taken-unused organization_id name w j q free found active org same =
    let t = any_row-find_row _ j w.policies q free found in
    ground (arith, t, (eq_iff q.name name).1 (sym same))

create_policy-UniqueActive :
    (actor : Option AuditActor) (p : Policy) (w : World)
    → UniqueActive w.policies
    → UniqueActive (create_policy actor p w).1.policies
unfolding create_policy
create_policy-UniqueActive actor p w h =
    elim (Bool-cases (p.is_active && is_name_taken p.organization_id p.name none w)) [
      | inl e ↦ rw e h
      | inr e ↦ rw e (elim (Option-cases (find_row p.id w.policies)) [
        | inr (q, k) ↦ rw k h
        | inl k ↦ rw k (
            UniqueActive-put p.id p w.policies (w.policies ++ p ∷ [])
              (λ j. find_row-append_fresh j w.policies p k)
              (record {
                apart = λ j q other found active_p active_q org name.
                    is_name_taken-unused p.organization_id p.name w j q
                      (ground (arith, e, active_p)) found active_q org name;
              })
              h)
      ])
    ]

update_policy-Apart :
    (c : PolicyChanges) (p : Policy) (w : World)
    → find_row p.id w.policies ≡ some p
    → is_clash c p w ≡ false
    → UniqueActive w.policies
    → Apart p.id (apply_changes c p) w.policies
unfolding is_clash apply_changes
update_policy-Apart c p w found clash h = record {
  apart = λ j q other row active_x active_q org name.
      elim (Bool-cases (not (or_kept c.name p.name == p.name) || not p.is_active)) [
        | inl e ↦
            is_name_taken-free p.organization_id (or_kept c.name p.name) p.id w j q
              (ground (arith, clash, active_x, e)) row other active_q org name
        | inr e ↦ other (
            h.unique p.id j p q found row (ground (arith, e)) active_q org
              (sym ((eq_iff (or_kept c.name p.name) p.name).0 (ground (arith, e))) ∙ name))
      ];
}

update_policy-UniqueActive :
    (actor : Option AuditActor) (c : PolicyChanges) (p : Policy) (w : World)
    → find_row p.id w.policies ≡ some p
    → UniqueActive w.policies
    → UniqueActive (update_policy actor c p w).1.policies
unfolding update_policy
update_policy-UniqueActive actor c p w found h =
    elim (Bool-cases (not (is_empty c.unknown_fields))) [
      | inl e ↦ rw e h
      | inr e ↦ rw e (elim (Bool-cases (is_clash c p w)) [
        | inl k ↦ rw k h
        | inr k ↦
            rw (k, found)
              (UniqueActive-put p.id (apply_changes c p) w.policies
                (update_row p.id (apply_changes c) w.policies)
                (λ j.
                  find_row-update_row_put j p.id (apply_changes c) w.policies p (λ y. refl) found)
                (update_policy-Apart c p w found k h) h)
      ])
    ]

after_call-UniqueActive :
    (c : PolicyCall) (w : World) → UniqueActive w.policies → UniqueActive (after_call c w).policies
after_call-UniqueActive (create actor p) w h = create_policy-UniqueActive actor p w h
after_call-UniqueActive (update actor c k) w h = elim (Option-cases (find_row k w.policies)) [
  | inl e ↦ rw e h
  | inr (p, e) ↦ rw e (
      update_policy-UniqueActive actor c p w
        (ap (λ i. find_row i w.policies) (find_row_key k w.policies p e) ∙ e) h)
]

-- Whatever calls create, rename, activate and deactivate policies, one at a time and each update
-- on the row as it stands, an organization has no two active policies of the same name, if it had
-- none before.
pub after_calls-UniqueActive :
    (cs : List PolicyCall) (w : World)
    → UniqueActive w.policies
    → UniqueActive (after_calls cs w).policies
unfolding after_calls
after_calls-UniqueActive [] w h = h
after_calls-UniqueActive (c ∷ cs) w h =
    after_calls-UniqueActive cs (after_call c w) (after_call-UniqueActive c w h)
