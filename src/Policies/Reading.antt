-- ===== src/Policies/Reading.antt =====
-- Which rules the loop of `evaluate_step_policy` of apps/api/apps/policies/services.py reads.
use Prim.Native.Nat.{ℕ}
use mathlib.Core.Path.{◌≡◌, refl, sym, ap, subst, ◌∙◌}
use mathlib.Core.Logic.{inl, inr}
use native.Mathlib.Omega.{arith}
use mathlib.Core.Bool.{true, ◌&&◌}
use mathlib.Core.List.Memᴰ
use mathlib.Core.List.{List, [], ◌∷◌, Memᴰ}
use runbook_platform.Prelude.Tests.{◌==◌, nat_eq, eq_iff, Bool-cases}
use runbook_platform.Prelude.Tables.{All, All-mono, All-append, select}
use runbook_platform.Prelude.Members.{All-Memᴰ, Memᴰ-select, select-Memᴰ}
use runbook_platform.Store.{World}
use runbook_platform.Policies.Model.{Policy, PolicyRule}
use runbook_platform.Policies.Evaluation.{Candidate, active_rules, rules_of, collect}

-- An active rule of an active policy of the organization `k`, by the tables.
pub record Active (k : ℕ) (w : World) (p : Policy) (r : PolicyRule) : Type 0 where
  pub policy_listed : Memᴰ p w.policies
  pub rule_listed : Memᴰ r w.policy_rules
  pub own : p.organization_id ≡ k
  pub policy_active : p.is_active ≡ true
  pub rule_of : r.policy_id ≡ p.id
  pub rule_active : r.is_active ≡ true

rules_of-listed :
    (p : Policy) (rs : List PolicyRule)
    → All
        (λ (c : Candidate).
          (c.0 ≡ p) × Memᴰ c.1 rs × (c.1.policy_id ≡ p.id) × (c.1.is_active ≡ true))
        (rules_of p rs)
unfolding rules_of
rules_of-listed p [] = tt
rules_of-listed p (r ∷ rs) =
    let rest : All
        (λ (c : Candidate).
          (c.0 ≡ p) × Memᴰ c.1 (r ∷ rs) × (c.1.policy_id ≡ p.id) × (c.1.is_active ≡ true))
        (rules_of p rs) =
      All-mono (rules_of p rs) (λ c h. (h.0, Memᴰ.tail h.1, h.2, h.3)) (rules_of-listed p rs) in
    elim (Bool-cases (r.policy_id == p.id && r.is_active)) [
      | inl e ↦ rw e (
        (refl, Memᴰ.head refl, ground (arith, e, eq_iff r.policy_id p.id), ground (arith, e)),
        rest,
      )
      | inr e ↦ rw e rest
    ]

rules_of-holds :
    (p : Policy) (rs : List PolicyRule) (r : PolicyRule)
    → Memᴰ r rs
    → r.policy_id ≡ p.id
    → r.is_active ≡ true
    → Memᴰ (p, r) (rules_of p rs)
unfolding rules_of
rules_of-holds p [] r m own active = elim m [ ]
rules_of-holds p (s ∷ rs) r m own active = elim (Bool-cases (s.policy_id == p.id && s.is_active)) [
  | inl e ↦ rw e (elim (Memᴰ.cases_cons m) [
    | inl same ↦ Memᴰ.head (ap (λ x. (p, x)) same)
    | inr n ↦ Memᴰ.tail (rules_of-holds p rs r n own active)
  ])
  | inr e ↦ rw e (elim (Memᴰ.cases_cons m) [
    | inl same ↦ absurd (
        ground (
          arith,
          e,
          (eq_iff s.policy_id p.id).1 (ap (λ x. x.policy_id) (sym same) ∙ own),
          ap (λ x. x.is_active) (sym same) ∙ active,
        ))
    | inr n ↦ rules_of-holds p rs r n own active
  ])
]

collect-listed :
    (rs : List PolicyRule) (ps : List Policy)
    → All
        (λ (c : Candidate).
          Memᴰ c.0 ps × Memᴰ c.1 rs × (c.1.policy_id ≡ c.0.id) × (c.1.is_active ≡ true))
        (collect rs ps)
unfolding collect
collect-listed rs [] = tt
collect-listed rs (p ∷ ps) =
    All-append _ (rules_of p rs) (collect rs ps)
      (All-mono (rules_of p rs) (λ c h. (Memᴰ.head h.0, h.1, h.2 ∙ ap (λ x. x.id) (sym h.0), h.3))
        (rules_of-listed p rs))
      (All-mono (collect rs ps) (λ c h. (Memᴰ.tail h.0, h.1, h.2, h.3)) (collect-listed rs ps))

collect-holds :
    (rs : List PolicyRule) (ps : List Policy) (p : Policy) (r : PolicyRule)
    → Memᴰ p ps
    → Memᴰ (p, r) (rules_of p rs)
    → Memᴰ (p, r) (collect rs ps)
unfolding collect
collect-holds rs [] p r m h = elim m [ ]
collect-holds rs (q ∷ ps) p r m h = elim (Memᴰ.cases_cons m) [
  | inl same ↦ Memᴰ.append_left (collect rs ps) (subst (λ x. Memᴰ (p, r) (rules_of x rs)) same h)
  | inr n ↦ Memᴰ.append_right (rules_of q rs) (collect-holds rs ps p r n h)
]

pub active_rules-Active :
    (k : ℕ) (w : World) (c : Candidate) → Memᴰ c (active_rules k w) → Active k w c.0 c.1
unfolding active_rules
active_rules-Active k w c m =
    let open_to = λ (p : Policy). p.organization_id == k && p.is_active in
    let h =
      All-Memᴰ _ (collect w.policy_rules (select open_to w.policies)) c
        (collect-listed w.policy_rules (select open_to w.policies)) m in
    let (own, listed) = select-Memᴰ open_to w.policies c.0 h.0 in
    record {
      policy_listed = listed;
      rule_listed = h.1;
      own = ground (arith, own, eq_iff c.0.organization_id k);
      policy_active = ground (arith, own);
      rule_of = h.2;
      rule_active = h.3;
    }

pub Active-active_rules :
    (k : ℕ) (w : World) (p : Policy) (r : PolicyRule)
    → Active k w p r
    → Memᴰ (p, r) (active_rules k w)
unfolding active_rules
Active-active_rules k w p r a =
    let open_to = λ (x : Policy). x.organization_id == k && x.is_active in
    collect-holds w.policy_rules (select open_to w.policies) p r
      (Memᴰ-select open_to w.policies p
        (ground (arith, a.policy_active, (eq_iff p.organization_id k).1 a.own)) a.policy_listed)
      (rules_of-holds p w.policy_rules r a.rule_listed a.rule_of a.rule_active)
