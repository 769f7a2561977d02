-- ===== src/Policies/Ranked.antt =====
-- The order of the rules in the loop of `evaluate_step_policy` of apps/api/apps/policies/services.py.
use Prim.Native.Nat.{ℕ, ◌<◌}
use mathlib.Core.Path.{◌≡◌, refl, sym, subst}
use mathlib.Core.Logic.{◌⊎◌, inl, inr}
use native.Mathlib.Omega.{arith}
use mathlib.Core.Bool.{Bool, true, false}
use mathlib.Core.Option.{Option, none, some}
use mathlib.Core.List.{List, [], ◌∷◌, Memᴰ}
use runbook_platform.Prelude.Tests.{nat_eq}
use runbook_platform.Prelude.Tables.{All, All-mono}
use runbook_platform.Prelude.Members.{All-Memᴰ, Memᴰ-All}
use runbook_platform.Prelude.Sorting.{sort_by, IsSorted, sort_by-IsSorted, All-sort_by, sort_by-All}
use runbook_platform.Prelude.Effects.{Error, domain_validation}
use runbook_platform.Store.{World}
use runbook_platform.Policies.Model.{Policy, PolicyRule}
use runbook_platform.Policies.Conditions.{Zones, Facts, check_condition, matches}
use runbook_platform.Policies.Evaluation.{
  Candidate, active_rules, precedes, decided, invalid, broken, undecided, judge_params,
}
use runbook_platform.Policies.Reading.{Active, active_rules-Active, Active-active_rules}
use runbook_platform.Policies.Steps.{judge_rule, first_verdict}

precedes_total : (a b : Candidate) → precedes a b ≡ false → precedes b a ≡ true
unfolding precedes
precedes_total a b h = ground arith

precedes_trans :
    (a b c : Candidate) → precedes a b ≡ true → precedes b c ≡ true → precedes a c ≡ true
unfolding precedes
precedes_trans a b c h k = ground arith

precedes_refl : (a : Candidate) → precedes a a ≡ true
unfolding precedes
precedes_refl a = ground arith

-- The rule comes first: by its priority, and among equal priorities by its policy's age.
pub ComesFirst : Policy → PolicyRule → Policy → PolicyRule → Type 0
ComesFirst q s p r =
    (s.priority < r.priority) ⊎ ((s.priority ≡ r.priority) × (q.created_at < p.created_at))

precedes-ComesFirst :
    (p q : Policy) (r s : PolicyRule) → ComesFirst q s p r → precedes (p, r) (q, s) ≡ true → ⊥
unfolding ComesFirst precedes
precedes-ComesFirst p q r s (inl h) t = ground arith
precedes-ComesFirst p q r s (inr h) t = ground (arith, h.0, h.1)

module _ (zones : Zones) (f : Facts) where
  -- The rule can be evaluated and does not match.
  pub IsPassed : PolicyRule → Type 0
  IsPassed r =
      (check_condition zones r.condition_type r.condition_params ≡ none)
      × (matches zones r.condition_type r.condition_params f ≡ false)

  -- What a rule is judged to be.
  judge-cases :
      (c : Candidate)
      → ((judge_rule zones f c ≡ none) × IsPassed c.1)
        ⊎ ((judge_rule zones f c ≡ some (decided c))
            × (matches zones c.1.condition_type c.1.condition_params f ≡ true))
        ⊎ (judge_rule zones f c ≡ some (invalid c))
        ⊎ (judge_rule zones f c ≡ some broken)
  unfolding judge_rule IsPassed
  judge-cases (p, r) =
      params-cases (check_condition zones r.condition_type r.condition_params)
        (matches zones r.condition_type r.condition_params f)
    where
      params-cases :
          (o : Option Error) (m : Bool)
          → ((judge_params (p, r) o m ≡ none) × ((o ≡ none) × (m ≡ false)))
            ⊎ ((judge_params (p, r) o m ≡ some (decided (p, r))) × (m ≡ true))
            ⊎ (judge_params (p, r) o m ≡ some (invalid (p, r)))
            ⊎ (judge_params (p, r) o m ≡ some broken)
      params-cases none true = inr (inl (refl, refl))
      params-cases none false = inl (refl, (refl, refl))
      params-cases (some (domain_validation code)) m = inr (inr (inl refl))
      params-cases (some _) m = inr (inr (inr refl))

  scan-decided :
      (cs : List Candidate) (c : Candidate)
      → IsSorted precedes cs
      → first_verdict zones f cs ≡ decided c
      → Memᴰ c cs
        × (matches zones c.1.condition_type c.1.condition_params f ≡ true)
        × All (λ d. (precedes c d ≡ true) ⊎ IsPassed d.1) cs
  unfolding first_verdict IsSorted
  scan-decided [] c sorted h = absurd (ground (arith, h))
  scan-decided (d ∷ ds) c sorted h = elim (judge-cases d) [
    | inl (e, passed) ↦
        let (m, t, rest) = scan-decided ds c sorted.1 (rw e at h) in
        (Memᴰ.tail m, t, (inr passed, rest))
    | inr (inl (e, t)) ↦
        let is : d ≡ c = ground (arith, h, e) in
        (
          Memᴰ.head (sym is),
          subst (λ x. matches zones x.1.condition_type x.1.condition_params f ≡ true) is t,
          (
            inl (subst (λ x. precedes x d ≡ true) is (precedes_refl d)),
            All-mono ds (λ x k. inl (subst (λ y. precedes y x ≡ true) is k)) sorted.0,
          ),
        )
    | inr (inr (inl e)) ↦ absurd (ground (arith, h, e))
    | inr (inr (inr e)) ↦ absurd (ground (arith, h, e))
  ]

  scan-undecided :
      (cs : List Candidate) → first_verdict zones f cs ≡ undecided → All (λ d. IsPassed d.1) cs
  unfolding first_verdict
  scan-undecided [] h = tt
  scan-undecided (d ∷ ds) h = elim (judge-cases d) [
    | inl (e, passed) ↦ (passed, scan-undecided ds (rw e at h))
    | inr (inl (e, t)) ↦ absurd (ground (arith, h, e))
    | inr (inr (inl e)) ↦ absurd (ground (arith, h, e))
    | inr (inr (inr e)) ↦ absurd (ground (arith, h, e))
  ]

  -- The rule that decides: it matches, and every active rule that comes before it is passed over.
  pub record Decides (k : ℕ) (w : World) (p : Policy) (r : PolicyRule) : Type 0 where
    pub active : Active k w p r
    pub matching : matches zones r.condition_type r.condition_params f ≡ true
    pub passed : (q : Policy) (s : PolicyRule) → Active k w q s → ComesFirst q s p r → IsPassed s

  pub first_verdict-Decides :
      (k : ℕ) (w : World) (c : Candidate)
      → first_verdict zones f (sort_by precedes (active_rules k w)) ≡ decided c
      → Decides k w c.0 c.1
  first_verdict-Decides k w c h =
      let cs = active_rules k w in
      let (m, t, all) =
        scan-decided (sort_by precedes cs) c
          (sort_by-IsSorted precedes precedes_total precedes_trans cs) h in
      record {
        active = active_rules-Active k w c (
            All-Memᴰ (λ x. Memᴰ x cs) (sort_by precedes cs) c
              (All-sort_by precedes (λ x. Memᴰ x cs) cs (Memᴰ-All cs)) m);
        matching = t;
        passed = λ q s a before.
            elim (All-Memᴰ _ cs (q, s) (sort_by-All precedes _ cs all)
              (Active-active_rules k w q s a)) [
                | inl u ↦ absurd (precedes-ComesFirst c.0 q c.1 s before u)
                | inr u ↦ u
              ];
      }

  pub first_verdict-undecided :
      (k : ℕ) (w : World) (q : Policy) (s : PolicyRule)
      → first_verdict zones f (sort_by precedes (active_rules k w)) ≡ undecided
      → Active k w q s
      → IsPassed s
  first_verdict-undecided k w q s h a =
      let cs = active_rules k w in
      All-Memᴰ (λ (d : Candidate). IsPassed d.1) cs (q, s)
        (sort_by-All precedes (λ (d : Candidate). IsPassed d.1) cs
          (scan-undecided (sort_by precedes cs) h))
        (Active-active_rules k w q s a)
