-- ===== src/Runners/Limits.antt =====
-- The concurrency limits that claims of apps/api/apps/runners/scheduling.py keep.
use Prim.Native.Nat.{ℕ, zero, suc, ◌+◌, ◌≤◌}
use Prim.Native.String.{String}
use mathlib.Core.Path.{◌≡◌, refl, ◌∙◌}
use mathlib.Core.Bool.{Bool, false, ◌&&◌}
use mathlib.Core.Option.{Option, none, some}
use mathlib.Core.Logic.{◌⊎◌, inl, inr}
use mathlib.Core.List.{List, [], ◌∷◌, ◌++◌}
use native.Mathlib.Omega.{arith}
use runbook_platform.Prelude.Tests.{nat_eq, eq_iff, Bool-cases, Option-cases, if◌then◌else◌}
use runbook_platform.Prelude.Tables.{count_rows-append, find_row, find_row_key, update_row}
use runbook_platform.Prelude.Effects.{Result, Leaves, Leaves-rollback, leaves_rules}
use runbook_platform.Store.{World}
use runbook_platform.Executions.Model.{Execution, execution_row}
use runbook_platform.Changes.Transitions.{transition_change}
use runbook_platform.Changes.Dispatch.{
  expire_dispatchable_change, cancel_undispatched, expire_unbound_dispatch_for_execution,
}
use runbook_platform.Runners.Model.{RunnerPool, pool_row, Runner, ExecutionLease}
use runbook_platform.Runners.Scheduling.{
  ClaimResult, expire_if_needed, Verdict, retry, skip, take, judge, next_candidate, search_queue,
  new_lease, of_runner, of_pool, of_organization, lease_is_active, active_leases, is_at_capacity,
  write_claim, has_lease, claim_found, claim_from_pool, attempt_claim, schedule_execution_claim,
}

-- Everything that the fleet's limits are about is as before.
pub record SameFleet (v w : World) : Type 0 where
  pub same_pools : v.pools ≡ w.pools
  pub same_runners : v.runners ≡ w.runners
  pub same_leases : v.leases ≡ w.leases

SameFleet-expire : (e : Execution) (now : ℕ) (w : World) → SameFleet (expire_if_needed e now w).1 w
unfolding expire_if_needed expire_unbound_dispatch_for_execution expire_dispatchable_change
    cancel_undispatched transition_change
SameFleet-expire e now w = ground arith

abbrev pub verdict_world : Verdict → World
verdict_world (retry w) = w
verdict_world (skip w) = w
verdict_world (take w) = w

SameFleet-judge :
    (pool : RunnerPool) (now : ℕ) (e : Execution) (w : World)
    → SameFleet (verdict_world (judge pool now e w)) w
unfolding judge
SameFleet-judge pool now e w = ground (arith, SameFleet-expire e now w)

pub Verdict-cases :
    (v : Verdict)
    → ((w : World) × (v ≡ retry w)) ⊎ ((w : World) × (v ≡ skip w)) ⊎ ((w : World) × (v ≡ take w))
Verdict-cases (retry w) = inl (w, refl)
Verdict-cases (skip w) = inr (inl (w, refl))
Verdict-cases (take w) = inr (inr (w, refl))

SameFleet-trans : {u v w : World} → SameFleet u v → SameFleet v w → SameFleet u w
SameFleet-trans a b = record {
  same_pools = a.same_pools ∙ b.same_pools;
  same_runners = a.same_runners ∙ b.same_runners;
  same_leases = a.same_leases ∙ b.same_leases;
}

judged :
    (pool : RunnerPool) (now : ℕ) (e : Execution) (w : World) {v : Verdict}
    → judge pool now e w ≡ v
    → SameFleet (verdict_world v) w
judged pool now e w h = rw h at (SameFleet-judge pool now e w)

pub SameFleet-search_queue :
    (rounds : ℕ) (runner : Runner) (pool : RunnerPool) (now : ℕ) (ids : List ℕ) (w : World)
    → SameFleet (search_queue rounds runner pool now ids w).1 w
unfolding search_queue
SameFleet-search_queue zero runner pool now ids w = ground arith
SameFleet-search_queue (suc rounds) runner pool now ids w =
    elim (Option-cases (next_candidate runner.organization_id ids w)) [
      | inl e ↦
          rw (e, search_queue)
            (record { same_pools = refl; same_runners = refl; same_leases = refl })
      | inr (c, e) ↦
          rw (e, search_queue)
            (elim (Verdict-cases (judge pool now c w)) [
              | inl (v, j) ↦ rw j (
                  SameFleet-trans (SameFleet-search_queue rounds runner pool now ids v)
                    (judged pool now c w j))
              | inr (inl (v, j)) ↦ rw j (
                  SameFleet-trans (SameFleet-search_queue rounds runner pool now (c.id ∷ ids) v)
                    (judged pool now c w j))
              | inr (inr (v, j)) ↦ rw j (judged pool now c w j)
            ])
    ]

-- No runner holds two active leases, no pool more than its limit, no organization more than the
-- setting.
pub record WithinLimits (org_limit : ℕ) (w : World) : Type 0 where
  pub runner_limit : (k : ℕ) → active_leases (of_runner k) w ≤ 1
  pub pool_limit :
      (k : ℕ) (p : RunnerPool)
      → find_row k w.pools ≡ some p
      → active_leases (of_pool k) w ≤ p.max_concurrent_executions
  pub organization_limit : (k : ℕ) → active_leases (of_organization k) w ≤ org_limit

SameFleet-WithinLimits : (n : ℕ) {v w : World} → SameFleet v w → WithinLimits n w → WithinLimits n v
unfolding active_leases
SameFleet-WithinLimits n {v} {w} same h = record {
  runner_limit = λ k. rw same.same_leases (h.runner_limit k);
  pool_limit = λ k p found. rw same.same_leases (h.pool_limit k p (rw same.same_pools at found));
  organization_limit = λ k. rw same.same_leases (h.organization_limit k);
}

module _ (runner : Runner) (pool : RunnerPool) (n now : ℕ) (w : World) where
  abbrev claimed_world : String → Execution → World
  claimed_world token e = record w {
    executions = update_row e.id (write_claim runner pool now token) w.executions;
    leases = w.leases ++ new_lease runner pool now e ∷ [];
  }

  active_leases-claim :
      (token : String) (e : Execution) (p : ExecutionLease → Bool)
      → active_leases p (claimed_world token e)
        ≡ active_leases p w + (if p (new_lease runner pool now e) then 1 else 0)
  unfolding active_leases new_lease
  active_leases-claim token e p = ground (
    arith,
    count_rows-append (λ l. p l && lease_is_active l.status) w.leases (new_lease runner pool now e),
  )

  claim_found-WithinLimits :
      (token : String) (e : Execution)
      → WithinLimits n w
      → is_at_capacity runner pool n w ≡ false
      → find_row runner.pool_id w.pools ≡ some pool
      → WithinLimits n (claimed_world token e)
  unfolding is_at_capacity new_lease of_runner of_pool of_organization
  claim_found-WithinLimits token e h room found = record {
    runner_limit = λ k.
        ground
          (arith, active_leases-claim token e (of_runner k), h.runner_limit k, eq_iff runner.id k);
    pool_limit = λ k p at_k. ground (
      arith,
      active_leases-claim token e (of_pool k),
      h.pool_limit k p at_k,
      eq_iff pool.id k,
      find_row_key runner.pool_id w.pools pool found,
    );
    organization_limit = λ k.
        ground (arith, active_leases-claim token e (of_organization k), h.organization_limit k);
  }

module _ (runner : Runner) (n now : ℕ) (token : String) where
  abbrev Kept : Result ClaimResult × World → Type 0
  Kept = Leaves (WithinLimits n)

  claim_result-WithinLimits :
      (pool : RunnerPool) (w : World) (found : Option Execution × World)
      → SameFleet found.1 w
      → WithinLimits n w
      → is_at_capacity runner pool n w ≡ false
      → find_row runner.pool_id w.pools ≡ some pool
      → Kept (claim_found runner pool now token found)
  unfolding is_at_capacity active_leases
  claim_result-WithinLimits pool w (none, v) same h room at = record {
    leaves = unfold claim_found in SameFleet-WithinLimits n same h;
  }
  claim_result-WithinLimits pool w (some e, v) same h room at = record {
    leaves =
        unfold claim_found in
        elim (Bool-cases (has_lease e.id v)) [
          | inl t ↦ rw t (
              SameFleet-WithinLimits n
                (record {
                  same_pools = same.same_pools;
                  same_runners = same.same_runners;
                  same_leases = same.same_leases;
                })
                h)
          | inr t ↦ rw t (
              claim_found-WithinLimits runner pool n now v token e (SameFleet-WithinLimits n same h)
                (rw same.same_leases room) (rw same.same_pools at))
        ];
  }

  claim_from_pool-WithinLimits :
      (w : World) (o : Option RunnerPool)
      → find_row runner.pool_id w.pools ≡ o
      → WithinLimits n w
      → Kept (claim_from_pool runner n now token o w)
  unfolding claim_from_pool
  claim_from_pool-WithinLimits w none at h = search (leaves_rules, h)
  claim_from_pool-WithinLimits w (some pool) at h =
      let same = SameFleet-search_queue 50 runner pool now [] w in
      search (
        leaves_rules,
        h,
        claim_result-WithinLimits pool w (search_queue 50 runner pool now [] w) same h,
      )

  attempt_claim-WithinLimits :
      (w : World) → WithinLimits n w → Kept (attempt_claim runner n now token w)
  unfolding attempt_claim
  attempt_claim-WithinLimits w h =
      search
        (leaves_rules, h, claim_from_pool-WithinLimits w (find_row runner.pool_id w.pools) refl h)

  -- A claim that no other claim of the organization runs beside, whatever its result, keeps the
  -- limits: no runner gets a second active lease, no pool and no organization passes its number of
  -- concurrent executions.
  pub schedule_execution_claim-WithinLimits :
      (w : World)
      → WithinLimits n w
      → WithinLimits n (schedule_execution_claim runner n now token w).1
  unfolding schedule_execution_claim
  schedule_execution_claim-WithinLimits w h =
      (Leaves-rollback w (attempt_claim runner n now token w) h
        (attempt_claim-WithinLimits w h)).leaves
