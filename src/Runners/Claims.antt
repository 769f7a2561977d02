-- ===== src/Runners/Claims.antt =====
-- What a claim of apps/api/apps/runners/scheduling.py hands out.
use Prim.Native.Nat.{ℕ, zero, suc}
use Prim.Native.String.{String}
use mathlib.Core.Path.{◌≡◌, refl, ap, subst}
use mathlib.Core.Bool.{true, false, ◌&&◌, ◌||◌, not}
use mathlib.Core.Option.{Option, none, some}
use mathlib.Core.Logic.{inl, inr}
use mathlib.Core.List.{List, [], ◌∷◌, ◌++◌, Memᴰ}
use native.Mathlib.Omega.{arith}
use runbook_platform.Prelude.Tests.{Bool-cases, Option-cases, ◌==◌, nat_eq, eq_iff}
use runbook_platform.Prelude.Tables.{earliest_satisfies, find_row}
use runbook_platform.Prelude.Members.{Memᴰ-earliest, Memᴰ-update_row}
use runbook_platform.Changes.Dispatch.{
  expire_unbound_dispatch_for_execution, expire_dispatchable_change, cancel_undispatched,
}
use runbook_platform.Changes.Lifecycle.{dispatch_audited}
use runbook_platform.Changes.Transitions.{transition_change, allowed}
use runbook_platform.Prelude.Effects.{Result, ok, err, commit_or_rollback}
use runbook_platform.Store.{World}
use runbook_platform.Executions.Model.{Execution, execution_row}
use runbook_platform.Runners.Model.{RunnerPool, pool_row, Runner, ExecutionLease}
use runbook_platform.Runners.Fleet.{
  pool_is_draining, pool_is_active, is_active, is_registered, is_draining,
}
use runbook_platform.Runners.Limits.{
  Verdict-cases, SameFleet, SameFleet-search_queue, verdict_world,
}
use runbook_platform.Runners.Scheduling.{
  Verdict, retry, skip, expire_if_needed, has_lease, is_queued, execution_eligible_for_pool,
  pool_supports, excluded, next_candidate, take, judge, search_queue, write_claim, new_lease,
  ClaimResult, work, claim_found, is_at_capacity, claim_from_pool, attempt_claim,
  schedule_execution_claim,
}

-- The worlds that a search leads to from `w` by expiring dispatches, each of an execution that
-- the search looked at.
pub data Expiries (now : ℕ) (w : World) : World → Type 0 where
  none_yet : Expiries now w w
  then_one :
      {v : World} → Expiries now w v → (e : Execution) → Expiries now w (expire_if_needed e now v).1

Expiries-trans : (now : ℕ) {u v w : World} → Expiries now u v → Expiries now v w → Expiries now u w
Expiries-trans now a none_yet = a
Expiries-trans now a (then_one b e) = then_one (Expiries-trans now a b) e

-- An execution that the search of `pool` for `runner` may take: a row of `v`, queued there.
pub record Suits (runner : Runner) (pool : RunnerPool) (e : Execution) (v : World) : Type 0 where
  pub listed : Memᴰ e v.executions
  pub queued_yet : is_queued e.status ≡ true
  pub same_organization : e.organization_id ≡ runner.organization_id
  pub eligible : execution_eligible_for_pool e pool v ≡ true
  pub supported : pool_supports pool e ≡ true

pub candidate_queued :
    (k : ℕ) (ids : List ℕ) (w : World) (e : Execution)
    → next_candidate k ids w ≡ some e
    → Memᴰ e w.executions × (is_queued e.status ≡ true) × (e.organization_id ≡ k)
unfolding next_candidate
candidate_queued k ids w e h =
    let fits =
      earliest_satisfies (λ (x : Execution). x.created_at)
        (λ x. is_queued x.status && (x.organization_id == k && not (excluded ids x.id)))
        w.executions e h in
    (
      Memᴰ-earliest (λ (x : Execution). x.created_at)
          (λ x. is_queued x.status && (x.organization_id == k && not (excluded ids x.id)))
          w.executions e h,
      ground arith,
      ground (arith, eq_iff e.organization_id k),
    )

-- The expiry that does not find the dispatch expired leaves the database as it was.
expire-kept :
    (e : Execution) (now : ℕ) (w : World)
    → (expire_if_needed e now w).0 ≡ false
    → (expire_if_needed e now w).1 ≡ w
unfolding expire_if_needed expire_unbound_dispatch_for_execution expire_dispatchable_change
    cancel_undispatched transition_change allowed
expire-kept e now w h = ground (arith, h, dispatch_audited)

taken :
    (pool : RunnerPool) (now : ℕ) (e : Execution) (w v : World)
    → judge pool now e w ≡ take v
    → (v ≡ w) × (execution_eligible_for_pool e pool v ≡ true) × (pool_supports pool e ≡ true)
unfolding judge
taken pool now e w v h = (ground (arith, h, expire-kept e now w), ground arith, ground arith)

judged-Expiries :
    (pool : RunnerPool) (now : ℕ) (e : Execution) (w : World) (v : Verdict)
    → judge pool now e w ≡ v
    → Expiries now w (verdict_world v)
unfolding judge
judged-Expiries pool now e w v h =
    let same : (expire_if_needed e now w).1 ≡ verdict_world v = ground (arith, h) in
    subst (λ u. Expiries now w u) same (then_one none_yet e)

module _ (runner : Runner) (pool : RunnerPool) (now : ℕ) where
  abbrev Suitable : Option Execution × World → Type 0
  Suitable (none, v) = Unit
  Suitable (some e, v) = Suits runner pool e v

  -- What a search from `w` gives.
  unfoldable pub Found : World → Option Execution × World → Type 0
  Found w found = Expiries now w found.1 × Suitable found

  after : {u w : World} (r : Option Execution × World) → Expiries now u w → Found w r → Found u r
  unfolding Found
  after r x (y, suits) = (Expiries-trans now x y, suits)

  pub search_queue-Found :
      (rounds : ℕ) (ids : List ℕ) (w : World) → Found w (search_queue rounds runner pool now ids w)
  unfolding search_queue Found
  search_queue-Found zero ids w = (none_yet, tt)
  search_queue-Found (suc rounds) ids w =
      elim (Option-cases (next_candidate runner.organization_id ids w)) [
        | inl e ↦ rw (e, search_queue) (none_yet, tt)
        | inr (c, e) ↦
            rw (e, search_queue)
              (elim (Verdict-cases (judge pool now c w)) [
                | inl (v, j) ↦ rw j (
                    after (search_queue rounds runner pool now ids v)
                      (judged-Expiries pool now c w (retry v) j) (search_queue-Found rounds ids v))
                | inr (inl (v, j)) ↦ rw j (
                    after (search_queue rounds runner pool now (c.id ∷ ids) v)
                      (judged-Expiries pool now c w (skip v) j)
                      (search_queue-Found rounds (c.id ∷ ids) v))
                | inr (inr (v, j)) ↦
                    let (listed, queued_yet, same_organization) =
                      candidate_queued runner.organization_id ids w c e in
                    let (same, eligible, supported) = taken pool now c w v j in
                    rw j (
                      judged-Expiries pool now c w (take v) j,
                      record {
                        listed = rw same listed;
                        queued_yet = queued_yet;
                        same_organization = same_organization;
                        eligible = eligible;
                        supported = supported;
                      },
                    )
              ])
      ]

-- A claim on `w` that hands out work and leaves `v`: the runner and its pool take work, no limit is
-- reached, the execution was queued in the runner's organization and suits the pool, and the claim
-- and the lease are stored.
pub record Granted (runner : Runner) (n now : ℕ) (token : String) (v w : World) (e : Execution)
    (lease : ExecutionLease) : Type 0 where
  pub pool : RunnerPool
  pub pool_found : find_row runner.pool_id w.pools ≡ some pool
  pub pool_works : pool_is_active pool.status ≡ true
  pub runner_not_draining : is_draining runner.status ≡ false
  pub room : is_at_capacity runner pool n w ≡ false
  pub source : Execution
  pub searched : World
  pub expiries : Expiries now w searched
  pub suits : Suits runner pool source searched
  pub unleased : has_lease source.id w ≡ false
  pub claimed : e ≡ write_claim runner pool now token source
  pub leased : lease ≡ new_lease runner pool now source
  pub claim_stored : Memᴰ e v.executions
  pub lease_stored : v.leases ≡ w.leases ++ lease ∷ []

module _ (runner : Runner) (n now : ℕ) (token : String) (w : World) where
  abbrev pub Grants : Result ClaimResult × World → Type 0
  Grants (ok (work e t lease), v) = (t ≡ token) × Granted runner n now token v w e lease
  Grants _ = Unit

  found-Grants :
      (pool : RunnerPool) (found : Option Execution × World)
      → find_row runner.pool_id w.pools ≡ some pool
      → pool_is_active pool.status ≡ true
      → is_draining runner.status ≡ false
      → is_at_capacity runner pool n w ≡ false
      → SameFleet found.1 w
      → Found runner pool now w found
      → Grants (claim_found runner pool now token found)
  unfolding claim_found Found
  found-Grants pool (none, v) at works stays room same h = tt
  found-Grants pool (some e, v) at works stays room same (expiries, suits) =
      elim (Bool-cases (has_lease e.id v)) [
        | inl t ↦ rw t tt
        | inr t ↦ rw t (
          refl,
          record {
            pool = pool;
            pool_found = at;
            pool_works = works;
            runner_not_draining = stays;
            room = room;
            source = e;
            searched = v;
            expiries = expiries;
            suits = suits;
            unleased = unfold has_lease in rw same.same_leases at t;
            claimed = refl;
            leased = refl;
            claim_stored =
                Memᴰ-update_row e.id (write_claim runner pool now token) v.executions e refl
                  suits.listed;
            lease_stored = ap (λ ls. ls ++ new_lease runner pool now e ∷ []) same.same_leases;
          },
        )
      ]

  pool-Grants :
      (o : Option RunnerPool)
      → find_row runner.pool_id w.pools ≡ o
      → is_draining runner.status ≡ false
      → Grants (claim_from_pool runner n now token o w)
  unfolding claim_from_pool
  pool-Grants none at stays = tt
  pool-Grants (some pool) at stays = elim (Bool-cases (pool_is_draining pool.status)) [
    | inl draining ↦ rw draining tt
    | inr pool_stays ↦ rw pool_stays (elim (Bool-cases (pool_is_active pool.status)) [
      | inr idle ↦ rw idle tt
      | inl works ↦ rw works (elim (Bool-cases (is_at_capacity runner pool n w)) [
        | inl full ↦ rw full tt
        | inr room ↦ rw room (
            found-Grants pool (search_queue 50 runner pool now [] w) at works stays room
              (SameFleet-search_queue 50 runner pool now [] w)
              (search_queue-Found runner pool now 50 [] w))
      ])
    ])
  ]

  attempt-Grants : Grants (attempt_claim runner n now token w)
  unfolding attempt_claim
  attempt-Grants = elim (Bool-cases (is_draining runner.status)) [
    | inl draining ↦ rw draining tt
    | inr stays ↦
        rw stays (elim (Bool-cases (is_active runner.status || is_registered runner.status)) [
          | inr idle ↦ rw idle tt
          | inl works ↦ rw works (pool-Grants (find_row runner.pool_id w.pools) refl stays)
        ])
  ]

  committed-Grants :
      (r : Result ClaimResult) (v : World) → Grants (r, v) → Grants (commit_or_rollback w r v)
  committed-Grants (ok a) v h = h
  committed-Grants (err e) v h = tt

  -- A claim hands work only to a runner that is not draining and whose pool is active, below all
  -- three limits. The execution is a row that was queued, without a lease, in the runner's
  -- organization, eligible for the pool and within its capabilities, in the database as the search
  -- had left it by expiring dispatches; the claim and the lease of this runner, pool and execution
  -- are stored, the lease as the only new one.
  pub schedule_execution_claim-Grants : Grants (schedule_execution_claim runner n now token w)
  unfolding schedule_execution_claim
  schedule_execution_claim-Grants =
      let r = attempt_claim runner n now token w in committed-Grants r.0 r.1 attempt-Grants
