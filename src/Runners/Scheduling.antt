-- ===== src/Runners/Scheduling.antt =====
-- apps/api/apps/runners/scheduling.py: the pool-aware claim of a registered runner.
use Prim.Native.Nat.{ℕ, zero, suc}
use Prim.Native.String.{String}
use mathlib.Core.Bool.{Bool, true, false, ◌&&◌, ◌||◌, not}
use mathlib.Core.Option.{Option, none, some}
use mathlib.Core.List.{List, [], ◌∷◌, ◌++◌}
use runbook_platform.Prelude.Tests.{leb, ◌==◌, nat_eq, string_eq, is_some, if◌then◌else◌}
use runbook_platform.Prelude.Tables.{any_row, all_rows, count_rows, earliest, find_row, update_row}
use runbook_platform.Prelude.Text.{id_text}
use runbook_platform.Prelude.Json.{Json, get_field, elements}
use runbook_platform.Prelude.Effects.{
  Result, ok, err, invalid_state_transition, integrity_error, not_found, atomic,
}
use runbook_platform.Store.{World, Service}
use runbook_platform.Executions.Model.{Execution, ExecutionStatus, queued, claimed, execution_row}
use runbook_platform.Runners.Model.{RunnerPool, pool_row, Runner, LeaseStatus, ExecutionLease}
use runbook_platform.Runners.Fleet.{
  pool_is_active, pool_is_draining, is_draining, is_active, is_registered,
}
use runbook_platform.Runners.Registration.{contains}
use runbook_platform.Changes.Dispatch.{binding_of, expire_unbound_dispatch_for_execution}

abbrev pub is_queued : ExecutionStatus → Bool
is_queued queued = true
is_queued _ = false

abbrev pub lease_is_active : LeaseStatus → Bool
lease_is_active LeaseStatus.active = true
lease_is_active _ = false

-- `_execution_eligible_for_pool(execution, pool)`
unfoldable pub execution_eligible_for_pool : Execution → RunnerPool → World → Bool
execution_eligible_for_pool execution pool w =
    if is_some (binding_of execution.id w)
    then execution.runner_pool_key == "" || execution.runner_pool_key == pool.key
    else if pool.default_for_non_change_executions
    then true
    else not (
        any_row
          (λ p.
            p.organization_id == pool.organization_id
            && (pool_is_active p.status && p.default_for_non_change_executions))
          w.pools)

-- `c in pool_caps` for an element of the snapshot's list: only a text can be a capability.
is_capability : List String → Json → Bool
is_capability capabilities (Json.str s) = contains capabilities s
is_capability capabilities _ = false

-- The snapshot's `requiredCapabilities` are all among the pool's.
unfoldable pub pool_supports : RunnerPool → Execution → Bool
unfolding is_capability
pool_supports pool execution =
    all_rows (is_capability pool.capabilities)
      (elements (get_field "requiredCapabilities" execution.workflow_snapshot))

unfoldable pub excluded : List ℕ → ℕ → Bool
excluded [] k = false
excluded (j ∷ js) k = let rest = excluded js k in if j == k then true else rest

-- The oldest queued execution of the organization that is not excluded yet. No other transaction
-- holds a row's lock here, so `skip_locked` skips nothing.
unfoldable pub next_candidate : ℕ → List ℕ → World → Option Execution
next_candidate organization_id excluded_ids w =
    earliest (λ e. e.created_at)
      (λ e.
        is_queued e.status
        && (e.organization_id == organization_id && not (excluded excluded_ids e.id)))
      w.executions

abbrev answer : Result Bool → Bool
answer (ok b) = b
answer (err e) = false

-- `_expire_unbound_change_dispatch_if_needed`: a failure is logged and counts as false.
unfoldable pub expire_if_needed : Execution → ℕ → World → Bool × World
expire_if_needed execution now w =
    let (r, w') = expire_unbound_dispatch_for_execution execution now w in (answer r, w')

-- What one round of the search does with its candidate.
pub data Verdict : Type 0 where
  retry : World → Verdict
  skip : World → Verdict
  take : World → Verdict

unfoldable pub judge : RunnerPool → ℕ → Execution → World → Verdict
judge pool now candidate w =
    let (gone, w') = expire_if_needed candidate now w in
    if gone
    then retry w'
    else if execution_eligible_for_pool candidate pool w' && pool_supports pool candidate
    then take w'
    else skip w'

-- `for _ in range(50)`: the execution found and the world that the expiries left.
unfoldable pub search_queue :
    ℕ → Runner → RunnerPool → ℕ → List ℕ → World → Option Execution × World
search_queue zero runner pool now excluded_ids w = (none, w)
search_queue (suc rounds) runner pool now excluded_ids w =
    elim (next_candidate runner.organization_id excluded_ids w) [
      | none ↦ (none, w)
      | some candidate ↦ elim (judge pool now candidate w) [
        | retry w' ↦ search_queue rounds runner pool now excluded_ids w'
        | skip w' ↦ search_queue rounds runner pool now (candidate.id ∷ excluded_ids) w'
        | take w' ↦ (some candidate, w')
      ]
    ]

unfoldable pub write_claim : Runner → RunnerPool → ℕ → String → Execution → Execution
write_claim runner pool now claim_token e = record e {
  status = claimed;
  claimed_by_runner_id = id_text runner.id;
  claim_token = some claim_token;
  claimed_at = some now;
  last_heartbeat_at = some now;
  runner_pool_key = pool.key;
}

unfoldable pub new_lease : Runner → RunnerPool → ℕ → Execution → ExecutionLease
new_lease runner pool now e = record {
  execution_id = e.id;
  organization_id = runner.organization_id;
  runner_id = runner.id;
  pool_id = pool.id;
  status = LeaseStatus.active;
  claimed_at = now;
  last_heartbeat_at = some now;
  released_at = none;
  release_reason = "";
}

pub data ClaimResult : Type 0 where
  drain : ClaimResult
  nothing : ClaimResult
  work : Execution → String → ExecutionLease → ClaimResult

-- The unique constraint on the execution of a lease, whatever the lease's status.
unfoldable pub has_lease : ℕ → World → Bool
has_lease k w = any_row (λ (l : ExecutionLease). l.execution_id == k) w.leases

unfoldable pub claim_found :
    Runner → RunnerPool → ℕ → String → Option Execution × World → Result ClaimResult × World
unfolding has_lease
claim_found runner pool now claim_token (none, w) = (ok nothing, w)
claim_found runner pool now claim_token (some e, w) =
    let lease = new_lease runner pool now e in
    let saved : World = record w {
      executions = update_row e.id (write_claim runner pool now claim_token) w.executions;
    } in
    if has_lease e.id w then (err integrity_error, saved) else (
      ok (work (write_claim runner pool now claim_token e) claim_token lease),
      record saved { leases = w.leases ++ lease ∷ [] },
    )

unfoldable pub of_runner : ℕ → ExecutionLease → Bool
of_runner k l = l.runner_id == k

unfoldable pub of_pool : ℕ → ExecutionLease → Bool
of_pool k l = l.pool_id == k

unfoldable pub of_organization : ℕ → ExecutionLease → Bool
of_organization k l = l.organization_id == k

-- Active leases, counted.
unfoldable pub active_leases : (ExecutionLease → Bool) → World → ℕ
active_leases p w = count_rows (λ l. p l && lease_is_active l.status) w.leases

-- The three concurrency limits, checked while the pool's row is locked. The lock keeps out claims on
-- the same pool only: a claim on another pool of the organization may run in between.
unfoldable pub is_at_capacity : Runner → RunnerPool → ℕ → World → Bool
is_at_capacity runner pool org_limit w =
    leb 1 (active_leases (of_runner runner.id) w)
    || (leb pool.max_concurrent_executions (active_leases (of_pool pool.id) w)
        || leb org_limit (active_leases (of_organization runner.organization_id) w))

unfoldable pub claim_from_pool : Runner → ℕ → ℕ → String → Option RunnerPool → Service ClaimResult
claim_from_pool runner org_limit now claim_token none w = (err not_found, w)
claim_from_pool runner org_limit now claim_token (some pool) w =
    if pool_is_draining pool.status
    then (ok drain, w)
    else if not (pool_is_active pool.status)
    then (err (invalid_state_transition "pool_not_active"), w)
    else if is_at_capacity runner pool org_limit w
    then (ok nothing, w)
    else claim_found runner pool now claim_token (search_queue 50 runner pool now [] w)

unfoldable pub attempt_claim : Runner → ℕ → ℕ → String → Service ClaimResult
attempt_claim runner org_limit now claim_token w =
    if is_draining runner.status
    then (ok drain, w)
    else if not (is_active runner.status || is_registered runner.status)
    then (err (invalid_state_transition "runner_not_active"), w)
    else claim_from_pool runner org_limit now claim_token (find_row runner.pool_id w.pools) w

-- `schedule_execution_claim(runner)` with `RUNNER_ORG_MAX_CONCURRENT`, the clock and the claim
-- token of `uuid.uuid4()`. The steps in the answer are read and not changed.
unfoldable pub schedule_execution_claim : Runner → ℕ → ℕ → String → Service ClaimResult
unfolding attempt_claim claim_from_pool
schedule_execution_claim runner org_limit now claim_token =
    atomic (attempt_claim runner org_limit now claim_token)
