-- ===== src/Runners/Routing.antt =====
-- apps/api/apps/runners/route_matching.py: the pool that serves all targets of a change.
use Prim.Native.Nat.{ℕ, ◌-◌}
use Prim.Native.String.{String}
use mathlib.Core.Bool.{Bool, false, ◌&&◌, ◌||◌, not}
use mathlib.Core.Option.{Option, none, some}
use mathlib.Core.List.{List, [], ◌∷◌}
use runbook_platform.Prelude.Tests.{ltb, leb, ◌==◌, nat_eq, string_eq, if◌then◌else◌}
use runbook_platform.Prelude.Tables.{any_row, all_rows, find_row}
use runbook_platform.Store.{World}
use runbook_platform.Runners.Model.{PoolStatus, RunnerPool, pool_row, Runner, Route}
use runbook_platform.Runners.Fleet.{is_active}
use runbook_platform.Runners.Registration.{contains}

-- What route matching reads of a change: its organization, its ordered targets and the
-- capabilities that its operation profile requires.
pub record Target : Type 0 where
  pub target_type : String
  pub normalized_identifier : String
  pub environment : String

pub record RoutedChange : Type 0 where
  pub organization_id : ℕ
  pub targets : List Target
  pub required_runner_capabilities : List String

pub data RouteReason : Type 0 where
  ok no_targets no_routes_configured route_miss missing_required_capability : RouteReason
  multi_pool_unsupported pool_draining pool_disabled no_online_runner : RouteReason

unfoldable pub serves : ℕ → Target → Route → Bool
serves organization_id target r =
    r.organization_id == organization_id
    && (r.environment == target.environment
        && (r.is_active
            && ((r.target_type == target.target_type || r.target_type == "*")
                && (r.normalized_identifier_pattern == target.normalized_identifier
                    || r.normalized_identifier_pattern == "*"))))

-- `order_by("priority", "id")`
precedes : Route → Route → Bool
precedes a b = ltb a.priority b.priority || (a.priority == b.priority && leb a.id b.id)

first_of_two : Route → Option Route → Route
first_of_two r none = r
first_of_two r (some s) = if precedes r s then r else s

-- `routes.first()`
unfoldable pub first_route : (Route → Bool) → List Route → Option Route
unfolding first_of_two precedes
first_route p [] = none
first_route p (r ∷ rs) =
    let rest = first_route p rs in if p r then some (first_of_two r rest) else rest

-- `not [c for c in required if c not in pool_caps]`
unfoldable pub covers : List String → List String → Bool
covers pool_capabilities required = all_rows (contains pool_capabilities) required

-- The pools matched for the targets so far, or the reason to stop.
pub data Matched : Type 0 where
  pools : List RunnerPool → Matched
  failed : RouteReason → Matched

unfoldable pub match_route : List RunnerPool → Option Route → Matched
match_route all none = failed route_miss
match_route all (some r) = elim (find_row r.pool_id all) [
  | none ↦ failed route_miss
  | some pool ↦
      if covers pool.capabilities r.required_capabilities
      then pools (pool ∷ [])
      else failed missing_required_capability
]

unfoldable pub after : Matched → Matched → Matched
after (failed reason) rest = failed reason
after (pools ps) (failed reason) = failed reason
after (pools []) (pools qs) = pools qs
after (pools (p ∷ _)) (pools qs) = pools (p ∷ qs)

-- The loop over the targets.
unfoldable pub match_targets : List RunnerPool → List Route → ℕ → List Target → Matched
unfolding after
match_targets all routes organization_id [] = pools []
match_targets all routes organization_id (t ∷ ts) =
    after (match_route all (first_route (serves organization_id t) routes))
      (match_targets all routes organization_id ts)

-- A runner of the pool that is active and was heard of since `online_threshold`.
is_since : Option ℕ → ℕ → Bool
is_since none t = false
is_since (some u) t = leb t u

unfoldable pub is_online : RunnerPool → ℕ → Runner → Bool
unfolding is_since
is_online pool online_threshold r =
    r.pool_id == pool.id && (is_active r.status && is_since r.last_heartbeat_at online_threshold)

-- The checks on the one pool that all targets map to.
unfoldable pub check_pool :
    RoutedChange → ℕ → List Runner → RunnerPool → PoolStatus → Option RunnerPool × RouteReason
check_pool change online_threshold runners pool PoolStatus.draining = (none, pool_draining)
check_pool change online_threshold runners pool PoolStatus.disabled = (none, pool_disabled)
check_pool change online_threshold runners pool PoolStatus.active =
    if not (covers pool.capabilities change.required_runner_capabilities)
    then (none, missing_required_capability)
    else if any_row (is_online pool online_threshold) runners
    then (some pool, ok)
    else (none, no_online_runner)

unfoldable pub choose_pool :
    RoutedChange → ℕ → List Runner → Matched → Option RunnerPool × RouteReason
unfolding check_pool
choose_pool change online_threshold runners (failed reason) = (none, reason)
choose_pool change online_threshold runners (pools []) = (none, no_targets)
choose_pool change online_threshold runners (pools (p ∷ ps)) =
    if all_rows (λ q. q.id == p.id) ps
    then check_pool change online_threshold runners p p.status
    else (none, multi_pool_unsupported)

-- `find_pool_for_change(change)` at the instant `now`, with `RUNNER_ONLINE_SECONDS`.
unfoldable pub find_pool_for_change : RoutedChange → ℕ → ℕ → World → Option RunnerPool × RouteReason
unfolding choose_pool match_targets
find_pool_for_change change now online_seconds w = elim change.targets [
  | [] ↦ (none, no_targets)
  | t ∷ ts ↦
      if any_row (λ r. r.organization_id == change.organization_id && r.is_active) w.routes
      then choose_pool change (now - online_seconds) w.runners
          (match_targets w.pools w.routes change.organization_id (t ∷ ts))
      else (none, no_routes_configured)
]
