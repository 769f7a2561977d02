-- ===== src/Scenarios/Fleet.antt =====
-- Pools, runners and routes of apps/api/apps/runners on which the theorems are applied.
use native.Mathlib.Omega.{arith}
use runbook_platform.Prelude.Tests.{◌==◌, string_eq}
use runbook_platform.Prelude.Tables.{any_row, find_row, count_rows}
use runbook_platform.Runners.Registration.{
  validate_registration_token, RegistrationRequest, register_runner,
}
use runbook_platform.Runners.Activation.{create_registration_token}
use runbook_platform.Runners.Issued.{issued, issued_world, create_registration_token-validates}
use Prim.Native.Nat.{◌-◌}
use Prim.Native.String
use Prim.Native.String.{String}
use runbook_platform.Runners.Revocation.{Call, Reached, after_call, IsRevoked, Reached-IsRevoked}
use runbook_platform.Runners.Admission.{Admits, register_runner-Admits}
use mathlib.Core.Path.{◌≡◌, refl}
use mathlib.Core.Bool.{true, false}
use runbook_platform.Prelude.Effects.{ok}
use runbook_platform.Runners.Model.{
  RegistrationToken, PoolStatus, RunnerPool, pool_row, RunnerStatus, Runner, runner_row, Route,
  LeaseStatus, ExecutionLease,
}
use mathlib.Core.Option
use mathlib.Core.Option.{Option, none, some}
use mathlib.Core.List.{[], ◌∷◌}
use runbook_platform.Prelude.Json.{Json}
use runbook_platform.Store.{World, empty_world}
use runbook_platform.Executions.Model.{Execution, ExecutionStatus, ExecutionMode}
use runbook_platform.Runners.Scheduling.{
  schedule_execution_claim, active_leases, of_runner, of_pool, of_organization,
}
use runbook_platform.Runners.Limits.{WithinLimits, schedule_execution_claim-WithinLimits}
use runbook_platform.Runners.Claims.{Grants, schedule_execution_claim-Grants}
use runbook_platform.Runners.Liveness.{offline_threshold, mark_stale_runners_offline}
use runbook_platform.Runners.Sweep.{offline_if_stale, mark_stale_runners_offline-rows}
use runbook_platform.Runners.Routing.{RoutedChange, find_pool_for_change}
use runbook_platform.Runners.Routes.{Answers, find_pool_for_change-Answers}

abbrev main_pool : RunnerPool
main_pool = record {
  id = 20;
  organization_id = 10;
  key = "default";
  status = PoolStatus.active;
  max_concurrent_executions = 2;
  default_for_non_change_executions = true;
  capabilities = "shell" ∷ "docker" ∷ [];
  drain_requested_at = none;
  disabled_at = none;
}

abbrev busy_runner : Runner
busy_runner = record {
  id = 7;
  organization_id = 10;
  pool_id = 20;
  display_name = "runner-7";
  status = RunnerStatus.active;
  runner_version = "1.4.0";
  hostname = "host-7";
  fingerprint_sha256 = "";
  token_hash = "";
  registered_at = some 1;
  last_seen_at = some 90;
  last_heartbeat_at = some 90;
  drain_requested_at = none;
  disabled_at = none;
  revoked_at = none;
  accepted_labels = [];
  accepted_capabilities = [];
}

abbrev pub idle_runner : Runner
idle_runner = record busy_runner { id = 8; last_heartbeat_at = some 480 }

abbrev queued_execution : Execution
queued_execution = record {
  id = 1;
  organization_id = 10;
  workflow_id = 5;
  workflow_version = 2;
  workflow_snapshot = Json.null;
  workflow_snapshot_hash_sha256 = "";
  execution_mode = ExecutionMode.live;
  status = ExecutionStatus.queued;
  created_at = 100;
  started_at = none;
  finished_at = none;
  claimed_by_runner_id = "";
  claim_token = none;
  claimed_at = none;
  last_heartbeat_at = none;
  runner_pool_key = "";
  cancel_requested_at = none;
  cancel_requested_by = "";
}

abbrev held_lease : ExecutionLease
held_lease = record {
  execution_id = 9;
  organization_id = 10;
  runner_id = 7;
  pool_id = 20;
  status = LeaseStatus.active;
  claimed_at = 80;
  last_heartbeat_at = some 90;
  released_at = none;
  release_reason = "";
}

abbrev any_host : Route
any_host = record {
  id = 30;
  organization_id = 10;
  environment = "production";
  target_type = "host";
  normalized_identifier_pattern = "*";
  pool_id = 20;
  required_capabilities = "shell" ∷ [];
  priority = 100;
  is_active = true;
}

abbrev fleet_world : World
fleet_world = record empty_world {
  pools = main_pool ∷ [];
  runners = busy_runner ∷ idle_runner ∷ [];
  routes = any_host ∷ [];
  executions = queued_execution ∷ [];
  leases = held_lease ∷ [];
}

fleet_within : WithinLimits 5 fleet_world
unfolding active_leases of_runner of_pool of_organization count_rows find_row
fleet_within = record {
  runner_limit = λ k. ground arith;
  pool_limit = λ k p found. ground arith;
  organization_limit = λ k. ground arith;
}

schedule_execution_claim-WithinLimits_example :
    WithinLimits 5 (schedule_execution_claim idle_runner 5 500 "token" fleet_world).1
schedule_execution_claim-WithinLimits_example =
    schedule_execution_claim-WithinLimits idle_runner 5 500 "token" fleet_world fleet_within

schedule_execution_claim-Grants_example :
    Grants idle_runner 5 500 "token" fleet_world
      (schedule_execution_claim idle_runner 5 500 "token" fleet_world)
schedule_execution_claim-Grants_example =
    schedule_execution_claim-Grants idle_runner 5 500 "token" fleet_world

mark_stale_runners_offline-rows_example :
    find_row 7 (mark_stale_runners_offline (some 0) 90 500 fleet_world).1.runners
    ≡ Option.map
        (offline_if_stale (500 - offline_threshold (some 0) 90))
        (find_row 7 fleet_world.runners)
mark_stale_runners_offline-rows_example =
    mark_stale_runners_offline-rows (some 0) 90 500 7 fleet_world

abbrev patch_hosts : RoutedChange
patch_hosts = record {
  organization_id = 10;
  targets =
      record { target_type = "host"; normalized_identifier = "db-1"; environment = "production" }
      ∷ record { target_type = "host"; normalized_identifier = "db-2"; environment = "production" }
      ∷ [];
  required_runner_capabilities = "docker" ∷ [];
}

find_pool_for_change-Answers_example :
    Answers patch_hosts (500 - 60) fleet_world (find_pool_for_change patch_hosts 500 60 fleet_world)
find_pool_for_change-Answers_example = find_pool_for_change-Answers patch_hosts 500 60 fleet_world

-- A digest that a test can read.
abbrev plain_digest : String → String
plain_digest s = String.◌++◌ "sha256:" s

abbrev pool_token : RegistrationToken
pool_token = record {
  id = 70;
  organization_id = 10;
  pool_id = 20;
  token_hash = plain_digest "rt";
  label_policy = [];
  capability_policy = "shell" ∷ [];
  expires_at = 900;
  max_registrations = 2;
  used_count = 1;
  revoked_at = none;
}

abbrev sign_up : RegistrationRequest
sign_up = record {
  registration_token = "rt";
  display_name = "runner-9";
  runner_version = "1.4.0";
  fingerprint_sha256 = "f9";
  hostname = "host-9";
  labels = ("zone", "a") ∷ [];
  capabilities = "shell" ∷ "gpu" ∷ [];
  organization_id = some 10;
  pool_key = "default";
  now = 500;
  clear_token = "secret";
  fresh_id = 9;
}

abbrev admission_world : World
admission_world = record fleet_world { registration_tokens = pool_token ∷ [] }

register_runner-Admits_example :
    Admits plain_digest sign_up admission_world
      (register_runner plain_digest sign_up admission_world)
register_runner-Admits_example = register_runner-Admits plain_digest sign_up admission_world

abbrev revoked_world : World
revoked_world = record fleet_world {
  runners =
      record busy_runner { status = RunnerStatus.revoked; revoked_at = some 95 } ∷ idle_runner ∷ [];
}

busy_runner-IsRevoked : IsRevoked 7 revoked_world
unfolding find_row
busy_runner-IsRevoked = record {
  runner = record busy_runner { status = RunnerStatus.revoked; revoked_at = some 95 };
  found = refl;
  revoked = refl;
}

Reached-IsRevoked_example :
    IsRevoked 7
      (after_call (Call.drain 7 510) (after_call (Call.heartbeat 7 505 "1.5.0" "") revoked_world))
Reached-IsRevoked_example =
    Reached-IsRevoked revoked_world _ 7
      (Reached.call (Reached.call Reached.start (Call.heartbeat 7 505 "1.5.0" ""))
        (Call.drain 7 510))
      busy_runner-IsRevoked

unused_digest :
    any_row
      (λ (t : RegistrationToken). t.token_hash == plain_digest "fresh")
      fleet_world.registration_tokens
    ≡ false
unfolding any_row
unused_digest = refl

main_pool_found : find_row main_pool.id fleet_world.pools ≡ some main_pool
unfolding find_row
main_pool_found = refl

create_registration_token-validates_example :
    (create_registration_token plain_digest 10 44 "fresh" main_pool 900 1 [] [] fleet_world ≡ (
      ok (issued plain_digest 44 "fresh" main_pool 900 1 [] [] fleet_world, "fresh"),
      issued_world plain_digest 44 "fresh" main_pool 900 1 [] [] fleet_world,
    ))
    × (validate_registration_token plain_digest "fresh" none "" 800
          (issued_world plain_digest 44 "fresh" main_pool 900 1 [] [] fleet_world)
        ≡ (
          ok (issued plain_digest 44 "fresh" main_pool 900 1 [] [] fleet_world, main_pool),
          issued_world plain_digest 44 "fresh" main_pool 900 1 [] [] fleet_world,
        ))
create_registration_token-validates_example =
    create_registration_token-validates plain_digest 44 "fresh" main_pool 900 1 [] [] fleet_world
      800 unused_digest main_pool_found refl (omega arith) (omega arith)
