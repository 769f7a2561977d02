-- ===== src/Runners/Liveness.antt =====
-- Heartbeats of runners and the watchdog that marks stale runners offline, in
-- apps/api/apps/runners/services.py.
use Prim.Native.Nat.{ℕ, ◌-◌}
use Prim.Native.String.{String}
use mathlib.Core.Bool.{Bool, false, ◌&&◌, ◌||◌}
use mathlib.Core.Option.{Option, none, some}
use mathlib.Core.List.{List, [], ◌∷◌, ◌++◌}
use runbook_platform.Prelude.Tests.{ltb, ◌==◌, nat_eq, string_eq, if◌then◌else◌}
use runbook_platform.Prelude.Tables.{select, find_row}
use runbook_platform.Prelude.Effects.{ok, err, invalid_state_transition}
use runbook_platform.Audit.{AuditEvent, system_actor, text, number, instant}
use runbook_platform.Store.{World, Service, emit}
use runbook_platform.Runners.Model.{RunnerStatus, Runner, runner_row}
use runbook_platform.Runners.Fleet.{is_registered, is_active, is_draining, is_offline, save_runner}

-- The columns that a heartbeat saves, by what the caller's object `seen` holds: a version or a host
-- name only if it is given and differs, the status only for a runner that had not been seen yet.
unfoldable pub write_heartbeat : ℕ → String → String → Runner → Runner → Runner
write_heartbeat now runner_version hostname seen r = record r {
  last_heartbeat_at = some now;
  last_seen_at = some now;
  runner_version =
      if runner_version == "" || runner_version == seen.runner_version
      then r.runner_version
      else runner_version;
  hostname = if hostname == "" || hostname == seen.hostname then r.hostname else hostname;
  status = if is_registered seen.status then RunnerStatus.active else r.status;
}

unfoldable pub update_runner_heartbeat : Runner → ℕ → String → String → Service Runner
update_runner_heartbeat runner now runner_version hostname w =
    let write = write_heartbeat now runner_version hostname runner in
    if is_offline runner.status
    then (err (invalid_state_transition "runner_lease_expired"), w)
    else (ok (write runner), save_runner runner write w)

-- `last_heartbeat_at__lt=stale_before`: a missing instant is not before any other.
abbrev pub is_before : Option ℕ → ℕ → Bool
is_before none t = false
is_before (some u) t = ltb u t

-- The filter of the sweep, both for the candidates and for the row under the lock.
unfoldable pub is_stale : ℕ → Runner → Bool
is_stale stale_before r =
    (is_active r.status || is_draining r.status) && is_before r.last_heartbeat_at stale_before

abbrev runner_status_value : RunnerStatus → String
runner_status_value RunnerStatus.registered = "registered"
runner_status_value RunnerStatus.active = "active"
runner_status_value RunnerStatus.draining = "draining"
runner_status_value RunnerStatus.offline = "offline"
runner_status_value RunnerStatus.disabled = "disabled"
runner_status_value RunnerStatus.revoked = "revoked"

went_offline_event : ℕ → Runner → AuditEvent
went_offline_event threshold r = record {
  organization_id = r.organization_id;
  actor = system_actor "Django system";
  event_type = "runner.went_offline";
  object_type = "runner";
  object_id = r.id;
  metadata =
      ("previous_status", text (runner_status_value r.status))
      ∷ ("new_status", text "offline")
      ∷ ("reason", text "watchdog_heartbeat_timeout")
      ∷ ("offline_threshold_seconds", number threshold)
      ∷ ("last_heartbeat_at", instant r.last_heartbeat_at)
      ∷ [];
}

-- One candidate under its lock: skipped if its row is gone or no longer stale.
unfoldable pub mark_offline : ℕ → ℕ → Option Runner → World → List ℕ × World
unfolding went_offline_event
mark_offline threshold stale_before none w = ([], w)
mark_offline threshold stale_before (some runner) w =
    if is_stale stale_before runner
    then (
      runner.id ∷ [],
      emit (went_offline_event threshold runner)
          (save_runner runner (λ r. record r { status = RunnerStatus.offline }) w),
    )
    else ([], w)

-- The loop over the candidate ids.
unfoldable pub mark_each_offline : ℕ → ℕ → List Runner → World → List ℕ × World
mark_each_offline threshold stale_before [] w = ([], w)
mark_each_offline threshold stale_before (c ∷ rest) w =
    let (marked, w') = mark_offline threshold stale_before (find_row c.id w.runners) w in
    let (others, w'') = mark_each_offline threshold stale_before rest w' in (marked ++ others, w'')

-- `offline_threshold_seconds or settings.RUNNER_OFFLINE_SECONDS`
unfoldable pub offline_threshold : Option ℕ → ℕ → ℕ
offline_threshold none setting = setting
offline_threshold (some seconds) setting = if seconds == 0 then setting else seconds

-- `mark_stale_runners_offline(offline_threshold_seconds=)`: the ids marked, in order.
unfoldable pub mark_stale_runners_offline : Option ℕ → ℕ → ℕ → World → List ℕ × World
mark_stale_runners_offline offline_threshold_seconds setting now w =
    let threshold = offline_threshold offline_threshold_seconds setting in
    let stale_before = now - threshold in
    mark_each_offline threshold stale_before (select (is_stale stale_before) w.runners) w
