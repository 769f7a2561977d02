-- ===== src/Runners/Fleet.antt =====
-- The state changes of pools and runners in apps/api/apps/runners/services.py. Each call checks the
-- object that it is given and saves the changed columns to that object's row.
use Prim.Native.Nat.{ℕ}
use mathlib.Core.Bool.{Bool, true, false, ◌||◌}
use mathlib.Core.Option.{none, some}
use runbook_platform.Prelude.Tests.{if◌then◌else◌}
use runbook_platform.Prelude.Tables.{update_row}
use runbook_platform.Prelude.Effects.{ok, err, invalid_state_transition}
use runbook_platform.Store.{World, Service}
use runbook_platform.Runners.Model.{
  PoolStatus, RunnerPool, pool_row, RunnerStatus, Runner, runner_row, registration_token_row,
}

abbrev pub pool_is_active : PoolStatus → Bool
pool_is_active PoolStatus.active = true
pool_is_active _ = false

abbrev pub pool_is_draining : PoolStatus → Bool
pool_is_draining PoolStatus.draining = true
pool_is_draining _ = false

abbrev pub pool_is_disabled : PoolStatus → Bool
pool_is_disabled PoolStatus.disabled = true
pool_is_disabled _ = false

abbrev pub save_pool : RunnerPool → (RunnerPool → RunnerPool) → World → World
save_pool pool f w = record w { pools = update_row pool.id f w.pools }

pub write_draining : ℕ → RunnerPool → RunnerPool
write_draining now p = record p { status = PoolStatus.draining; drain_requested_at = some now }

pub write_disabled : ℕ → RunnerPool → RunnerPool
write_disabled now p = record p { status = PoolStatus.disabled; disabled_at = some now }

pub write_reactivated : RunnerPool → RunnerPool
write_reactivated p = record p {
  status = PoolStatus.active;
  drain_requested_at = none;
  disabled_at = none;
}

unfoldable pub drain_pool : RunnerPool → ℕ → Service RunnerPool
unfolding write_draining
drain_pool pool now w =
    if pool_is_disabled pool.status
    then (err (invalid_state_transition "pool_disabled"), w)
    else if pool_is_draining pool.status
    then (err (invalid_state_transition "pool_already_draining"), w)
    else (ok (write_draining now pool), save_pool pool (write_draining now) w)

unfoldable pub disable_pool : RunnerPool → ℕ → Service RunnerPool
unfolding write_disabled
disable_pool pool now w =
    if pool_is_disabled pool.status
    then (err (invalid_state_transition "pool_already_disabled"), w)
    else (ok (write_disabled now pool), save_pool pool (write_disabled now) w)

unfoldable pub reactivate_pool : RunnerPool → Service RunnerPool
unfolding write_reactivated
reactivate_pool pool w =
    if pool_is_active pool.status
    then (err (invalid_state_transition "pool_already_active"), w)
    else (ok (write_reactivated pool), save_pool pool write_reactivated w)

abbrev pub is_registered : RunnerStatus → Bool
is_registered RunnerStatus.registered = true
is_registered _ = false

abbrev pub is_active : RunnerStatus → Bool
is_active RunnerStatus.active = true
is_active _ = false

abbrev pub is_draining : RunnerStatus → Bool
is_draining RunnerStatus.draining = true
is_draining _ = false

abbrev pub is_offline : RunnerStatus → Bool
is_offline RunnerStatus.offline = true
is_offline _ = false

abbrev pub is_disabled : RunnerStatus → Bool
is_disabled RunnerStatus.disabled = true
is_disabled _ = false

abbrev pub is_revoked : RunnerStatus → Bool
is_revoked RunnerStatus.revoked = true
is_revoked _ = false

abbrev pub save_runner : Runner → (Runner → Runner) → World → World
save_runner runner f w = record w { runners = update_row runner.id f w.runners }

unfoldable pub write_runner_draining : ℕ → Runner → Runner
write_runner_draining now r = record r {
  status = RunnerStatus.draining;
  drain_requested_at = some now;
}

unfoldable pub write_runner_disabled : ℕ → Runner → Runner
write_runner_disabled now r = record r { status = RunnerStatus.disabled; disabled_at = some now }

unfoldable pub write_runner_revoked : ℕ → Runner → Runner
write_runner_revoked now r = record r { status = RunnerStatus.revoked; revoked_at = some now }

unfoldable pub drain_runner : Runner → ℕ → Service Runner
unfolding write_runner_draining
drain_runner runner now w =
    if is_disabled runner.status || is_revoked runner.status
    then (err (invalid_state_transition "runner_not_drainable"), w)
    else if is_draining runner.status
    then (err (invalid_state_transition "runner_already_draining"), w)
    else (ok (write_runner_draining now runner), save_runner runner (write_runner_draining now) w)

unfoldable pub disable_runner : Runner → ℕ → Service Runner
unfolding write_runner_disabled
disable_runner runner now w =
    if is_revoked runner.status
    then (err (invalid_state_transition "runner_revoked"), w)
    else if is_disabled runner.status
    then (err (invalid_state_transition "runner_already_disabled"), w)
    else (ok (write_runner_disabled now runner), save_runner runner (write_runner_disabled now) w)

unfoldable pub revoke_runner : Runner → ℕ → Service Runner
unfolding write_runner_revoked
revoke_runner runner now w =
    if is_revoked runner.status
    then (err (invalid_state_transition "runner_already_revoked"), w)
    else (ok (write_runner_revoked now runner), save_runner runner (write_runner_revoked now) w)
