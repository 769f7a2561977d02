-- ===== src/Runners/Registration.antt =====
-- Registration tokens and the registration of runners in apps/api/apps/runners/services.py.
use Prim.Native.Nat.{ℕ, suc}
use Prim.Native.String.{String}
use mathlib.Core.Bool.{Bool, true, false, ◌&&◌, not}
use mathlib.Core.Option.{Option, none, some}
use mathlib.Core.List.{List, [], ◌∷◌, ◌++◌}
use runbook_platform.Prelude.Tests.{ltb, leb, ◌==◌, nat_eq, string_eq, is_some, if◌then◌else◌}
use runbook_platform.Prelude.Tables.{select, earliest, find_where, find_row, update_row}
use runbook_platform.Prelude.Effects.{
  ok, err, Error, domain_validation, invalid_state_transition, not_found, ◌>>=◌, require, pure,
  ◌>>◌, raise_if, atomic,
}
use runbook_platform.Prelude.Text.{id_text}
use runbook_platform.Audit.{ActorType, AuditEvent, text}
use runbook_platform.Store.{World, Service, emit}
use runbook_platform.Runners.Model.{
  RunnerStatus, RunnerPool, pool_row, Runner, runner_row, RegistrationToken, registration_token_row,
}
use runbook_platform.Runners.Fleet.{is_revoked, pool_is_active, save_runner}

-- An id that the caller gives and that is not the row's; "" is no id.
abbrev differs : Option ℕ → ℕ → Bool
differs none own = false
differs (some given) own = not (given == own)

-- The checks of `validate_registration_token` on the token that was found and its pool, in order.
unfoldable pub check_registration_token :
    RegistrationToken → RunnerPool → ℕ → Option ℕ → String → Option Error
check_registration_token token pool now organization_id pool_key =
    if is_some token.revoked_at
    then some (domain_validation "registration_token_revoked")
    else if ltb token.expires_at now
    then some (domain_validation "registration_token_expired")
    else if leb token.max_registrations token.used_count
    then some (domain_validation "registration_token_exhausted")
    else if differs organization_id token.organization_id
    then some (domain_validation "registration_scope_mismatch")
    else if not (pool_key == "") && not (pool.key == pool_key)
    then some (domain_validation "registration_scope_mismatch")
    else if not (pool.organization_id == token.organization_id)
    then some (domain_validation "registration_scope_mismatch")
    else if not (pool_is_active pool.status)
    then some (domain_validation "pool_not_active")
    else none

-- The arguments of `register_runner`, and what the library calls return during it: the clock, the
-- bearer token of `secrets.token_hex` and the key of a row that is created.
pub record RegistrationRequest : Type 0 where
  pub registration_token : String
  pub display_name : String
  pub runner_version : String
  pub fingerprint_sha256 : String
  pub hostname : String
  pub labels : List (String × String)
  pub capabilities : List String
  pub organization_id : Option ℕ
  pub pool_key : String
  pub now : ℕ
  pub clear_token : String
  pub fresh_id : ℕ

unfoldable pub contains : List String → String → Bool
contains [] s = false
contains (x ∷ xs) s = let rest = contains xs s in if x == s then true else rest

-- An empty policy allows everything; else what it does not name is dropped.
unfoldable pub accept_labels : List String → List (String × String) → List (String × String)
accept_labels [] labels = labels
accept_labels (p ∷ ps) labels = select (λ l. contains (p ∷ ps) l.0) labels

unfoldable pub accept_capabilities : List String → List String → List String
accept_capabilities [] capabilities = capabilities
accept_capabilities (p ∷ ps) capabilities = select (contains (p ∷ ps)) capabilities

-- The columns that a registration writes on a runner that comes back.
unfoldable pub write_reregistered :
    RegistrationToken → RegistrationRequest → String → Runner → Runner
write_reregistered token request token_hash r = record r {
  status = RunnerStatus.active;
  token_hash = token_hash;
  runner_version = request.runner_version;
  hostname = request.hostname;
  display_name = request.display_name;
  last_seen_at = some request.now;
  last_heartbeat_at = some request.now;
  accepted_labels = accept_labels token.label_policy request.labels;
  accepted_capabilities = accept_capabilities token.capability_policy request.capabilities;
}

unfoldable pub new_runner : RegistrationToken → RunnerPool → RegistrationRequest → String → Runner
new_runner token pool request token_hash = record {
  id = request.fresh_id;
  organization_id = token.organization_id;
  pool_id = pool.id;
  display_name = request.display_name;
  status = RunnerStatus.active;
  runner_version = request.runner_version;
  hostname = request.hostname;
  fingerprint_sha256 = request.fingerprint_sha256;
  token_hash = token_hash;
  registered_at = some request.now;
  last_seen_at = some request.now;
  last_heartbeat_at = some request.now;
  drain_requested_at = none;
  disabled_at = none;
  revoked_at = none;
  accepted_labels = accept_labels token.label_policy request.labels;
  accepted_capabilities = accept_capabilities token.capability_policy request.capabilities;
}

-- A runner of the pool with the same fingerprint whose credentials are not revoked.
unfoldable pub is_returning : RunnerPool → String → Runner → Bool
is_returning pool fingerprint r =
    r.pool_id == pool.id && (r.fingerprint_sha256 == fingerprint && not (is_revoked r.status))

unfoldable pub find_existing : RunnerPool → String → List Runner → Option Runner
unfolding is_returning
find_existing pool fingerprint runners =
    if fingerprint == "" then none else earliest (λ r. r.id) (is_returning pool fingerprint) runners

unfoldable pub save_registered :
    RegistrationToken
    → RunnerPool
    → RegistrationRequest
    → String
    → Option Runner
    → World
    → Runner × World
save_registered token pool request token_hash (some runner) w =
    let write = write_reregistered token request token_hash in
    (write runner, save_runner runner write w)
save_registered token pool request token_hash none w =
    let runner = new_runner token pool request token_hash in
    (runner, record w { runners = w.runners ++ runner ∷ [] })

registered_event : RegistrationToken → RunnerPool → RegistrationRequest → Runner → AuditEvent
registered_event token pool request runner = record {
  organization_id = token.organization_id;
  actor = record {
    actor_type = ActorType.runner;
    actor_id = id_text runner.id;
    actor_label = runner.display_name;
  };
  event_type = "runner.registered";
  object_type = "runner";
  object_id = runner.id;
  metadata =
      ("pool_key", text pool.key)
      ∷ ("runner_version", text request.runner_version)
      ∷ ("hostname", text request.hostname)
      ∷ [];
}

-- `reg_token.used_count += 1` and its save.
unfoldable pub count_use : RegistrationToken → World → World
count_use token w = record w {
  registration_tokens =
      update_row token.id (λ t. record t { used_count = suc token.used_count })
        w.registration_tokens;
}

-- `hash_token` is `_hash_token`, the hex digest of SHA-256.
module _ (hash_token : String → String) where
  unfoldable pub validate_registration_token :
      String → Option ℕ → String → ℕ → Service (RegistrationToken × RunnerPool)
  unfolding check_registration_token
  validate_registration_token registration_token organization_id pool_key now = do
    token ← λ (w : World).
        require (domain_validation "invalid_registration_token")
          (find_where (λ (t : RegistrationToken). t.token_hash == hash_token registration_token)
            w.registration_tokens)
          w
    pool ← λ (w : World). require not_found (find_row token.pool_id w.pools) w
    raise_if (check_registration_token token pool now organization_id pool_key)
    pure (token, pool)

  -- The rest of `register_runner`, once the token is accepted.
  unfoldable pub admit_runner :
      RegistrationRequest → RegistrationToken × RunnerPool → Service (Runner × String)
  unfolding find_existing save_registered count_use registered_event
  admit_runner request (token, pool) w =
      let (runner, w') =
        save_registered token pool request (hash_token request.clear_token)
          (find_existing pool request.fingerprint_sha256 w.runners) w in
      (
        ok (runner, request.clear_token),
        emit (registered_event token pool request runner) (count_use token w'),
      )

  unfoldable pub register_runner : RegistrationRequest → Service (Runner × String)
  unfolding validate_registration_token admit_runner
  register_runner request = atomic (do
    found ←
        validate_registration_token request.registration_token request.organization_id
          request.pool_key request.now
    admit_runner request found)

unfoldable pub revoke_registration_token : RegistrationToken → ℕ → Service RegistrationToken
revoke_registration_token token now w =
    if is_some token.revoked_at
    then (err (invalid_state_transition "token_already_revoked"), w)
    else (
      ok (record token { revoked_at = some now }),
      record w {
        registration_tokens =
            update_row token.id (λ t. record t { revoked_at = some now }) w.registration_tokens;
      },
    )
