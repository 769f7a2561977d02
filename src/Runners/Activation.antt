-- ===== src/Runners/Activation.antt =====
-- Connectivity routes and the creation of registration tokens in
-- apps/api/apps/runners/services.py.
use Prim.Native.Nat.{ℕ}
use Prim.Native.String.{String}
use mathlib.Core.Bool.{Bool, true, false, not}
use mathlib.Core.Option.{Option, none, some}
use mathlib.Core.List.{List, [], ◌∷◌, ◌++◌}
use runbook_platform.Prelude.Tests.{◌==◌, nat_eq, string_eq, if◌then◌else◌}
use runbook_platform.Prelude.Tables.{any_row, find_row, update_row}
use runbook_platform.Prelude.Effects.{
  ok, err, invalid_state_transition, domain_validation, integrity_error, not_found,
}
use runbook_platform.Store.{World, Service}
use runbook_platform.Runners.Model.{
  RunnerPool, pool_row, RegistrationToken, registration_token_row, Route, route_row,
}
use runbook_platform.Runners.Fleet.{pool_is_active}

abbrev save_active : Route → Bool → World → World
save_active r b w = record w {
  routes = update_row r.id (λ (x : Route). record x { is_active = b }) w.routes;
}

-- The route is the caller's object.
unfoldable pub deactivate_route : Route → Service Route
deactivate_route r w =
    if not r.is_active
    then (err (invalid_state_transition "route_already_inactive"), w)
    else (ok (record r { is_active = false }), save_active r false w)

reactivate_in : Route → Option RunnerPool → Service Route
reactivate_in r none w = (err not_found, w)
reactivate_in r (some pool) w =
    if not (pool_is_active pool.status)
    then (err (invalid_state_transition "pool_not_active"), w)
    else (ok (record r { is_active = true }), save_active r true w)

-- The pool's status is read again.
unfoldable pub reactivate_route : Route → Service Route
unfolding reactivate_in
reactivate_route r w =
    if r.is_active
    then (err (invalid_state_transition "route_already_active"), w)
    else reactivate_in r (find_row r.pool_id w.pools) w

module _ (hash_token : String → String) where
  -- The row of the arguments, under a new key and with the hash of the clear token.
  unfoldable pub new_token :
      ℕ → String → RunnerPool → ℕ → ℕ → List String → List String → RegistrationToken
  new_token fresh_id clear pool expires_at max_registrations labels capabilities = record {
    id = fresh_id;
    organization_id = pool.organization_id;
    pool_id = pool.id;
    token_hash = hash_token clear;
    label_policy = labels;
    capability_policy = capabilities;
    expires_at = expires_at;
    max_registrations = max_registrations;
    used_count = 0;
    revoked_at = none;
  }

  -- The digest of a token is unique in the table.
  unfoldable pub insert_token : RegistrationToken → String → Service (RegistrationToken × String)
  insert_token t clear w =
      if any_row (λ (x : RegistrationToken). x.token_hash == t.token_hash) w.registration_tokens
      then (err integrity_error, w)
      else (ok (t, clear), record w { registration_tokens = w.registration_tokens ++ t ∷ [] })

  unfoldable pub create_registration_token :
      ℕ
      → ℕ
      → String
      → RunnerPool
      → ℕ
      → ℕ
      → List String
      → List String
      → Service (RegistrationToken × String)
  unfolding insert_token new_token
  create_registration_token organization_id fresh_id clear pool expires_at max_registrations labels
        capabilities w =
      if not (pool.organization_id == organization_id)
      then (err (domain_validation "registration_scope_mismatch"), w)
      else insert_token
          (new_token fresh_id clear pool expires_at max_registrations labels capabilities) clear w
