-- ===== src/Runners/Admission.antt =====
-- What a registration of apps/api/apps/runners/services.py admits.
use Prim.Native.Nat.{ℕ, suc, ◌<◌, ◌≤◌}
use Prim.Native.String.{String}
use mathlib.Core.Path.{◌≡◌, refl}
use mathlib.Core.Bool.{Bool, true, false}
use mathlib.Core.Option.{Option, none, some}
use mathlib.Core.Logic.{inl, inr}
use mathlib.Core.List.{List, [], ◌∷◌, Memᴰ}
use mathlib.Core.List.Memᴰ
use native.Mathlib.Omega.{arith}
use runbook_platform.Prelude.Tests.{
  Bool-cases, Option-cases, ◌==◌, nat_eq, string_eq, eq_iff, is_some,
}
use runbook_platform.Prelude.Tables.{
  All, select, find_row, find_where, earliest, earliest_satisfies,
}
use runbook_platform.Prelude.Members.{Memᴰ-earliest, Memᴰ-update_row, Memᴰ-find_where}
use runbook_platform.Prelude.Effects.{Result, ok, err, commit_or_rollback}
use runbook_platform.Store.{World}
use runbook_platform.Runners.Model.{
  RunnerPool, pool_row, Runner, runner_row, RegistrationToken, registration_token_row,
}
use runbook_platform.Runners.Fleet.{pool_is_active, is_active}
use runbook_platform.Runners.Registration.{
  check_registration_token, RegistrationRequest, contains, accept_capabilities, write_reregistered,
  new_runner, find_existing, is_returning, count_use, save_registered, validate_registration_token,
  admit_runner, register_runner,
}

select-All : {A : Type 0} (p : A → Bool) (xs : List A) → All (λ x. p x ≡ true) (select p xs)
unfolding select
select-All p [] = tt
select-All p (x ∷ xs) = elim (Bool-cases (p x)) [
  | inl e ↦ rw e (e, select-All p xs)
  | inr e ↦ rw e (select-All p xs)
]

-- The capabilities are among those of the policy, which allows all if it names none.
abbrev pub WithinPolicy : List String → List String → Type 0
WithinPolicy [] capabilities = Unit
WithinPolicy (p ∷ ps) capabilities = All (λ c. contains (p ∷ ps) c ≡ true) capabilities

accept-WithinPolicy :
    (policy capabilities : List String)
    → WithinPolicy policy (accept_capabilities policy capabilities)
unfolding accept_capabilities
accept-WithinPolicy [] capabilities = tt
accept-WithinPolicy (p ∷ ps) capabilities = select-All (contains (p ∷ ps)) capabilities

-- The runner that a registration returns and stores in `v`, and the token and pool that admitted it.
pub record Admitted (hash_token : String → String) (request : RegistrationRequest) (v w : World)
    (r : Runner) : Type 0 where
  pub token : RegistrationToken
  pub token_found :
      find_where
        (λ (t : RegistrationToken). t.token_hash == hash_token request.registration_token)
        w.registration_tokens
      ≡ some token
  pub pool : RunnerPool
  pub pool_found : find_row token.pool_id w.pools ≡ some pool
  pub not_revoked : is_some token.revoked_at ≡ false
  pub not_expired : request.now ≤ token.expires_at
  pub uses_left : token.used_count < token.max_registrations
  pub pool_works : pool_is_active pool.status ≡ true
  pub same_organization : pool.organization_id ≡ token.organization_id
  pub works : is_active r.status ≡ true
  pub secret : r.token_hash ≡ hash_token request.clear_token
  pub within : WithinPolicy token.capability_policy r.accepted_capabilities
  pub own_pool : r.pool_id ≡ pool.id
  pub runner_stored : Memᴰ r v.runners
  pub use_counted : Memᴰ (record token { used_count = suc token.used_count }) v.registration_tokens

accepted :
    (token : RegistrationToken) (pool : RunnerPool) (now : ℕ) (org : Option ℕ) (key : String)
    → check_registration_token token pool now org key ≡ none
    → (is_some token.revoked_at ≡ false)
      × (now ≤ token.expires_at)
      × (token.used_count < token.max_registrations)
      × (pool_is_active pool.status ≡ true)
      × (pool.organization_id ≡ token.organization_id)
unfolding check_registration_token
accepted token pool now org key h = (
  ground arith,
  ground arith,
  ground arith,
  ground arith,
  ground (arith, eq_iff pool.organization_id token.organization_id),
)

find_existing-listed :
    (pool : RunnerPool) (fingerprint : String) (rs : List Runner) (r : Runner)
    → find_existing pool fingerprint rs ≡ some r
    → Memᴰ r rs × (r.pool_id ≡ pool.id)
unfolding find_existing is_returning
find_existing-listed pool fingerprint rs r h = elim (Bool-cases (fingerprint == "")) [
  | inl e ↦ absurd (ground (arith, h, e))
  | inr e ↦
      let found : earliest (λ (x : Runner). x.id) (is_returning pool fingerprint) rs ≡ some r =
        ground (arith, h, e) in
      (
        Memᴰ-earliest (λ (x : Runner). x.id) (is_returning pool fingerprint) rs r found,
        ground (
          arith,
          earliest_satisfies (λ (x : Runner). x.id) (is_returning pool fingerprint) rs r found,
          eq_iff r.pool_id pool.id,
        ),
      )
]

saved-works :
    (token : RegistrationToken) (pool : RunnerPool) (q : RegistrationRequest) (h : String)
    (w : World) (o : Option Runner)
    → find_existing pool q.fingerprint_sha256 w.runners ≡ o
    → (is_active (save_registered token pool q h o w).0.status ≡ true)
      × ((save_registered token pool q h o w).0.token_hash ≡ h)
      × WithinPolicy token.capability_policy
          (save_registered token pool q h o w).0.accepted_capabilities
      × ((save_registered token pool q h o w).0.pool_id ≡ pool.id)
      × Memᴰ (save_registered token pool q h o w).0 (save_registered token pool q h o w).1.runners
      × ((save_registered token pool q h o w).1.registration_tokens ≡ w.registration_tokens)
unfolding save_registered write_reregistered new_runner
saved-works token pool q h w (some r) found =
    let (listed, own) = find_existing-listed pool q.fingerprint_sha256 w.runners r found in
    (
      refl,
      refl,
      accept-WithinPolicy token.capability_policy q.capabilities,
      own,
      Memᴰ-update_row r.id (write_reregistered token q h) w.runners r refl listed,
      refl,
    )
saved-works token pool q h w none found = (
  refl,
  refl,
  accept-WithinPolicy token.capability_policy q.capabilities,
  refl,
  Memᴰ.append_right w.runners (Memᴰ.head refl),
  refl,
)

module _ (hash_token : String → String) (q : RegistrationRequest) (w : World) where
  abbrev pub Admits : Result (Runner × String) × World → Type 0
  Admits (ok (r, clear_token), v) = (clear_token ≡ q.clear_token) × Admitted hash_token q v w r
  Admits (err error, v) = v ≡ w

  admitted :
      (token : RegistrationToken) (pool : RunnerPool)
      → find_where
          (λ (t : RegistrationToken). t.token_hash == hash_token q.registration_token)
          w.registration_tokens
        ≡ some token
      → find_row token.pool_id w.pools ≡ some pool
      → check_registration_token token pool q.now q.organization_id q.pool_key ≡ none
      → Admits (admit_runner hash_token q (token, pool) w)
  unfolding admit_runner count_use
  admitted token pool found at h =
      let (not_revoked, not_expired, uses_left, pool_works, same_organization) =
        accepted token pool q.now q.organization_id q.pool_key h in
      let (works, secret, within, own, stored, kept) =
        saved-works token pool q (hash_token q.clear_token) w
          (find_existing pool q.fingerprint_sha256 w.runners) refl in
      (
        refl,
        record {
          token = token;
          token_found = found;
          pool = pool;
          pool_found = at;
          not_revoked = not_revoked;
          not_expired = not_expired;
          uses_left = uses_left;
          pool_works = pool_works;
          same_organization = same_organization;
          works = works;
          secret = secret;
          within = within;
          own_pool = own;
          runner_stored = stored;
          use_counted = rw kept (
              Memᴰ-update_row token.id
                (λ (t : RegistrationToken). record t { used_count = suc token.used_count })
                w.registration_tokens token refl
                (Memᴰ-find_where
                  (λ (t : RegistrationToken). t.token_hash == hash_token q.registration_token)
                  w.registration_tokens token found));
        },
      )

  committed-Admits :
      (r : Result (Runner × String)) (v : World) → Admits (r, v) → Admits (commit_or_rollback w r v)
  committed-Admits (ok p) v h = h
  committed-Admits (err error) v h = refl

  -- A registration that returns used a token that is neither revoked nor expired and has uses left,
  -- for an active pool of the token's organization. The runner that it returns is stored: it is
  -- active, of that pool, its secret is the digest of the one handed out, and its capabilities are
  -- within the token's policy; one more use of the token is counted. A registration that raises
  -- leaves the database as it was.
  pub register_runner-Admits : Admits (register_runner hash_token q w)
  unfolding register_runner validate_registration_token
  register_runner-Admits =
      elim (Option-cases (
        find_where (λ (t : RegistrationToken). t.token_hash == hash_token q.registration_token)
          w.registration_tokens)) [
            | inl none_found ↦ rw none_found refl
            | inr (token, found) ↦ rw found (elim (Option-cases (find_row token.pool_id w.pools)) [
              | inl gone ↦ rw gone refl
              | inr (pool, at) ↦
                  rw at
                    (elim (Option-cases
                      (check_registration_token token pool q.now q.organization_id q.pool_key)) [
                        | inr (error, refused) ↦ rw refused refl
                        | inl passed ↦ rw passed (
                            committed-Admits (admit_runner hash_token q (token, pool) w).0
                              (admit_runner hash_token q (token, pool) w).1
                              (admitted token pool found at passed))
                      ])
            ])
          ]
