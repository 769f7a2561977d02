-- ===== src/Runners/Issued.antt =====
-- A registration token that was created is accepted: apps/api/apps/runners/services.py.
use Prim.Native.Nat.{ℕ, ◌<◌, ◌≤◌}
use Prim.Native.String.{String}
use mathlib.Core.Path.{◌≡◌, refl}
use native.Mathlib.Omega.{arith}
use mathlib.Core.Bool.{Bool, true, false}
use mathlib.Core.Option.{none, some}
use mathlib.Core.List.{List, [], ◌∷◌, ◌++◌}
use runbook_platform.Prelude.Tests.{◌==◌, nat_eq, string_eq, eq_refl}
use runbook_platform.Prelude.Tables.{any_row, find_where, find_row}
use runbook_platform.Prelude.Effects.{ok}
use runbook_platform.Store.{World}
use runbook_platform.Runners.Model.{RunnerPool, pool_row, RegistrationToken, registration_token_row}
use runbook_platform.Runners.Fleet.{pool_is_active}
use runbook_platform.Runners.Registration.{check_registration_token, validate_registration_token}
use runbook_platform.Runners.Activation.{new_token, insert_token, create_registration_token}

find_where-append_new {ℓ} :
    {A : Type ℓ} (p : A → Bool) (xs : List A) (x : A)
    → any_row p xs ≡ false
    → p x ≡ true
    → find_where p (xs ++ x ∷ []) ≡ some x
unfolding find_where any_row
find_where-append_new p [] x h t = rw t refl
find_where-append_new p (y ∷ ys) x h t = ground (arith, h, find_where-append_new p ys x, t)

module _ (hash_token : String → String) (fresh_id : ℕ) (clear : String) (pool : RunnerPool)
    (expires_at max_registrations : ℕ) (labels capabilities : List String) (w : World) where
  abbrev pub issued : RegistrationToken
  issued = new_token hash_token fresh_id clear pool expires_at max_registrations labels capabilities

  abbrev pub issued_world : World
  issued_world = record w { registration_tokens = w.registration_tokens ++ issued ∷ [] }

  creates :
      any_row (λ (t : RegistrationToken). t.token_hash == hash_token clear) w.registration_tokens
        ≡ false
      → create_registration_token hash_token pool.organization_id fresh_id clear pool expires_at
          max_registrations labels capabilities w
        ≡ (ok (issued, clear), issued_world)
  unfolding create_registration_token insert_token new_token
  creates unused = rw (eq_refl pool.organization_id, unused) refl

  passes :
      (now : ℕ)
      → pool_is_active pool.status ≡ true
      → 0 < max_registrations
      → now ≤ expires_at
      → check_registration_token issued pool now none "" ≡ none
  unfolding new_token check_registration_token
  passes now active uses fresh = ground (arith, eq_refl pool.organization_id, active, uses, fresh)

  -- For an active pool, with a digest that no other token has and at least one use, a token is
  -- created, and its clear text is accepted until it expires.
  pub create_registration_token-validates :
      (now : ℕ)
      → any_row (λ (t : RegistrationToken). t.token_hash == hash_token clear) w.registration_tokens
        ≡ false
      → find_row pool.id w.pools ≡ some pool
      → pool_is_active pool.status ≡ true
      → 0 < max_registrations
      → now ≤ expires_at
      → (create_registration_token hash_token pool.organization_id fresh_id clear pool expires_at
            max_registrations labels capabilities w
          ≡ (ok (issued, clear), issued_world))
        × (validate_registration_token hash_token clear none "" now issued_world
            ≡ (ok (issued, pool), issued_world))
  unfolding validate_registration_token new_token
  create_registration_token-validates now unused found active uses fresh = (
    creates unused,
    rw
        (
          find_where-append_new (λ (t : RegistrationToken). t.token_hash == hash_token clear)
              w.registration_tokens issued unused (eq_refl (hash_token clear)),
          found,
        )
        (rw (passes now active uses fresh) refl),
  )
