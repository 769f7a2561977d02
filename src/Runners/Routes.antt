-- ===== src/Runners/Routes.antt =====
-- What a successful route match of apps/api/apps/runners/route_matching.py guarantees.
use Prim.Native.Nat.{ℕ, ◌-◌}
use mathlib.Core.Path.{◌≡◌, refl, sym, subst, ap}
use mathlib.Core.Bool.{Bool, true, ◌&&◌}
use mathlib.Core.Option.{Option, none, some}
use mathlib.Core.Logic.{◌⊎◌, inl, inr}
use mathlib.Core.List.{List, [], ◌∷◌}
use native.Mathlib.Omega.{arith}
use runbook_platform.Prelude.Tests.{Bool-cases, Option-cases, ◌==◌, nat_eq, eq_iff, eq_refl}
use runbook_platform.Prelude.Tables.{All, any_row, all_rows, find_row}
use runbook_platform.Store.{World}
use runbook_platform.Runners.Model.{PoolStatus, RunnerPool, pool_row, Route}
use runbook_platform.Runners.Fleet.{pool_is_active}
use runbook_platform.Runners.Routing.{
  Target, RoutedChange, RouteReason, serves, first_route, covers, Matched, pools, failed,
  match_route, match_targets, is_online, after, check_pool, choose_pool, find_pool_for_change,
}

-- The route that serves the target leads to the pool with number `k`, which has its capabilities.
pub record Leads (w : World) (organization_id k : ℕ) (t : Target) : Type 0 where
  pub route : Route
  pub chosen : first_route (serves organization_id t) w.routes ≡ some route
  pub pool : RunnerPool
  pub pool_found : find_row route.pool_id w.pools ≡ some pool
  pub same_pool : pool.id ≡ k
  pub capable : covers pool.capabilities route.required_capabilities ≡ true

all_rows-All :
    {A : Type 0} (p : A → Bool) (xs : List A) → all_rows p xs ≡ true → All (λ x. p x ≡ true) xs
unfolding all_rows
all_rows-All p [] h = tt
all_rows-All p (x ∷ xs) h = (ground arith, all_rows-All p xs (ground arith))

module _ (w : World) (organization_id : ℕ) where
  -- The pools matched for the targets, in their order.
  abbrev Led : List Target → List RunnerPool → Type 0
  Led [] [] = Unit
  Led [] (p ∷ ps) = ⊥
  Led (t ∷ ts) [] = ⊥
  Led (t ∷ ts) (p ∷ ps) = Leads w organization_id p.id t × Led ts ps

  one-Leads :
      (t : Target) (o : Option Route) (ps : List RunnerPool)
      → first_route (serves organization_id t) w.routes ≡ o
      → match_route w.pools o ≡ pools ps
      → (p : RunnerPool) × (ps ≡ p ∷ []) × Leads w organization_id p.id t
  unfolding match_route
  one-Leads t none ps chosen h = absurd (ground arith)
  one-Leads t (some r) ps chosen h = elim (Option-cases (find_row r.pool_id w.pools)) [
    | inl gone ↦ absurd (ground arith)
    | inr (p, found) ↦ (
      p,
      ground arith,
      record {
        route = r;
        chosen = chosen;
        pool = p;
        pool_found = found;
        same_pool = refl;
        capable = ground arith;
      },
    )
  ]

  Matched-cases :
      (m : Matched)
      → ((ps : List RunnerPool) × (m ≡ pools ps)) ⊎ ((reason : RouteReason) × (m ≡ failed reason))
  Matched-cases (pools ps) = inl (ps, refl)
  Matched-cases (failed reason) = inr (reason, refl)

  targets-Led :
      (ts : List Target) (ps : List RunnerPool)
      → match_targets w.pools w.routes organization_id ts ≡ pools ps
      → Led ts ps
  unfolding match_targets after
  targets-Led [] [] h = tt
  targets-Led [] (p ∷ ps) h = absurd (ground arith)
  targets-Led (t ∷ ts) ps h =
      elim (Matched-cases (match_route w.pools (first_route (serves organization_id t) w.routes))) [
        | inr (reason, e) ↦ absurd (ground arith)
        | inl (qs, e) ↦
            let (p, single, leads) = one-Leads t _ qs refl e in
            elim (Matched-cases (match_targets w.pools w.routes organization_id ts)) [
              | inr (reason, e') ↦ absurd (ground arith)
              | inl (rs, e') ↦
                  let all : p ∷ rs ≡ ps = ground arith in
                  subst (Led (t ∷ ts)) all (leads, targets-Led ts rs e')
            ]
      ]

  Led-one_pool :
      (k : ℕ) (ts : List Target) (ps : List RunnerPool)
      → Led ts ps
      → All (λ q. (q.id == k) ≡ true) ps
      → All (Leads w organization_id k) ts
  Led-one_pool k [] [] led same = tt
  Led-one_pool k (t ∷ ts) (p ∷ ps) led same = (
    subst (λ j. Leads w organization_id j t) ((eq_iff p.id k).0 same.0) led.0,
    Led-one_pool k ts ps led.1 same.1,
  )
  Led-one_pool k [] (p ∷ ps) led same = tt
  Led-one_pool k (t ∷ ts) [] led same = absurd led

-- A pool that the match answers with: every target's route leads to it, it is active, it has the
-- capabilities of the change, and one of its runners is online.
pub record Routed (change : RoutedChange) (since : ℕ) (w : World) (p : RunnerPool) : Type 0 where
  pub active : pool_is_active p.status ≡ true
  pub led : All (Leads w change.organization_id p.id) change.targets
  pub capable : covers p.capabilities change.required_runner_capabilities ≡ true
  pub online : any_row (is_online p since) w.runners ≡ true

module _ (change : RoutedChange) (since : ℕ) (w : World) where
  abbrev pub Answers : Option RunnerPool × RouteReason → Type 0
  Answers (none, reason) = Unit
  Answers (some p, reason) = (reason ≡ RouteReason.ok) × Routed change since w p

  checked-Answers :
      (p : RunnerPool) (s : PoolStatus)
      → p.status ≡ s
      → All (Leads w change.organization_id p.id) change.targets
      → Answers (check_pool change since w.runners p s)
  unfolding check_pool
  checked-Answers p PoolStatus.draining is led = tt
  checked-Answers p PoolStatus.disabled is led = tt
  checked-Answers p PoolStatus.active is led =
      elim (Bool-cases (covers p.capabilities change.required_runner_capabilities)) [
        | inr lacking ↦ rw lacking tt
        | inl capable ↦ rw capable (elim (Bool-cases (any_row (is_online p since) w.runners)) [
          | inr offline ↦ rw offline tt
          | inl online ↦
              rw online (
                refl,
                record { active = rw is refl; led = led; capable = capable; online = online },
              )
        ])
      ]

  chosen-Answers :
      (m : Matched)
      → match_targets w.pools w.routes change.organization_id change.targets ≡ m
      → Answers (choose_pool change since w.runners m)
  unfolding choose_pool
  chosen-Answers (failed reason) h = tt
  chosen-Answers (pools []) h = tt
  chosen-Answers (pools (p ∷ ps)) h =
      elim (Bool-cases (all_rows (λ (q : RunnerPool). q.id == p.id) ps)) [
        | inr several ↦ rw several tt
        | inl one ↦ rw one (
            checked-Answers p p.status refl (
              Led-one_pool w change.organization_id p.id change.targets (p ∷ ps)
                (targets-Led w change.organization_id change.targets (p ∷ ps) h)
                (eq_refl p.id, all_rows-All (λ (q : RunnerPool). q.id == p.id) ps one)))
      ]

-- A route match that answers with a pool gives the reason `ok`; every target's route leads to that
-- pool, which is active, has the required capabilities and has a runner online.
pub find_pool_for_change-Answers :
    (change : RoutedChange) (now online_seconds : ℕ) (w : World)
    → Answers change (now - online_seconds) w (find_pool_for_change change now online_seconds w)
unfolding find_pool_for_change
find_pool_for_change-Answers change now online_seconds w = routed change.targets refl
  where
    routed :
        (ts : List Target)
        → change.targets ≡ ts
        → Answers change (now - online_seconds) w (find_pool_for_change change now online_seconds w)
    routed [] is = rw (is, find_pool_for_change) tt
    routed (t ∷ ts) is =
        elim (Bool-cases (
          any_row (λ (r : Route). r.organization_id == change.organization_id && r.is_active)
            w.routes)) [
              | inr closed ↦ rw (is, find_pool_for_change, closed) tt
              | inl routes ↦
                  let chosen : find_pool_for_change change now online_seconds w
                      ≡ choose_pool change (now - online_seconds) w.runners
                          (match_targets w.pools w.routes change.organization_id (t ∷ ts)) =
                    rw (is, find_pool_for_change, routes) refl in
                  subst (Answers change (now - online_seconds) w) (sym chosen) (
                    chosen-Answers change (now - online_seconds) w _
                      (ap (match_targets w.pools w.routes change.organization_id) is))
            ]
