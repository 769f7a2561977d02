-- ===== src/Runners/Afterwards.antt =====
-- Claims of apps/api/apps/runners/scheduling.py leave the executions that have ended.
use Prim.Native.Nat.{ℕ, zero, suc}
use Prim.Native.String.{String}
use mathlib.Core.Path.{◌≡◌, refl, ap, subst, ◌∙◌}
use mathlib.Core.Logic.{inl, inr}
use mathlib.Core.Bool.{true}
use mathlib.Core.Option.{Option, none, some}
use mathlib.Core.List.{List, [], ◌∷◌, Memᴰ}
use native.Mathlib.Omega.{arith}
use runbook_platform.Prelude.Tests.{Bool-cases, Option-cases, if◌then◌else◌}
use runbook_platform.Prelude.Tables.{find_row, update_row, find_row-update_row_same}
use runbook_platform.Prelude.Keys.{HasKeys, update_row-HasKeys, find_row-Memᴰ}
use runbook_platform.Prelude.Effects.{Leaves, Leaves-rollback, leaves_rules}
use runbook_platform.Store.{World}
use runbook_platform.Changes.Transitions.{transition_change}
use runbook_platform.Changes.Dispatch.{
  expire_unbound_dispatch_for_execution, expire_dispatchable_change, cancel_undispatched,
  write_dispatch_cancelled,
}
use runbook_platform.Executions.Model.{Execution, execution_row}
use runbook_platform.Executions.Completion.{is_outcome}
use runbook_platform.Changes.Model.{change_row}
use runbook_platform.Runners.Model.{RunnerPool, pool_row, Runner}
use runbook_platform.Runners.Limits.{Verdict-cases, verdict_world}
use runbook_platform.Runners.Claims.{candidate_queued, Found, search_queue-Found}
use runbook_platform.Runners.Scheduling.{
  expire_if_needed, Verdict, retry, skip, take, judge, next_candidate, search_queue, is_queued,
  write_claim, has_lease, claim_found, claim_from_pool, attempt_claim, schedule_execution_claim,
}

-- The row `e` stands under `k` in a table of executions with unique keys.
pub record Holds (k : ℕ) (e : Execution) (w : World) : Type 0 where
  pub keys : HasKeys w.executions
  pub row : find_row k w.executions ≡ some e

-- The expiry of a queued execution's dispatch cancels that execution or writes none.
expire-executions :
    (c : Execution) (now : ℕ) (w : World)
    → is_queued c.status ≡ true
    → (expire_if_needed c now w).1.executions ≡ (
        if (expire_if_needed c now w).0
        then update_row c.id (write_dispatch_cancelled now) w.executions
        else w.executions)
unfolding expire_if_needed expire_unbound_dispatch_for_execution expire_dispatchable_change
    cancel_undispatched transition_change
expire-executions c now w waits = ground (arith, waits)

module _ (k : ℕ) (e : Execution) (ended : is_outcome e.status ≡ true) where
  -- A queued row of the table is another one.
  queued-apart :
      (c : Execution) (w : World)
      → Memᴰ c w.executions
      → is_queued c.status ≡ true
      → Holds k e w
      → c.id ≡ k
      → ⊥
  queued-apart c w m waits h same =
      let found = find_row-Memᴰ w.executions c h.keys m in
      let is : c ≡ e = ground (arith, found, ap (λ i. find_row i w.executions) same ∙ h.row) in
      ground (arith, waits, ended, ap (λ x. x.status) is)

  Holds-write :
      (c : Execution) (f : Execution → Execution) (w v : World)
      → ((x : Execution) → (f x).id ≡ x.id)
      → (c.id ≡ k → ⊥)
      → v.executions ≡ update_row c.id f w.executions
      → Holds k e w
      → Holds k e v
  Holds-write c f w v keeps apart written h = record {
    keys = rw written (update_row-HasKeys c.id f w.executions keeps h.keys);
    row = rw written (
        find_row-update_row_same k c.id f w.executions e keeps h.row (λ same. absurd (apart same)));
  }

  Holds-same : (w v : World) → v.executions ≡ w.executions → Holds k e w → Holds k e v
  Holds-same w v same h = record { keys = rw same h.keys; row = rw same h.row }

  Holds-judge :
      (pool : RunnerPool) (now : ℕ) (c : Execution) (w : World)
      → Memᴰ c w.executions
      → is_queued c.status ≡ true
      → Holds k e w
      → Holds k e (expire_if_needed c now w).1
  Holds-judge pool now c w m waits h = elim (Bool-cases (expire_if_needed c now w).0) [
    | inr same ↦
        Holds-same w (expire_if_needed c now w).1 (rw same at (expire-executions c now w waits)) h
    | inl gone ↦
        Holds-write c (write_dispatch_cancelled now) w (expire_if_needed c now w).1
          (λ x. unfold write_dispatch_cancelled in refl) (λ same. queued-apart c w m waits h same)
          (rw gone at (expire-executions c now w waits)) h
  ]

  verdict-Holds :
      (pool : RunnerPool) (now : ℕ) (c : Execution) (w : World) (v : Verdict)
      → judge pool now c w ≡ v
      → Holds k e (expire_if_needed c now w).1
      → Holds k e (verdict_world v)
  unfolding judge
  verdict-Holds pool now c w v h x =
      let same : (expire_if_needed c now w).1 ≡ verdict_world v = ground (arith, h) in
      subst (λ u. Holds k e u) same x

  search_queue-Holds :
      (rounds : ℕ) (runner : Runner) (pool : RunnerPool) (now : ℕ) (ids : List ℕ) (w : World)
      → Holds k e w
      → Holds k e (search_queue rounds runner pool now ids w).1
  unfolding search_queue
  search_queue-Holds zero runner pool now ids w h = h
  search_queue-Holds (suc rounds) runner pool now ids w h =
      elim (Option-cases (next_candidate runner.organization_id ids w)) [
        | inl n ↦ rw (n, search_queue) h
        | inr (c, n) ↦
            let (listed, waits, own) = candidate_queued runner.organization_id ids w c n in
            let x = Holds-judge pool now c w listed waits h in
            rw (n, search_queue)
              (elim (Verdict-cases (judge pool now c w)) [
                | inl (v, j) ↦ rw j (
                    search_queue-Holds rounds runner pool now ids v
                      (verdict-Holds pool now c w (retry v) j x))
                | inr (inl (v, j)) ↦ rw j (
                    search_queue-Holds rounds runner pool now (c.id ∷ ids) v
                      (verdict-Holds pool now c w (skip v) j x))
                | inr (inr (v, j)) ↦ rw j (verdict-Holds pool now c w (take v) j x)
              ])
      ]

  module _ (runner : Runner) (n now : ℕ) (token : String) where
    found-Holds :
        (pool : RunnerPool) (w : World) (found : Option Execution × World)
        → Holds k e found.1
        → Found runner pool now w found
        → Leaves (Holds k e) (claim_found runner pool now token found)
    unfolding claim_found Found
    found-Holds pool w (none, v) h f = record { leaves = h }
    found-Holds pool w (some c, v) h (expiries, suits) =
        let claimed = update_row c.id (write_claim runner pool now token) v.executions in
        let x =
          Holds-write c (write_claim runner pool now token) v (record v { executions = claimed })
            (λ y. unfold write_claim in refl)
            (λ same. queued-apart c v suits.listed suits.queued_yet h same) refl h in
        record {
          leaves = elim (Bool-cases (has_lease c.id v)) [
            | inl t ↦ rw t x
            | inr t ↦ rw t (record { keys = x.keys; row = x.row })
          ];
        }

    pool-Holds :
        (w : World) (o : Option RunnerPool)
        → Holds k e w
        → Leaves (Holds k e) (claim_from_pool runner n now token o w)
    unfolding claim_from_pool
    pool-Holds w none h = search (leaves_rules, h)
    pool-Holds w (some pool) h = search (
      leaves_rules,
      h,
      found-Holds pool w (search_queue 50 runner pool now [] w)
          (search_queue-Holds 50 runner pool now [] w h)
          (search_queue-Found runner pool now 50 [] w),
    )

    attempt-Holds :
        (w : World) → Holds k e w → Leaves (Holds k e) (attempt_claim runner n now token w)
    unfolding attempt_claim
    attempt-Holds w h = search (leaves_rules, h, pool-Holds w (find_row runner.pool_id w.pools) h)

    pub schedule_execution_claim-Holds :
        (w : World) → Holds k e w → Holds k e (schedule_execution_claim runner n now token w).1
    unfolding schedule_execution_claim
    schedule_execution_claim-Holds w h =
        (Leaves-rollback w (attempt_claim runner n now token w) h (attempt-Holds w h)).leaves
