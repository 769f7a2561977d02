-- ===== src/Runners/Sweep.antt =====
-- The watchdog `mark_stale_runners_offline` of apps/api/apps/runners/services.py, row by row under
-- locks, against one bulk update.
use Prim.Native.Nat.{ℕ, ◌-◌}
use mathlib.Core.Path.{◌≡◌, refl, subst}
use mathlib.Core.Bool.{Bool, true, false}
use mathlib.Core.Option
use mathlib.Core.Option.{Option, none, some}
use mathlib.Core.Logic.{inl, inr}
use mathlib.Core.List.{List, [], ◌∷◌}
use native.Mathlib.Omega.{arith}
use runbook_platform.Prelude.Tests.{Bool-cases, ◌==◌, nat_eq, eq_iff, if◌then◌else◌}
use runbook_platform.Prelude.Tables.{
  any_row, any_row-select, select, find_row, find_row_key, find_row-update_row,
}
use runbook_platform.Store.{World}
use runbook_platform.Runners.Model.{RunnerStatus, Runner, runner_row}
use runbook_platform.Runners.Liveness.{
  is_stale, mark_offline, mark_each_offline, offline_threshold, mark_stale_runners_offline,
}

abbrev to_offline : Runner → Runner
to_offline r = record r { status = RunnerStatus.offline }

-- The row after the sweep: offline if it was stale, else untouched.
abbrev pub offline_if_stale : ℕ → Runner → Runner
offline_if_stale t r = if is_stale t r then to_offline r else r

module _ (threshold t k : ℕ) where
  offline_settled : (r : Runner) → offline_if_stale t (offline_if_stale t r) ≡ offline_if_stale t r
  unfolding is_stale
  offline_settled r = ground arith

  marked_row :
      (j : ℕ) (o : Option Runner) (w : World)
      → find_row j w.runners ≡ o
      → find_row k (mark_offline threshold t o w).1.runners ≡ (
          if j == k
          then Option.map (offline_if_stale t) (find_row k w.runners)
          else find_row k w.runners)
  unfolding mark_offline
  marked_row j none w at = elim (Bool-cases (j == k)) [
    | inr e ↦ rw e refl
    | inl e ↦
        let none_k = subst (λ i. find_row i w.runners ≡ none) ((eq_iff j k).0 e) at in
        rw (e, none_k) refl
  ]
  marked_row j (some r) w at =
      let at_key : r.id ≡ j = find_row_key j w.runners r at in
      elim (Bool-cases (is_stale t r)) [
        | inl stale ↦ ground (
          arith,
          find_row-update_row k r.id to_offline w.runners (λ y. refl),
          eq_iff j k,
          at,
          stale,
        )
        | inr fresh ↦ ground (arith, eq_iff j k, at, fresh)
      ]

  swept_rows :
      (cs : List Runner) (w : World)
      → find_row k (mark_each_offline threshold t cs w).1.runners ≡ (
          if any_row (λ c. c.id == k) cs
          then Option.map (offline_if_stale t) (find_row k w.runners)
          else find_row k w.runners)
  unfolding mark_each_offline any_row
  swept_rows [] w = refl
  swept_rows (c ∷ cs) w =
      let one = marked_row c.id (find_row c.id w.runners) w refl in
      let rest = swept_rows cs (mark_offline threshold t (find_row c.id w.runners) w).1 in
      rw (rest, one) (twice (find_row k w.runners) (c.id == k) (any_row (λ c. c.id == k) cs))
    where
      twice :
          (o : Option Runner) (b c : Bool)
          → (if c
              then Option.map
                  (offline_if_stale t)
                  (if b then Option.map (offline_if_stale t) o else o)
              else if b
              then Option.map (offline_if_stale t) o
              else o)
            ≡ (if (if b then true else c) then Option.map (offline_if_stale t) o else o)
      twice none b c = ground arith
      twice (some r) b c = ground (arith, offline_settled r)

unselected_fresh :
    (t k : ℕ) (rs : List Runner) (o : Option Runner)
    → find_row k rs ≡ o
    → any_row (λ c. c.id == k) (select (is_stale t) rs) ≡ false
    → o ≡ Option.map (offline_if_stale t) o
unselected_fresh t k rs none at h = refl
unselected_fresh t k rs (some r) at h = elim (Bool-cases (is_stale t r)) [
  | inl stale ↦ absurd (ground (arith, any_row-select k (is_stale t) rs r at stale, h))
  | inr fresh ↦ rw fresh refl
]

-- The sweep over candidate rows leaves every row as one bulk update of the stale rows would: each
-- active or draining runner whose heartbeat is older than the threshold is offline, and every other
-- runner is untouched.
pub mark_stale_runners_offline-rows :
    (offline_seconds : Option ℕ) (setting now k : ℕ) (w : World)
    → find_row k (mark_stale_runners_offline offline_seconds setting now w).1.runners
      ≡ Option.map
          (offline_if_stale (now - offline_threshold offline_seconds setting))
          (find_row k w.runners)
unfolding mark_stale_runners_offline
mark_stale_runners_offline-rows offline_seconds setting now k w =
    let threshold = offline_threshold offline_seconds setting in
    let t = now - threshold in
    let cs = select (is_stale t) w.runners in
    rw (swept_rows threshold t k cs w) (elim (Bool-cases (any_row (λ (c : Runner). c.id == k) cs)) [
      | inl e ↦ rw e refl
      | inr e ↦ rw e (unselected_fresh t k w.runners (find_row k w.runners) refl e)
    ])
