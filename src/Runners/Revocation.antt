-- ===== src/Runners/Revocation.antt =====
-- Revoked runners stay revoked: sequences of the calls of apps/api/apps/runners/services.py on the
-- row of a runner as it stands, the way the views fetch it.
use Prim.Native.Nat.{ℕ}
use Prim.Native.String.{String}
use mathlib.Core.Path.{◌≡◌, refl, sym, subst, ap, ◌∙◌}
use mathlib.Core.Bool.{Bool, true, false, false≢true, ◌||◌}
use mathlib.Core.Option.{Option, none, some}
use mathlib.Core.Logic.{inl, inr}
use native.Mathlib.Omega.{arith}
use runbook_platform.Prelude.Tests.{Bool-cases, ◌==◌, nat_eq, eq_iff, if◌then◌else◌}
use runbook_platform.Prelude.Tables.{find_row, find_row_key, find_row-update_row, update_row}
use runbook_platform.Prelude.Effects.{Result}
use runbook_platform.Store.{World}
use runbook_platform.Runners.Model.{Runner, runner_row}
use runbook_platform.Runners.Fleet.{
  is_disabled, is_revoked, write_runner_draining, write_runner_disabled, write_runner_revoked,
  drain_runner, disable_runner, revoke_runner, save_runner,
}
use runbook_platform.Runners.Liveness.{
  is_stale, write_heartbeat, update_runner_heartbeat, mark_stale_runners_offline,
}
use runbook_platform.Runners.Sweep.{offline_if_stale, mark_stale_runners_offline-rows}

pub data Call : Type 0 where
  drain disable revoke : ℕ → ℕ → Call
  heartbeat : ℕ → ℕ → String → String → Call
  sweep : Option ℕ → ℕ → ℕ → Call

-- The world after a call on the row that was found.
unfoldable pub after_found : Call → Option Runner → World → World
after_found (drain k now) (some r) w = (drain_runner r now w).1
after_found (disable k now) (some r) w = (disable_runner r now w).1
after_found (revoke k now) (some r) w = (revoke_runner r now w).1
after_found (heartbeat k now version host) (some r) w =
    (update_runner_heartbeat r now version host w).1
after_found (sweep seconds setting now) o w = (mark_stale_runners_offline seconds setting now w).1
after_found c none w = w

abbrev subject : Call → ℕ
subject (drain k now) = k
subject (disable k now) = k
subject (revoke k now) = k
subject (heartbeat k now version host) = k
subject (sweep seconds setting now) = 0

unfoldable pub after_call : Call → World → World
after_call c w = after_found c (find_row (subject c) w.runners) w

pub data Reached (w : World) : World → Type 0 where
  start : Reached w w
  call : {v : World} → Reached w v → (c : Call) → Reached w (after_call c v)

-- The runner with number `k` is there and revoked.
pub record IsRevoked (k : ℕ) (w : World) : Type 0 where
  pub runner : Runner
  pub found : find_row k w.runners ≡ some runner
  pub revoked : is_revoked runner.status ≡ true

saved-IsRevoked :
    (j k : ℕ) (f : Runner → Runner) (w : World)
    → ((x : Runner) → (f x).id ≡ x.id)
    → (h : IsRevoked k w) → (j ≡ k → is_revoked (f h.runner).status ≡ true)
    → IsRevoked k (record w { runners = update_row j f w.runners })
saved-IsRevoked j k f w keeps h still = elim (Bool-cases (j == k)) [
  | inl here ↦ record {
    runner = f h.runner;
    found = rw (find_row-update_row k j f w.runners keeps, here, h.found) refl;
    revoked = still ((eq_iff j k).0 here);
  }
  | inr away ↦ record {
    runner = h.runner;
    found = rw (find_row-update_row k j f w.runners keeps, away, h.found) refl;
    revoked = h.revoked;
  }
]

-- The row found under its own number is the revoked one.
same_runner :
    (j k : ℕ) (r : Runner) (w : World) (h : IsRevoked k w)
    → find_row j w.runners ≡ some r
    → r.id ≡ k
    → is_revoked r.status ≡ true
same_runner j k r w h at is =
    let is_j = find_row_key j w.runners r at in
    let there : find_row k w.runners ≡ some r =
      subst (λ i. find_row i w.runners ≡ some r) (sym is_j ∙ is) at in
    ground (arith, h.found, h.revoked, there)

branch-IsRevoked :
    {A : Type 0} (k : ℕ) (b : Bool) (p q : Result A × World)
    → (b ≡ true → IsRevoked k p.1)
    → (b ≡ false → IsRevoked k q.1)
    → IsRevoked k (if b then p else q).1
branch-IsRevoked k true p q f g = f refl
branch-IsRevoked k false p q f g = g refl

module _ (k j : ℕ) (r : Runner) (w : World) (h : IsRevoked k w)
    (at : find_row j w.runners ≡ some r) where
  -- A write to a runner that is not revoked.
  other-IsRevoked :
      (f : Runner → Runner)
      → ((x : Runner) → (f x).id ≡ x.id)
      → is_revoked r.status ≡ false
      → IsRevoked k (save_runner r f w)
  other-IsRevoked f keeps works =
      saved-IsRevoked r.id k f w keeps h
        (λ is. absurd (false≢true (sym works ∙ same_runner j k r w h at is)))

  drain-IsRevoked : (now : ℕ) → IsRevoked k (drain_runner r now w).1
  unfolding drain_runner write_runner_draining
  drain-IsRevoked now =
      branch-IsRevoked k (is_disabled r.status || is_revoked r.status) _ _ (λ _. h)
        (λ works.
          branch-IsRevoked k _ _ _ (λ _. h)
            (λ _. other-IsRevoked (write_runner_draining now) (λ x. refl) (ground arith)))

  disable-IsRevoked : (now : ℕ) → IsRevoked k (disable_runner r now w).1
  unfolding disable_runner write_runner_disabled
  disable-IsRevoked now =
      branch-IsRevoked k _ _ _ (λ _. h)
        (λ works.
          branch-IsRevoked k _ _ _ (λ _. h)
            (λ _. other-IsRevoked (write_runner_disabled now) (λ x. refl) works))

  revoke-IsRevoked : (now : ℕ) → IsRevoked k (revoke_runner r now w).1
  unfolding revoke_runner write_runner_revoked
  revoke-IsRevoked now =
      branch-IsRevoked k _ _ _ (λ _. h)
        (λ works. other-IsRevoked (write_runner_revoked now) (λ x. refl) works)

  beat_keeps :
      (now : ℕ) (version host : String) (x : Runner)
      → (write_heartbeat now version host r x).id ≡ x.id
  unfolding write_heartbeat
  beat_keeps now version host x = refl

  beat_status :
      (now : ℕ) (version host : String) (x : Runner)
      → is_revoked r.status ≡ true
      → is_revoked x.status ≡ true
      → is_revoked (write_heartbeat now version host r x).status ≡ true
  unfolding write_heartbeat
  beat_status now version host x gone revoked = ground arith

  beat-IsRevoked :
      (now : ℕ) (version host : String)
      → IsRevoked k (update_runner_heartbeat r now version host w).1
  unfolding update_runner_heartbeat
  beat-IsRevoked now version host =
      branch-IsRevoked k _ _ _ (λ _. h)
        (λ _.
          saved-IsRevoked r.id k (write_heartbeat now version host r) w
            (beat_keeps now version host) h
            (λ is. beat_status now version host h.runner (same_runner j k r w h at is) h.revoked))

revoked_fresh : (t : ℕ) (r : Runner) → is_revoked r.status ≡ true → offline_if_stale t r ≡ r
unfolding is_stale
revoked_fresh t r h = ground arith

sweep-IsRevoked :
    (k : ℕ) (seconds : Option ℕ) (setting now : ℕ) (w : World)
    → IsRevoked k w
    → IsRevoked k (mark_stale_runners_offline seconds setting now w).1
sweep-IsRevoked k seconds setting now w h = record {
  runner = h.runner;
  found =
      rw (mark_stale_runners_offline-rows seconds setting now k w, h.found)
        (ap some (revoked_fresh _ h.runner h.revoked));
  revoked = h.revoked;
}

found-IsRevoked :
    (c : Call) (k : ℕ) (o : Option Runner) (w : World)
    → find_row (subject c) w.runners ≡ o
    → IsRevoked k w
    → IsRevoked k (after_found c o w)
unfolding after_found
found-IsRevoked (drain j now) k (some r) w at h = drain-IsRevoked k j r w h at now
found-IsRevoked (disable j now) k (some r) w at h = disable-IsRevoked k j r w h at now
found-IsRevoked (revoke j now) k (some r) w at h = revoke-IsRevoked k j r w h at now
found-IsRevoked (heartbeat j now version host) k (some r) w at h =
    beat-IsRevoked k j r w h at now version host
found-IsRevoked (sweep seconds setting now) k o w at h = sweep-IsRevoked k seconds setting now w h
found-IsRevoked (drain j now) k none w at h = h
found-IsRevoked (disable j now) k none w at h = h
found-IsRevoked (revoke j now) k none w at h = h
found-IsRevoked (heartbeat j now version host) k none w at h = h

-- Once a runner is revoked, no sequence of drains, disablings, revocations and heartbeats, each on
-- the row as it stands, and of watchdog sweeps brings it back.
pub Reached-IsRevoked : (w v : World) (k : ℕ) → Reached w v → IsRevoked k w → IsRevoked k v
unfolding after_call
Reached-IsRevoked w v k start h = h
Reached-IsRevoked w v k (call {v = u} reached c) h =
    found-IsRevoked c k (find_row (subject c) u.runners) u refl (Reached-IsRevoked w u k reached h)
