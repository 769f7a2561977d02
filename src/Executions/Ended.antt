-- ===== src/Executions/Ended.antt =====
-- Completions, the other calls of apps/api/apps/executions/services.py and the claims of
-- apps/api/apps/runners/scheduling.py after an execution has ended.
use Prim.Native.Nat.{ℕ}
use Prim.Native.String.{String}
use mathlib.Core.Path.{◌≡◌, refl, ◌∙◌}
use mathlib.Core.Bool.{true}
use mathlib.Core.Option.{some}
use runbook_platform.Prelude.Tables.{find_row}
use runbook_platform.Prelude.Keys.{HasKeys}
use runbook_platform.Prelude.Effects.{ok, err, Error}
use runbook_platform.Store.{World}
use runbook_platform.Changes.Completion.{ChangeGuards}
use runbook_platform.Executions.Model.{Execution, execution_row, ExecutionStatus}
use runbook_platform.Executions.Completion.{is_outcome, complete_execution}
use runbook_platform.Executions.History.{Call, after_call, Reached, outcome_final}
use runbook_platform.Executions.Completed.{
  complete_execution-Completed, complete-ended, is_outcome_finished,
}
use runbook_platform.Runners.Model.{Runner}
use runbook_platform.Runners.Scheduling.{schedule_execution_claim}
use runbook_platform.Runners.Afterwards.{schedule_execution_claim-Holds}

module _ (guards : ChangeGuards) where
  -- The worlds that calls on executions and claims of runners lead to. The database keeps the keys
  -- of executions unique, which a claim relies on.
  pub data Followed (w : World) : World → Type 0 where
    start : Followed w w
    call : {v : World} → Followed w v → (c : Call) → Followed w (after_call guards c v)
    claim :
        {v : World}
        → Followed w v
        → HasKeys v.executions
        → (runner : Runner) (org_limit now : ℕ) (token : String)
        → Followed w (schedule_execution_claim runner org_limit now token v).1

  Followed-final :
      (k : ℕ) (e : Execution) {w v : World}
      → Followed w v
      → find_row k w.executions ≡ some e
      → is_outcome e.status ≡ true
      → (f : Execution) × (find_row k v.executions ≡ some f) × (f.status ≡ e.status)
  Followed-final k e start at done = (e, at, refl)
  Followed-final k e {w} (call {v} r c) at done =
      let (f, found, same) = Followed-final k e r at done in
      let (g, there, kept) =
        outcome_final guards v (after_call guards c v) k f (Reached.call Reached.start c) found
          (rw same done) in
      (g, there, kept.status ∙ same)
  Followed-final k e (claim {v} r keys runner n now token) at done =
      let (f, found, same) = Followed-final k e r at done in
      let h =
        schedule_execution_claim-Holds k f (rw same done) runner n now token v
          (record { keys = keys; row = found }) in
      (f, h.row, same)

module _ (guards : ChangeGuards) (id : ℕ) where
  -- After a completion that returned, every further completion of the same execution is refused and
  -- leaves the database as it was, however many step updates, completions, heartbeats, cancellations,
  -- watchdog sweeps and claims of runners, each on a table of executions with unique keys, came in
  -- between.
  pub complete_once :
      (runner_id claim_token : String) (outcome : ExecutionStatus) (now : ℕ)
      → (runner_id' claim_token' : String) (outcome' : ExecutionStatus) (now' : ℕ)
      → (w u : World) (f : Execution)
      → (complete_execution guards id runner_id claim_token outcome now w).0 ≡ ok f
      → Followed guards (complete_execution guards id runner_id claim_token outcome now w).1 u
      → (error : Error) × (complete_execution guards id runner_id' claim_token' outcome' now' u
          ≡ (err error, u))
  complete_once runner_id claim_token outcome now runner_id' claim_token' outcome' now' w u f h r =
      let c = complete_execution-Completed guards id runner_id claim_token outcome now w f h in
      let (g, at, same) =
        Followed-final guards id f r c.stored
          (rw c.result (is_outcome_finished outcome now c.before c.outcome_valid)) in
      complete-ended guards id runner_id' claim_token' outcome' now' g u at
        (rw (same, c.result) (is_outcome_finished outcome now c.before c.outcome_valid))
