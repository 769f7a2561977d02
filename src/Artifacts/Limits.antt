-- ===== src/Artifacts/Limits.antt =====
-- The limits hold whatever is uploaded: apps/api/apps/artifacts/services.py.
use Prim.Native.Nat.{ℕ, ◌+◌, ◌≤◌}
use Prim.Native.String.{String}
use mathlib.Core.Path.{◌≡◌, refl, sym, subst}
use mathlib.Core.Logic.{inl, inr}
use native.Mathlib.Omega.{arith}
use mathlib.Core.Bool.{Bool, true}
use mathlib.Core.Option.{Option, none, some}
use mathlib.Core.List.{List, [], ◌∷◌, ◌++◌}
use runbook_platform.Prelude.Tests.{◌==◌, nat_eq, eq_iff, Bool-cases}
use runbook_platform.Prelude.Tables.{count_rows-append}
use runbook_platform.Prelude.Effects.{Result, ok, err}
use runbook_platform.Changes.Completion.{ChangeGuards}
use runbook_platform.Executions.Model.{Execution, ExecutionStep}
use runbook_platform.Artifacts.Model.{Artifact, Settings, Upload, Depot, Conditions}
use runbook_platform.Artifacts.Checks.{Checked, total_bytes, count_of_step, has_room}
use runbook_platform.Artifacts.Upload.{create_from_runner_upload, new_artifact}
use runbook_platform.Artifacts.Quotas.{WithinQuotas, total_bytes-append, Accepted}
use runbook_platform.Artifacts.Stored.{
  create_from_runner_upload-Uploaded, create_from_runner_upload-SameStock,
}

pub record UploadCall : Type 0 where
  pub execution : Execution
  pub step : Option ExecutionStep
  pub upload : Upload
  pub conditions : Conditions

module _ (guards : ChangeGuards) (is_word_beyond : ℕ → Bool) (sha256 : List ℕ → String)
    (c : Settings) where
  total_bytes-within :
      (e : Execution) (s : Option ExecutionStep) (u : Upload) (h : Checked) (d : Depot) (k : ℕ)
      → Accepted sha256 c e s u d h
      → total_bytes k d.artifacts ≤ c.max_total_bytes_per_execution
      → total_bytes k (d.artifacts ++ new_artifact is_word_beyond e s u h ∷ [])
        ≤ c.max_total_bytes_per_execution
  unfolding new_artifact
  total_bytes-within e s u h d k accepted before =
      rw (total_bytes-append k d.artifacts (new_artifact is_word_beyond e s u h))
        (elim (Bool-cases (e.id == k)) [
          | inl t ↦ rw t (
              subst (λ i. total_bytes i d.artifacts + h.file.size ≤ c.max_total_bytes_per_execution)
                ((eq_iff e.id k).0 t) accepted.fits_execution)
          | inr t ↦ rw t (ground (arith, before))
        ])

  count_of_step-within :
      (e : Execution) (s : Option ExecutionStep) (u : Upload) (h : Checked) (d : Depot) (k : ℕ)
      → has_room c s d.artifacts ≡ true
      → count_of_step k d.artifacts ≤ c.max_artifacts_per_step
      → count_of_step k (d.artifacts ++ new_artifact is_word_beyond e s u h ∷ [])
        ≤ c.max_artifacts_per_step
  unfolding new_artifact count_of_step
  count_of_step-within e none u h d k room before =
      rw (count_rows-append _ d.artifacts (new_artifact is_word_beyond e none u h))
        (ground (arith, before))
  count_of_step-within e (some s) u h d k room before =
      rw (count_rows-append _ d.artifacts (new_artifact is_word_beyond e (some s) u h))
        (elim (Bool-cases (s.id == k)) [
          | inl t ↦ rw t (
              subst (λ i. count_of_step i d.artifacts + 1 ≤ c.max_artifacts_per_step)
                ((eq_iff s.id k).0 t) (ground (arith, room)))
          | inr t ↦ rw t (ground (arith, before))
        ])

  abbrev pub upload_of : UploadCall → Depot → Result Artifact × Depot
  upload_of call =
      create_from_runner_upload guards is_word_beyond sha256 c call.execution call.step call.upload
        call.conditions

  abbrev pub after_upload : UploadCall → Depot → Depot
  after_upload call d = (upload_of call d).1

  listed-WithinQuotas :
      (e : Execution) (s : Option ExecutionStep) (u : Upload) (h : Checked) (d : Depot)
      → Accepted sha256 c e s u d h
      → WithinQuotas c d.artifacts
      → WithinQuotas c (d.artifacts ++ new_artifact is_word_beyond e s u h ∷ [])
  listed-WithinQuotas e s u h d accepted before = record {
    bytes = λ k. total_bytes-within e s u h d k accepted (before.bytes k);
    count = λ k. count_of_step-within e s u h d k accepted.fits_step (before.count k);
  }

  upload_result :
      (call : UploadCall) (d : Depot) (r : Result Artifact × Depot)
      → upload_of call d ≡ r
      → WithinQuotas c d.artifacts
      → WithinQuotas c r.1.artifacts
  upload_result call d (ok a, d') h before =
      let up =
        create_from_runner_upload-Uploaded guards is_word_beyond sha256 c call.execution call.step
          call.upload call.conditions d a d' h in
      subst (WithinQuotas c) (sym up.is_stocked.is_listed) (
        subst (λ b. WithinQuotas c (d.artifacts ++ b ∷ [])) (sym up.is_described)
          (listed-WithinQuotas call.execution call.step call.upload up.checks d up.is_accepted
            before))
  upload_result call d (err x, d') h before =
      let same =
        create_from_runner_upload-SameStock guards is_word_beyond sha256 c call.execution call.step
          call.upload call.conditions d x d' h in
      subst (WithinQuotas c) (sym same.same_artifacts) before

  upload_WithinQuotas :
      (call : UploadCall) (d : Depot)
      → WithinQuotas c d.artifacts
      → WithinQuotas c (after_upload call d).artifacts
  upload_WithinQuotas call d h = upload_result call d _ refl h

  unfoldable pub after_uploads : List UploadCall → Depot → Depot
  after_uploads [] d = d
  after_uploads (call ∷ calls) d = after_uploads calls (after_upload call d)

  -- Whatever runners upload and whatever becomes of it, one upload at a time, the available
  -- artifacts of every execution stay within its bytes and those of every step within their number,
  -- if they were before.
  pub after_uploads-WithinQuotas :
      (calls : List UploadCall) (d : Depot)
      → WithinQuotas c d.artifacts
      → WithinQuotas c (after_uploads calls d).artifacts
  unfolding after_uploads
  after_uploads-WithinQuotas [] d h = h
  after_uploads-WithinQuotas (call ∷ calls) d h =
      after_uploads-WithinQuotas calls (after_upload call d) (upload_WithinQuotas call d h)
