-- ===== src/Artifacts/Complete.antt =====
-- A step's evidence stays complete: apps/api/apps/artifacts/services.py.
use Prim.Native.Nat.{ℕ}
use Prim.Native.String.{String}
use mathlib.Core.Path.{◌≡◌, refl, sym, subst}
use mathlib.Core.Logic.{inl, inr}
use native.Mathlib.Omega.{arith}
use mathlib.Core.Bool.{Bool, true, not}
use mathlib.Core.List.{List, [], ◌∷◌, ◌++◌}
use runbook_platform.Prelude.Tests.{Bool-cases}
use runbook_platform.Prelude.Tables.{any_row, select}
use runbook_platform.Prelude.Json.{Json}
use runbook_platform.Prelude.Effects.{Result, ok, err}
use runbook_platform.Changes.Completion.{ChangeGuards}
use runbook_platform.Executions.Model.{ExecutionStep}
use runbook_platform.Artifacts.Model.{Artifact, Settings, Depot}
use runbook_platform.Artifacts.Completeness.{
  is_satisfied, is_none, required_keys, check_step_evidence_completeness,
}
use runbook_platform.Artifacts.Stored.{
  create_from_runner_upload-Uploaded, create_from_runner_upload-SameStock,
}
use runbook_platform.Artifacts.Limits.{UploadCall, upload_of, after_upload, after_uploads}

any_row-append {ℓ} :
    {A : Type ℓ} (p : A → Bool) (xs ys : List A) → any_row p xs ≡ true → any_row p (xs ++ ys) ≡ true
unfolding any_row
any_row-append p [] ys h = absurd (ground (arith, h))
any_row-append p (x ∷ xs) ys h = ground (arith, h, any_row-append p xs ys)

-- What a weaker test drops, a stronger one drops too.
select_none :
    (p q : Json → Bool) (ks : List Json)
    → ((k : Json) → p k ≡ true → q k ≡ true)
    → is_none (select (λ k. not (p k)) ks) ≡ true
    → is_none (select (λ k. not (q k)) ks) ≡ true
unfolding select
select_none p q [] h n = refl
select_none p q (k ∷ ks) h n = elim (Bool-cases (p k)) [
  | inl e ↦ rw (h k e) (select_none p q ks h (ground (arith, n, e)))
  | inr e ↦ absurd (ground (arith, n, e))
]

complete_append :
    (s : ExecutionStep) (as' : List Artifact) (a : Artifact)
    → (check_step_evidence_completeness s as').complete ≡ true
    → (check_step_evidence_completeness s (as' ++ a ∷ [])).complete ≡ true
unfolding check_step_evidence_completeness is_satisfied
complete_append s as' a h =
    select_none (is_satisfied s as') (is_satisfied s (as' ++ a ∷ [])) (required_keys s)
      (λ k t. any_row-append _ as' (a ∷ []) t) h

module _ (guards : ChangeGuards) (is_word_beyond : ℕ → Bool) (sha256 : List ℕ → String)
    (c : Settings) (s : ExecutionStep) where
  upload_complete :
      (call : UploadCall) (d : Depot) (r : Result Artifact × Depot)
      → upload_of guards is_word_beyond sha256 c call d ≡ r
      → (check_step_evidence_completeness s d.artifacts).complete ≡ true
      → (check_step_evidence_completeness s r.1.artifacts).complete ≡ true
  upload_complete call d (ok a, d') h before =
      let up =
        create_from_runner_upload-Uploaded guards is_word_beyond sha256 c call.execution call.step
          call.upload call.conditions d a d' h in
      subst (λ as'. (check_step_evidence_completeness s as').complete ≡ true)
        (sym up.is_stocked.is_listed) (complete_append s d.artifacts a before)
  upload_complete call d (err x, d') h before =
      let same =
        create_from_runner_upload-SameStock guards is_word_beyond sha256 c call.execution call.step
          call.upload call.conditions d x d' h in
      subst (λ as'. (check_step_evidence_completeness s as').complete ≡ true)
        (sym same.same_artifacts) before

  -- Once a step's evidence is complete, no sequence of uploads, whatever becomes of them, makes it
  -- incomplete.
  pub after_uploads-complete :
      (calls : List UploadCall) (d : Depot)
      → (check_step_evidence_completeness s d.artifacts).complete ≡ true
      → (check_step_evidence_completeness s
          (after_uploads guards is_word_beyond sha256 c calls d).artifacts).complete
        ≡ true
  unfolding after_uploads
  after_uploads-complete [] d h = h
  after_uploads-complete (call ∷ calls) d h =
      after_uploads-complete calls (after_upload guards is_word_beyond sha256 c call d)
        (upload_complete call d _ refl h)
