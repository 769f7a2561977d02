-- ===== src/Artifacts/Quotas.antt =====
-- The limits on stored artifacts: apps/api/apps/artifacts/services.py.
use Prim.Native.Nat.{ℕ, ◌+◌, ◌≤◌}
use Prim.Native.String.{String}
use mathlib.Core.Path.{◌≡◌, refl}
use mathlib.Core.Logic.{◌⊎◌, inl, inr}
use native.Mathlib.Omega.{arith}
use mathlib.Core.Bool.{true, false, ◌&&◌}
use mathlib.Core.Option.{Option, none, some}
use mathlib.Core.List.{List, [], ◌∷◌, ◌++◌}
use runbook_platform.Prelude.Tests.{◌==◌, nat_eq, string_eq, eq_iff, Bool-cases, if◌then◌else◌}
use runbook_platform.Prelude.Effects.{ok}
use runbook_platform.Prelude.Results.{Gives, Gives-bind, Gives-ensure, Gives-then, Gives-ok}
use runbook_platform.Executions.Model.{Execution, ExecutionStep}
use runbook_platform.Artifacts.Model.{Artifact, Settings, Upload, UploadedFile, Depot}
use runbook_platform.Artifacts.Checks.{
  Checked, check_upload, total_bytes, count_of_step, file_of, has_room, is_available,
  is_terminal_status, is_own_step, daily_bytes, day_of, check_checksum, checked,
}

-- No execution's available artifacts and no step's number of them pass the limits.
pub record WithinQuotas (c : Settings) (as' : List Artifact) : Type 0 where
  pub bytes : (k : ℕ) → total_bytes k as' ≤ c.max_total_bytes_per_execution
  pub count : (k : ℕ) → count_of_step k as' ≤ c.max_artifacts_per_step

pub total_bytes-append :
    (k : ℕ) (as' : List Artifact) (a : Artifact)
    → total_bytes k (as' ++ a ∷ [])
      ≡ total_bytes k as'
        + (if a.execution_id == k && is_available a.upload_status then a.size_bytes else 0)
unfolding total_bytes
total_bytes-append k [] a = ground arith
total_bytes-append k (b ∷ bs) a = ground (arith, total_bytes-append k bs a)

module _ (sha256 : List ℕ → String) (c : Settings) (e : Execution) (s : Option ExecutionStep)
    (u : Upload) (d : Depot) where
  -- What the checks have made sure of.
  pub record Accepted (h : Checked) : Type 0 where
    pub is_open : is_terminal_status e.status ≡ false
    pub owns_step : is_own_step e s ≡ true
    pub is_file : u.file ≡ some h.file
    pub fits_upload : h.file.size ≤ c.max_upload_bytes
    pub fits_day :
        daily_bytes u.runner_id (day_of u.now) d.daily + h.file.size ≤ c.daily_bytes_per_runner
    pub fits_execution :
        total_bytes e.id d.artifacts + h.file.size ≤ c.max_total_bytes_per_execution
    pub fits_step : has_room c s d.artifacts ≡ true
    pub is_digest : h.checksum ≡ sha256 h.file.content
    pub is_declared : (u.declared_checksum_sha256 ≡ "") ⊎ (u.declared_checksum_sha256 ≡ h.checksum)

  file_of-some : (f : Option UploadedFile) (g : UploadedFile) → file_of f ≡ ok g → f ≡ some g
  file_of-some none g h = absurd (ground (arith, h))
  file_of-some (some f) g h = ground (arith, h)

  check_checksum-declared :
      (declared computed : String) (x : Unit {0})
      → check_checksum c declared computed ≡ ok x
      → (declared ≡ "") ⊎ (declared ≡ computed)
  unfolding check_checksum
  check_checksum-declared declared computed x h = elim (Bool-cases (declared == "")) [
    | inl a ↦ inl ((eq_iff declared "").0 a)
    | inr a ↦ inr ((eq_iff declared computed).0 (ground (arith, h, a)))
  ]

  pub check_upload-Accepted : Gives Accepted (check_upload sha256 c e s u d)
  unfolding check_upload checked
  check_upload-Accepted = Gives-ensure Accepted _ _ _ (λ open_e. Gives-ensure Accepted _ _ _ (λ own.
      Gives-ensure Accepted _ _ _ (λ known_kind.
        Gives-bind Accepted (file_of u.file) _ (λ file has_file.
          Gives-ensure Accepted _ _ _ (λ small. Gives-ensure Accepted _ _ _ (λ day.
            Gives-ensure Accepted _ _ _ (λ total. Gives-ensure Accepted _ _ _ (λ room.
              Gives-bind Accepted _ _ (λ metadata has_metadata. Gives-ensure Accepted _ _ _ (λ mime.
                Gives-then Accepted _ _ (λ x sums. Gives-ok Accepted _ (record {
                  is_open = ground (arith, open_e);
                  owns_step = own;
                  is_file = file_of-some u.file file has_file;
                  fits_upload = ground (arith, small);
                  fits_day = ground (arith, day);
                  fits_execution = ground (arith, total);
                  fits_step = room;
                  is_digest = refl;
                  is_declared =
                      check_checksum-declared u.declared_checksum_sha256 (sha256 file.content) x
                        sums;
                }))))))))))))
