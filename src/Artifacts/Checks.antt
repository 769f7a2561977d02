-- ===== src/Artifacts/Checks.antt =====
-- The checks of `create_from_runner_upload` in apps/api/apps/artifacts/services.py that touch no
-- storage.
use Prim.Native.Nat.{ℕ, zero, suc, ◌+◌, ◌/◌}
use Prim.Native.String.{String}
use mathlib.Core.Bool.{Bool, true, false, ◌&&◌, ◌||◌, not}
use mathlib.Core.Option.{Option, none, some}
use mathlib.Core.List.{List, [], ◌∷◌}
use runbook_platform.Prelude.Tests.{ltb, leb, ◌==◌, nat_eq, string_eq, if◌then◌else◌}
use runbook_platform.Prelude.Tables.{count_rows, find_where}
use runbook_platform.Prelude.Json.{Json, Fields}
use runbook_platform.Prelude.Dumps.{dumps_length}
use runbook_platform.Prelude.Codes.{codes, is_digit}
use runbook_platform.Prelude.Effects.{
  Result, ok, err, domain_validation, invalid_state_transition, payload_too_large,
}
use runbook_platform.Prelude.Results.{◌>>=◌, ◌>>◌, ensure}
use runbook_platform.Runners.Registration.{contains}
use runbook_platform.Executions.Model.{
  Execution, ExecutionStatus, succeeded, failed, cancelled, ExecutionStep,
}
use runbook_platform.Artifacts.Model.{
  UploadStatus, available, Artifact, Settings, UploadedFile, Upload, DailyUse, Depot,
}

-- `_TERMINAL_EXECUTION_STATUSES`
abbrev pub is_terminal_status : ExecutionStatus → Bool
is_terminal_status succeeded = true
is_terminal_status failed = true
is_terminal_status cancelled = true
is_terminal_status _ = false

abbrev pub is_available : UploadStatus → Bool
is_available available = true
is_available _ = false

abbrev pub is_key : Option ℕ → ℕ → Bool
is_key none k = false
is_key (some j) k = j == k

-- `timezone.now().date()`
abbrev pub day_of : ℕ → ℕ
day_of now = now / 86400

abbrev bytes_of : Option DailyUse → ℕ
bytes_of none = 0
bytes_of (some u) = u.bytes

-- `cache.get(cache_key, 0)`
unfoldable pub daily_bytes : String → ℕ → List DailyUse → ℕ
daily_bytes runner_id day us =
    bytes_of (find_where (λ (u : DailyUse). u.runner_id == runner_id && u.day == day) us)

-- The sum over the execution's available artifacts.
unfoldable pub total_bytes : ℕ → List Artifact → ℕ
total_bytes execution_id [] = 0
total_bytes execution_id (a ∷ as') =
    let rest = total_bytes execution_id as' in
    if a.execution_id == execution_id && is_available a.upload_status
    then a.size_bytes + rest
    else rest

unfoldable pub count_of_step : ℕ → List Artifact → ℕ
count_of_step step_id as' =
    count_rows (λ (a : Artifact). is_key a.step_id step_id && is_available a.upload_status) as'

abbrev pub is_own_step : Execution → Option ExecutionStep → Bool
is_own_step e none = true
is_own_step e (some s) = s.execution_id == e.id

abbrev pub has_room : Settings → Option ExecutionStep → List Artifact → Bool
has_room c none as' = true
has_room c (some s) as' = ltb (count_of_step s.id as') c.max_artifacts_per_step

abbrev pub kinds : List String
kinds = "stdout" ∷ "stderr" ∷ "file" ∷ "report" ∷ "diagnostic" ∷ []

abbrev or_text : String → String → String
or_text s d = if s == "" then d else s

-- `_normalize_mime_type`
unfoldable pub normalize_mime_type : String → String → String
normalize_mime_type kind declared =
    if kind == "stdout" || kind == "stderr"
    then "text/plain; charset=utf-8"
    else if kind == "report"
    then or_text declared "application/json"
    else or_text declared "application/octet-stream"

-- No list of allowed types allows every type.
abbrev pub is_allowed_type : List String → String → Bool
is_allowed_type [] t = true
is_allowed_type (x ∷ xs) t = contains (x ∷ xs) t

-- `_validate_metadata`
unfoldable pub validate_metadata : Settings → Option Json → Result Fields
validate_metadata c none = ok Fields.end
validate_metadata c (some (Json.obj fs)) =
    if leb (dumps_length (Json.obj fs)) c.max_artifact_metadata_bytes
    then ok fs
    else err (payload_too_large "artifact_metadata_too_large")
validate_metadata c (some Json.null) = ok Fields.end
validate_metadata c (some v) = err (domain_validation "artifact_invalid_metadata")

abbrev is_hex : ℕ → Bool
is_hex c = is_digit c || (leb b'a' c && leb c b'f')

-- `^[0-9a-f]{64}$`, where `$` also stands before a newline at the end.
abbrev is_end : List ℕ → Bool
is_end [] = true
is_end (x ∷ []) = x == 10
is_end _ = false

hex_digits : ℕ → List ℕ → Bool
hex_digits zero xs = is_end xs
hex_digits (suc n) [] = false
hex_digits (suc n) (x ∷ xs) = is_hex x && hex_digits n xs

unfoldable pub is_checksum : String → Bool
unfolding hex_digits
is_checksum s = hex_digits 64 (codes s)

unfoldable pub check_checksum : Settings → String → String → Result (Unit {0})
unfolding is_checksum
check_checksum c declared computed =
    if declared == ""
    then (if c.require_checksum
        then err (domain_validation "artifact_checksum_required")
        else ok tt)
    else if not (is_checksum declared)
    then err (domain_validation "artifact_invalid_checksum")
    else if declared == computed
    then ok tt
    else err (domain_validation "checksum_mismatch")

abbrev pub file_of : Option UploadedFile → Result UploadedFile
file_of none = err (domain_validation "artifact_file_required")
file_of (some f) = ok f

-- What an upload that passes the checks goes on with.
pub record Checked : Type 0 where
  pub file : UploadedFile
  pub metadata : Fields
  pub mime_type : String
  pub checksum : String

unfoldable pub checked : UploadedFile → Fields → String → String → Checked
checked file metadata mime_type checksum = record {
  file = file;
  metadata = metadata;
  mime_type = mime_type;
  checksum = checksum;
}

-- `sha256` is the digest of `_compute_sha256`.
module _ (sha256 : List ℕ → String) (c : Settings) where
  unfoldable pub check_upload : Execution → Option ExecutionStep → Upload → Depot → Result Checked
  unfolding checked check_checksum normalize_mime_type validate_metadata total_bytes daily_bytes
      count_of_step
  check_upload e s u d = do
    ensure (not (is_terminal_status e.status))
        (invalid_state_transition "artifact_execution_terminal")
    ensure (is_own_step e s) (domain_validation "artifact_step_mismatch")
    ensure (contains kinds u.kind) (domain_validation "artifact_invalid_kind")
    file ← file_of u.file
    ensure (leb file.size c.max_upload_bytes) (payload_too_large "artifact_too_large")
    ensure
        (leb (daily_bytes u.runner_id (day_of u.now) d.daily + file.size) c.daily_bytes_per_runner)
        (domain_validation "artifact_runner_daily_quota_exceeded")
    ensure (leb (total_bytes e.id d.artifacts + file.size) c.max_total_bytes_per_execution)
        (domain_validation "artifact_execution_quota_exceeded")
    ensure (has_room c s d.artifacts) (domain_validation "artifact_step_count_exceeded")
    metadata ← validate_metadata c u.metadata
    let mime_type = normalize_mime_type u.kind u.declared_mime_type
    ensure (is_allowed_type c.allowed_mime_types mime_type)
        (domain_validation "artifact_mime_type_not_allowed")
    check_checksum c u.declared_checksum_sha256 (sha256 file.content)
    ok (checked file metadata mime_type (sha256 file.content))
