-- ===== src/Scenarios/Artifacts.antt =====
-- Uploads of apps/api/apps/artifacts on which the theorems are applied.
use runbook_platform.Prelude.Json.{elements, Json, Items, Fields}
use runbook_platform.Prelude.Tables.{select, any_row, find_where, count_rows}
use runbook_platform.Runners.Registration.{contains}
use runbook_platform.Prelude.Results.{◌>>◌, ensure}
use runbook_platform.Changes.Dispatch.{binding_of}
use runbook_platform.Changes.Completion.{assert_execution_change_binding_ready}
use runbook_platform.Executions.Steps.{check_ownership}
use runbook_platform.Prelude.Text.{id_text}
use runbook_platform.Prelude.Dumps.{dumps_length}
use Prim.Native.Nat.{ℕ, zero, suc}
use Prim.Native.String.{String}
use mathlib.Core.Path.{◌≡◌, refl, ap}
use native.Mathlib.Omega.{arith}
use mathlib.Core.Bool.{Bool, true, false}
use mathlib.Core.Option
use mathlib.Core.Option.{Option, none, some}
use mathlib.Core.List.{List, [], ◌∷◌}
use runbook_platform.Prelude.Tests.{ltb, if◌then◌else◌}
use runbook_platform.Prelude.Codes.{codes}
use runbook_platform.Prelude.Effects.{Result, ok, err, domain_validation, payload_too_large}
use runbook_platform.Store.{empty_world}
use runbook_platform.Executions.Model.{ExecutionStep}
use runbook_platform.Scenarios.Executions.{running_execution, running_step, quiet_guards}
use runbook_platform.Artifacts.Model.{
  Artifact, UploadStatus, Settings, Upload, Depot, Conditions, SaveOutcome,
}
use runbook_platform.Artifacts.Names.{sanitize_filename}
use runbook_platform.Artifacts.SafeNames.{SafeName, sanitize_filename-stable}
use runbook_platform.Artifacts.Checks.{total_bytes, count_of_step}
use runbook_platform.Artifacts.Quotas.{WithinQuotas}
use runbook_platform.Artifacts.Upload.{create_from_runner_upload, generate_storage_key}
use runbook_platform.Artifacts.Stored.{
  Uploaded, SameStock, create_from_runner_upload-Uploaded, create_from_runner_upload-SameStock,
}
use runbook_platform.Artifacts.Limits.{UploadCall, after_uploads, after_uploads-WithinQuotas}
use runbook_platform.Artifacts.Tokens.{
  Signing, create_download_token, validate_download_token, is_same_artifact,
  validate_download_token-create,
}
use runbook_platform.Artifacts.Completeness.{check_step_evidence_completeness}
use runbook_platform.Artifacts.Complete.{after_uploads-complete}

-- No letters beyond ASCII, and one digest for every content.
abbrev ascii_only : ℕ → Bool
ascii_only c = false

abbrev one_digest : List ℕ → String
one_digest content = "00000000000000000000000000000000000000000000000000000000000000ff"

abbrev small_limits : Settings
small_limits = record {
  max_upload_bytes = 100;
  max_total_bytes_per_execution = 150;
  max_artifacts_per_step = 2;
  daily_bytes_per_runner = 1000;
  max_artifact_metadata_bytes = 8192;
  allowed_mime_types = [];
  require_checksum = true;
  download_url_ttl_seconds = 300;
}

abbrev report : Upload
report = record {
  runner_id = "7";
  claim_token = "token";
  kind = "report";
  name = codes "../out dir/.report.json";
  file = some (record { size = 80; content = codes "{}" });
  declared_mime_type = "";
  declared_checksum_sha256 = one_digest [];
  metadata = some (Json.obj (Fields.field "declaration_key" (Json.str "report") Fields.end));
  fresh_id = 90;
  now = 200;
}

abbrev big_report : Upload
big_report = record report {
  file = some (record { size = 101; content = codes "{}" });
  fresh_id = 91;
}

abbrev all_works : Conditions
all_works = record { save = SaveOutcome.saved; insertion = none; can_delete = true }

abbrev empty_depot : Depot
empty_depot = record { world = empty_world; artifacts = []; files = []; daily = [] }

sanitize_filename-stable_example :
    SafeName ascii_only (sanitize_filename ascii_only report.name)
    × (sanitize_filename ascii_only (sanitize_filename ascii_only report.name)
        ≡ sanitize_filename ascii_only report.name)
sanitize_filename-stable_example = sanitize_filename-stable ascii_only report.name

abbrev stored_report : Artifact
stored_report = record {
  id = 90;
  organization_id = 10;
  execution_id = 1;
  step_id = some 3;
  kind = "report";
  name = codes "report.json";
  original_name = report.name;
  mime_type = "application/json";
  size_bytes = 80;
  checksum_sha256 = one_digest [];
  storage_key = codes "artifacts/org/10/execution/1/step/3/artifact/90/report.json";
  uploaded_by_runner_id = "7";
  upload_status = UploadStatus.available;
  uploaded_at = 200;
  metadata = Fields.field "declaration_key" (Json.str "report") Fields.end;
}

abbrev upload_here : Upload → Depot → Result Artifact × Depot
upload_here u =
    create_from_runner_upload quiet_guards ascii_only one_digest small_limits running_execution
      (some running_step) u all_works

abbrev full_depot : Depot
full_depot = (upload_here report empty_depot).1

uploads : upload_here report empty_depot ≡ (ok stored_report, full_depot)
unfolding create_from_runner_upload check_ownership assert_execution_change_binding_ready binding_of
    find_where ◌>>◌ ensure contains count_rows dumps_length any_row select id_text
uploads = refl

create_from_runner_upload-Uploaded_example :
    Uploaded quiet_guards ascii_only one_digest small_limits running_execution
      (some running_step)
      report
      all_works
      empty_depot
      stored_report
      full_depot
create_from_runner_upload-Uploaded_example =
    create_from_runner_upload-Uploaded quiet_guards ascii_only one_digest small_limits
      running_execution (some running_step) report all_works empty_depot stored_report full_depot
      uploads

too_large :
    upload_here big_report empty_depot ≡ (err (payload_too_large "artifact_too_large"), empty_depot)
unfolding create_from_runner_upload check_ownership assert_execution_change_binding_ready binding_of
    find_where ◌>>◌ ensure contains
too_large = refl

create_from_runner_upload-SameStock_example :
    SameStock
      (generate_storage_key running_execution
        (some running_step)
        91
        (sanitize_filename ascii_only big_report.name))
      empty_depot
      empty_depot
create_from_runner_upload-SameStock_example =
    create_from_runner_upload-SameStock quiet_guards ascii_only one_digest small_limits
      running_execution (some running_step) big_report all_works empty_depot
      (payload_too_large "artifact_too_large") empty_depot too_large

abbrev call_of : Upload → UploadCall
call_of u = record {
  execution = running_execution;
  step = some running_step;
  upload = u;
  conditions = all_works;
}

-- The second of two reports would pass the limit of the execution.
abbrev two_reports : List UploadCall
two_reports = call_of report ∷ call_of (record report { fresh_id = 92 }) ∷ []

empty-WithinQuotas : WithinQuotas small_limits empty_depot.artifacts
unfolding total_bytes count_of_step count_rows
empty-WithinQuotas = record { bytes = λ k. omega arith; count = λ k. omega arith }

after_uploads-WithinQuotas_example :
    WithinQuotas small_limits
      (after_uploads quiet_guards ascii_only one_digest small_limits two_reports
        empty_depot).artifacts
after_uploads-WithinQuotas_example =
    after_uploads-WithinQuotas quiet_guards ascii_only one_digest small_limits two_reports
      empty_depot empty-WithinQuotas

-- A step that declares the report as required.
abbrev reporting_step : ExecutionStep
reporting_step = record running_step {
  step_snapshot = Json.obj (
      Fields.field "artifacts"
        (Json.arr (
          Items.cons
            (Json.obj (
              Fields.field "key" (Json.str "report")
                (Fields.field "required" (Json.bool true) Fields.end)))
            Items.nil))
        Fields.end);
}

abbrev reported_depot : Depot
reported_depot = record empty_depot { artifacts = stored_report ∷ [] }

is_complete :
    (check_step_evidence_completeness reporting_step reported_depot.artifacts).complete ≡ true
unfolding check_step_evidence_completeness select elements any_row
is_complete = refl

after_uploads-complete_example :
    (check_step_evidence_completeness reporting_step
      (after_uploads quiet_guards ascii_only one_digest small_limits two_reports
        reported_depot).artifacts).complete
    ≡ true
after_uploads-complete_example =
    after_uploads-complete quiet_guards ascii_only one_digest small_limits reporting_step
      two_reports reported_depot is_complete

-- An instant as as many letters; a token is its payload.
unfoldable letters : ℕ → String
letters zero = String.[]
letters (suc n) = String.◌∷◌ "a" (letters n)

unfoldable size_of : String → ℕ
size_of String.[] = 0
size_of (String.◌∷◌ c s) = suc (size_of s)

size_of-letters : (t : ℕ) → some (size_of (letters t)) ≡ some t
unfolding letters size_of
size_of-letters zero = refl
size_of-letters (suc t) = ap (Option.map suc) (size_of-letters t)

abbrev open_signing : Signing
open_signing = record {
  Token = Fields;
  dumps = λ payload. payload;
  loads = λ payload. some (Json.obj payload);
  isoformat = letters;
  fromisoformat = λ s. some (size_of s);
  loads-dumps = λ payload. refl;
  fromisoformat-isoformat = size_of-letters;
}

validate_download_token-create_example :
    validate_download_token open_signing stored_report
      (create_download_token open_signing stored_report 500)
      499
    ≡ (if is_same_artifact open_signing stored_report stored_report
        then (if ltb 499 500
            then ok tt
            else err (domain_validation "artifact_download_token_expired"))
        else err (domain_validation "artifact_download_token_invalid"))
validate_download_token-create_example =
    validate_download_token-create open_signing stored_report stored_report 500 499
