-- ===== src/Artifacts/Model.antt =====
-- apps/api/apps/artifacts/models.py, and what an upload reads and writes besides the database.
use Prim.Native.Nat.{ℕ}
use Prim.Native.String.{String}
use mathlib.Core.Bool.{Bool}
use mathlib.Core.Option.{Option}
use mathlib.Core.List.{List}
use runbook_platform.Prelude.Tables.{Row}
use runbook_platform.Prelude.Json.{Json, Fields}
use runbook_platform.Prelude.Effects.{Action, Error}
use runbook_platform.Store.{World}

pub data UploadStatus : Type 0 where
  available failed : UploadStatus

pub record Artifact : Type 0 where
  pub id : ℕ
  pub organization_id : ℕ
  pub execution_id : ℕ
  pub step_id : Option ℕ
  pub kind : String
  pub name : List ℕ
  pub original_name : List ℕ
  pub mime_type : String
  pub size_bytes : ℕ
  pub checksum_sha256 : String
  pub storage_key : List ℕ
  pub uploaded_by_runner_id : String
  pub upload_status : UploadStatus
  pub uploaded_at : ℕ
  pub metadata : Fields

instance abbrev pub artifact_row : Row Artifact
artifact_row = record { row_id = λ a. a.id }

-- The settings ARTIFACT_*.
pub record Settings : Type 0 where
  pub max_upload_bytes : ℕ
  pub max_total_bytes_per_execution : ℕ
  pub max_artifacts_per_step : ℕ
  pub daily_bytes_per_runner : ℕ
  pub max_artifact_metadata_bytes : ℕ
  pub allowed_mime_types : List String
  pub require_checksum : Bool
  pub download_url_ttl_seconds : ℕ

pub record UploadedFile : Type 0 where
  pub size : ℕ
  pub content : List ℕ

-- The arguments of a call; `none` is a file or metadata that is not given.
pub record Upload : Type 0 where
  pub runner_id : String
  pub claim_token : String
  pub kind : String
  pub name : List ℕ
  pub file : Option UploadedFile
  pub declared_mime_type : String
  pub declared_checksum_sha256 : String
  pub metadata : Option Json
  pub fresh_id : ℕ
  pub now : ℕ

pub record StoredFile : Type 0 where
  pub key : List ℕ
  pub content : List ℕ

-- The cache's count of a runner's bytes on a day.
pub record DailyUse : Type 0 where
  pub runner_id : String
  pub day : ℕ
  pub bytes : ℕ

-- The database, the table of artifacts, the media root and the cache.
pub record Depot : Type 0 where
  pub world : World
  pub artifacts : List Artifact
  pub files : List StoredFile
  pub daily : List DailyUse

-- How the storage and the database behave in a call: whether the file is written, not written at
-- all or in part, the error of the insertion if it fails, and whether a deletion works.
pub data SaveOutcome : Type 0 where
  saved unsaved : SaveOutcome
  cut_off : List ℕ → SaveOutcome

pub record Conditions : Type 0 where
  pub save : SaveOutcome
  pub insertion : Option Error
  pub can_delete : Bool

abbrev pub Uploading : Type 0 → Type 0
Uploading A = Action Depot A
