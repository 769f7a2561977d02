-- ===== src/Artifacts/Upload.antt =====
-- `create_from_runner_upload` of apps/api/apps/artifacts/services.py.
use Prim.Native.Nat.{ℕ, ◌+◌}
use Prim.Native.String.{String}
use mathlib.Core.Bool.{Bool, ◌&&◌, ◌||◌, not}
use mathlib.Core.Option.{Option, none, some}
use mathlib.Core.List.{List, [], ◌∷◌, ◌++◌}
use runbook_platform.Prelude.Tests.{◌==◌, nat_eq, string_eq, if◌then◌else◌}
use runbook_platform.Prelude.Tables.{any_row, select}
use runbook_platform.Prelude.Text.{id_text}
use runbook_platform.Prelude.Codes.{codes, codes_beq}
use runbook_platform.Prelude.Effects.{
  Result, ok, err, Error, external_dependency, integrity_error, ◌>>◌, raise_if,
}
use runbook_platform.Audit.{AuditEvent, actor_from_runner, text, number, null}
use runbook_platform.Store.{Service, emit, on_commit, Message}
use runbook_platform.Changes.Completion.{ChangeGuards, assert_execution_change_binding_ready}
use runbook_platform.Executions.Model.{Execution, ExecutionStep}
use runbook_platform.Executions.Steps.{check_ownership}
use runbook_platform.Artifacts.Model.{
  UploadStatus, Artifact, artifact_row, Settings, Upload, StoredFile, DailyUse, Depot, SaveOutcome,
  saved, unsaved, cut_off, Conditions, Uploading,
}
use runbook_platform.Artifacts.Names.{sanitize_filename, take_codes}
use runbook_platform.Artifacts.Checks.{Checked, check_upload, day_of}

abbrev pub step_key : Option ExecutionStep → Option ℕ
step_key none = none
step_key (some s) = some s.id

step_segment : Option ExecutionStep → List ℕ
step_segment none = codes "execution"
step_segment (some s) = codes (id_text s.id)

-- `_generate_storage_key`
unfoldable pub generate_storage_key : Execution → Option ExecutionStep → ℕ → List ℕ → List ℕ
unfolding step_segment
generate_storage_key e s artifact_id safe_name =
    codes "artifacts/org/"
    ++ (codes (id_text e.organization_id)
        ++ (codes "/execution/"
            ++ (codes (id_text e.id)
                ++ (codes "/step/"
                    ++ (step_segment s
                        ++ (codes "/artifact/"
                            ++ (codes (id_text artifact_id) ++ (codes "/" ++ safe_name))))))))

unfoldable pub remove_file : List ℕ → List StoredFile → List StoredFile
remove_file key fs = select (λ (f : StoredFile). not (codes_beq f.key key)) fs

-- `open(full_path, "wb")` replaces a file of the same name.
unfoldable pub write_file : List ℕ → List ℕ → List StoredFile → List StoredFile
unfolding remove_file
write_file key content fs = remove_file key fs ++ record { key = key; content = content } ∷ []

-- `cache.incr`, or `cache.set` for the first upload of the day.
unfoldable pub increment_daily : String → ℕ → ℕ → List DailyUse → List DailyUse
increment_daily runner_id day bytes [] =
    record { runner_id = runner_id; day = day; bytes = bytes } ∷ []
increment_daily runner_id day bytes (u ∷ us) =
    let rest = increment_daily runner_id day bytes us in
    if u.runner_id == runner_id && u.day == day
    then record u { bytes = u.bytes + bytes } ∷ us
    else u ∷ rest

uploaded_event : Artifact → AuditEvent
uploaded_event a = record {
  organization_id = a.organization_id;
  actor = actor_from_runner a.uploaded_by_runner_id;
  event_type = "artifact.uploaded";
  object_type = "artifact";
  object_id = a.id;
  metadata =
      ("execution_id", text (id_text a.execution_id))
      ∷ ("step_id", elim a.step_id [ none ↦ null | some k ↦ text (id_text k) ])
      ∷ ("kind", text a.kind)
      ∷ ("mime_type", text a.mime_type)
      ∷ ("size_bytes", number a.size_bytes)
      ∷ ("checksum_sha256", text a.checksum_sha256)
      ∷ [];
}

-- The database refuses a second row under a primary or a storage key.
unfoldable pub is_used : Artifact → List Artifact → Bool
is_used a as' =
    any_row (λ (b : Artifact). b.id == a.id) as'
    || any_row (λ (b : Artifact). codes_beq b.storage_key a.storage_key) as'

unfoldable pub insert_artifact : Option Error → Artifact → Uploading Artifact
unfolding uploaded_event is_used
insert_artifact (some x) a d = (err x, d)
insert_artifact none a d = if is_used a d.artifacts then (err integrity_error, d) else (
  ok a,
  record d { artifacts = d.artifacts ++ a ∷ []; world = emit (uploaded_event a) d.world },
)

-- After a failed insertion the file is deleted, if that works.
unfoldable pub or_deleted : Bool → List ℕ → Result Artifact × Depot → Result Artifact × Depot
unfolding remove_file
or_deleted can_delete key (ok a, d) = (ok a, d)
or_deleted can_delete key (err x, d) =
    (err x, if can_delete then record d { files = remove_file key d.files } else d)

unfoldable pub finish_upload : Upload → Result Artifact × Depot → Result Artifact × Depot
unfolding increment_daily
finish_upload u (err x, d) = (err x, d)
finish_upload u (ok a, d) = (
  ok a,
  record d {
    daily = increment_daily u.runner_id (day_of u.now) a.size_bytes d.daily;
    world = on_commit (Message.notify "artifact.uploaded" a.id) d.world;
  },
)

unfoldable pub store_upload :
    SaveOutcome → Conditions → Upload → Artifact → List ℕ → Uploading Artifact
unfolding write_file insert_artifact or_deleted finish_upload
store_upload unsaved k u a content d = (err (external_dependency "artifact_storage_failed"), d)
store_upload (cut_off part) k u a content d = (
  err (external_dependency "artifact_storage_failed"),
  record d { files = write_file a.storage_key part d.files },
)
store_upload saved k u a content d = finish_upload u (
    or_deleted k.can_delete a.storage_key (
      insert_artifact k.insertion a
        (record d { files = write_file a.storage_key content d.files })))

unfoldable pub new_artifact :
    (ℕ → Bool) → Execution → Option ExecutionStep → Upload → Checked → Artifact
unfolding generate_storage_key sanitize_filename take_codes
new_artifact is_word_beyond e s u c =
    let safe_name = sanitize_filename is_word_beyond u.name in
    record {
      id = u.fresh_id;
      organization_id = e.organization_id;
      execution_id = e.id;
      step_id = step_key s;
      kind = u.kind;
      name = safe_name;
      original_name = take_codes 255 u.name;
      mime_type = c.mime_type;
      size_bytes = c.file.size;
      checksum_sha256 = c.checksum;
      storage_key = generate_storage_key e s u.fresh_id safe_name;
      uploaded_by_runner_id = u.runner_id;
      upload_status = UploadStatus.available;
      uploaded_at = u.now;
      metadata = c.metadata;
    }

-- A service of the database, run in the depot.
abbrev pub in_depot : {A : Type 0} → Service A → Uploading A
in_depot m d = let (r, w) = m d.world in (r, record d { world = w })

module _ (guards : ChangeGuards) (is_word_beyond : ℕ → Bool) (sha256 : List ℕ → String)
    (c : Settings) where
  unfoldable pub upload_checked :
      Execution → Option ExecutionStep → Upload → Conditions → Result Checked → Uploading Artifact
  unfolding store_upload new_artifact
  upload_checked e s u k (err x) d = (err x, d)
  upload_checked e s u k (ok h) d =
      store_upload k.save k u (new_artifact is_word_beyond e s u h) h.file.content d

  -- The execution and the step are the caller's objects.
  unfoldable pub create_from_runner_upload :
      Execution → Option ExecutionStep → Upload → Conditions → Uploading Artifact
  unfolding upload_checked check_upload
  create_from_runner_upload e s u k = do
    raise_if (check_ownership e u.runner_id u.claim_token)
    in_depot (assert_execution_change_binding_ready guards e u.runner_id u.claim_token u.now)
    λ d. upload_checked e s u k (check_upload sha256 c e s u d) d
