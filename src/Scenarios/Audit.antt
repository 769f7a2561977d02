-- ===== src/Scenarios/Audit.antt =====
-- Audit events of apps/api/apps/audit on which the theorems are applied.
use runbook_platform.Prelude.Codes.{codes_beq, lower_codes}
use runbook_platform.Audit.Keys.{is_rejected, is_forbidden}
use runbook_platform.Prelude.Tables.{any_row, all_rows}
use runbook_platform.Prelude.Dumps.{dumps_length}
use mathlib.Core.Path.{◌≡◌, refl}
use mathlib.Core.List.{[], ◌∷◌}
use runbook_platform.Prelude.Json.{Json, Items, Fields}
use runbook_platform.Prelude.Effects.{ok, err, validation_error}
use runbook_platform.Audit.Scrub.{scrub_metadata, IsClean}
use runbook_platform.Audit.Clean.{
  exposes, erase, refuse_if, scrub_metadata-refuse_if, scrub_metadata-IsClean,
}
use runbook_platform.Audit.Emit.{EmitCall, StoredEvent, emit}
use runbook_platform.Audit.Trail.{Emitted, emit-Emitted, emit-raises}

-- A password in a list of dicts, and a key that is kept.
abbrev with_password : Fields
with_password =
    Fields.field "attempts"
      (Json.arr (
        Items.cons
          (Json.obj (
            Fields.field "Password" (Json.str "hunter2")
              (Fields.field "host" (Json.str "db1") Fields.end)))
          Items.nil))
      Fields.end

abbrev without_password : Fields
without_password =
    Fields.field "attempts"
      (Json.arr (Items.cons (Json.obj (Fields.field "host" (Json.str "db1") Fields.end)) Items.nil))
      Fields.end

abbrev with_dispatch_token : Fields
with_dispatch_token =
    Fields.field "detail" (Json.obj (Fields.field "dispatch_token" (Json.str "abc") Fields.end))
      Fields.end

scrubs : scrub_metadata with_password ≡ ok without_password
unfolding scrub_metadata is_rejected any_row codes_beq lower_codes is_forbidden
scrubs = refl

scrub_metadata-refuse_if_example :
    scrub_metadata with_dispatch_token
    ≡ refuse_if (exposes with_dispatch_token) (erase with_dispatch_token)
scrub_metadata-refuse_if_example = scrub_metadata-refuse_if with_dispatch_token

scrub_metadata-IsClean_example :
    IsClean without_password × (scrub_metadata without_password ≡ ok without_password)
scrub_metadata-IsClean_example = scrub_metadata-IsClean with_password without_password scrubs

abbrev attempt : EmitCall
attempt = record {
  organization_id = 10;
  actor_type = "system";
  actor_id = "";
  actor_label = "Django system";
  event_type = "runner.authenticated";
  object_type = "runner";
  object_id = 7;
  metadata = Json.obj with_password;
  occurred_at = 100;
}

abbrev stored_attempt : StoredEvent
stored_attempt = record {
  organization_id = 10;
  actor_type = "system";
  actor_id = "";
  actor_label = "Django system";
  event_type = "runner.authenticated";
  object_type = "runner";
  object_id = 7;
  metadata = without_password;
  occurred_at = 100;
}

abbrev exposing_attempt : EmitCall
exposing_attempt = record attempt { metadata = Json.obj with_dispatch_token }

emits : emit attempt [] ≡ (ok stored_attempt, stored_attempt ∷ [])
unfolding emit any_row all_rows scrub_metadata is_rejected codes_beq lower_codes is_forbidden
    dumps_length
emits = refl

emit-Emitted_example : Emitted attempt [] stored_attempt (stored_attempt ∷ [])
emit-Emitted_example = emit-Emitted attempt [] stored_attempt (stored_attempt ∷ []) emits

refuses : emit exposing_attempt (stored_attempt ∷ []) ≡ (err validation_error, stored_attempt ∷ [])
unfolding emit any_row all_rows scrub_metadata is_rejected codes_beq lower_codes is_forbidden
refuses = refl

emit-raises_example : (stored_attempt ∷ []) ≡ (stored_attempt ∷ [])
emit-raises_example =
    emit-raises exposing_attempt (stored_attempt ∷ []) validation_error (stored_attempt ∷ [])
      refuses
